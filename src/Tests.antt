-- ===== src/Tests.antt =====
-- Concrete inputs for the theorems.
mod Libraries
mod Constraining
mod Evaluating
mod Paging
mod Identifying
mod Requesting
mod Answering
mod Serving
mod Tables
mod Running
mod Calling
mod Racing
mod Reaching
mod Starting
mod Validating
mod Publishing
mod Web
mod Remote
mod Exchanging
mod Asking
