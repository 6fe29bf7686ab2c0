-- ===== src/Process/Servers.antt =====
-- runServers of cmd/policy-manager/main.go: each server runs in a goroutine of its own, which sends
-- the server's error, if any, over a channel with room for one error of each server; another
-- goroutine closes the channel when all have ended, and the loop receives until then. The steps of
-- the goroutines come in any order.
pub mod Invariant
pub mod Ending
use dcm_policy_manager.Prelude.{
  ℕ, suc, ◌+◌, ◌<◌, String, Bool, true, false, Option, none, some, List, [], ◌∷◌, ◌++◌, ◌≡◌, length,
}

pub record Servers : Type 0 where
  -- goroutines whose server runs, and the errors of those that are about to send
  pub running : ℕ
  pub sending : List String
  -- errChan
  pub channel : List String
  pub is_closed : Bool
  -- the variable of the loop
  pub first_err : Option String
  -- the context of the servers
  pub cancelled : Bool

abbrev pub start_servers : ℕ → Servers
start_servers n = record {
  running = n;
  sending = [];
  channel = [];
  is_closed = false;
  first_err = none;
  cancelled = false;
}

-- the body of the loop
abbrev pub receive : String → List String → Servers → Servers
receive e rest s = elim s.first_err [
  | none ↦ record s { channel = rest; first_err = some e; cancelled = true }
  | some first ↦ record s { channel = rest }
]

-- A step over a channel with room for `capacity` errors. What it sends is its label.
pub data ServerStep (capacity : ℕ) : List String → Servers → Servers → Type 0 where
  -- SIGINT or SIGTERM
  interrupt :
      {s : Servers} → s.cancelled ≡ false → ServerStep capacity [] s (record s { cancelled = true })
  -- Run returns nil
  stops :
      {s : Servers} (n : ℕ)
      → s.running ≡ suc n
      → ServerStep capacity [] s (record s { running = n })
  -- Run returns an error
  fails :
      {s : Servers} (n : ℕ) (e : String)
      → s.running ≡ suc n
      → ServerStep capacity [] s (record s { running = n; sending = e ∷ s.sending })
  -- errChan <- err, for any of the goroutines that want to send
  sends :
      {s : Servers} (before after : List String) (e : String)
      → s.sending ≡ before ++ e ∷ after
      → length s.channel < capacity
      → ServerStep capacity
          (e ∷ [])
          s
          (record s { sending = before ++ after; channel = s.channel ++ e ∷ [] })
  -- close(errChan), when wg.Wait returns
  closes :
      {s : Servers}
      → s.running ≡ 0
      → s.sending ≡ []
      → s.is_closed ≡ false
      → ServerStep capacity [] s (record s { is_closed = true })
  -- the loop
  receives :
      {s : Servers} (e : String) (rest : List String)
      → s.channel ≡ e ∷ rest
      → ServerStep capacity [] s (receive e rest s)

-- A run of `steps` steps from the start of n servers, which sends `sent` in this order.
pub data Runs (n : ℕ) : ℕ → List String → Servers → Type 0 where
  begins : Runs n 0 [] (start_servers n)
  goes_on :
      {steps : ℕ} {sent more : List String} {s s' : Servers}
      → Runs n steps sent s
      → ServerStep n more s s'
      → Runs n (suc steps) (sent ++ more) s'

-- The loop has ended, and runServers returns `first_err`.
abbrev pub HasEnded : Servers → Type 0
HasEnded s = (s.is_closed ≡ true) × (s.channel ≡ [])

abbrev pub head_of : List String → Option String
head_of [] = none
head_of (e ∷ es) = some e
