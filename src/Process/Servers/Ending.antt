-- ===== src/Process/Servers/Ending.antt =====
-- The loop of runServers ends, whatever the servers do and in whatever order, with the first error
-- that was sent.
use mathlib.Core.List.{append-nil}
use dcm_policy_manager.Prelude.{
  ℕ, zero, suc, length-append, ◌+◌, ◌*◌, ◌<◌, ◌≤◌, String, Bool, true, false, List, [], ◌∷◌, ◌++◌,
  ◌≡◌, ◌⊎◌, inl, inr, refl, sym, ap, ◌∙◌, arith, length,
}
use dcm_policy_manager.Process.Servers.{
  Servers, receive, ServerStep, stops, sends, closes, receives, Runs, HasEnded, head_of,
}
use dcm_policy_manager.Process.Servers.Invariant.{IsRun, Runs-IsRun}

-- However the servers end, and in whatever order the steps come, runServers of n servers returns
-- the first error that any server sent, and none exactly if no server sent one; and by then every
-- server has ended.
pub Runs-first_err :
    {n steps : ℕ} {sent : List String} {s : Servers}
    → Runs n steps sent s
    → HasEnded s
    → (s.first_err ≡ head_of sent) × (s.running ≡ 0) × (s.sending ≡ [])
Runs-first_err {sent} {s} run (closed, empty) =
    let r = Runs-IsRun run in
    let all : sent ≡ r.received =
      r.in_order ∙ ap (λ es. r.received ++ es) empty ∙ append-nil r.received in
    let (none_left, nothing) = r.all_sent closed in
    (r.first ∙ ap head_of (sym all), none_left, nothing)

-- Sending never blocks: while an error waits to be sent, the channel has room.
has_room :
    (n steps : ℕ) (sent : List String) (s : Servers) (e : String) (es : List String)
    → IsRun n steps sent s
    → s.sending ≡ e ∷ es
    → length s.channel < n
has_room n steps sent s e es r h =
    omega (arith, r.room, ap length h, ap length r.in_order, length-append r.received s.channel)

module _ (n steps : ℕ) (sent : List String) (s : Servers) (r : IsRun n steps sent s) where
  abbrev CanStep : Type 0
  CanStep = (more : List String) × (s' : Servers) × ServerStep n more s s'

  next_step :
      (channel : List String) (is_closed : Bool) (sending : List String) (running : ℕ)
      → s.channel ≡ channel
      → s.is_closed ≡ is_closed
      → s.sending ≡ sending
      → s.running ≡ running
      → HasEnded s ⊎ CanStep
  next_step (e ∷ rest) is_closed sending running c b w k =
      inr ([], receive e rest s, receives e rest c)
  next_step [] true sending running c b w k = inl (b, c)
  next_step [] false (e ∷ es) running c b w k = inr (
    e ∷ [],
    record s { sending = es; channel = s.channel ++ e ∷ [] },
    sends [] es e w (has_room n steps sent s e es r w),
  )
  next_step [] false [] zero c b w k = inr ([], record s { is_closed = true }, closes k w b)
  next_step [] false [] (suc m) c b w k = inr ([], record s { running = m }, stops m k)

-- The loop never hangs: a run of n servers has 3 n + 2 steps at most, and as long as the loop has
-- not ended a step can follow, where a server that runs can end; so no error waits for room in the
-- channel for ever.
pub Runs-go_on :
    {n steps : ℕ} {sent : List String} {s : Servers}
    → Runs n steps sent s
    → (steps ≤ 3 * n + 2)
      × (HasEnded s ⊎ ((more : List String) × (s' : Servers) × ServerStep n more s s'))
Runs-go_on {n} {steps} {sent} {s} run =
    let r = Runs-IsRun run in
    (
      omega (arith, r.count),
      next_step n steps sent s r s.channel s.is_closed s.sending s.running refl refl refl refl,
    )
