-- ===== src/Process/Servers/Invariant.antt =====
-- What holds in every run of runServers: where each error is that a server returned, and how many
-- steps are left.
use mathlib.Core.List.{append_assoc, append-nil}
use dcm_policy_manager.Prelude.{
  ℕ, suc, length-append, ◌+◌, ◌*◌, ◌≤◌, String, true, false, Option, Option-cases, none, some, List,
  [], ◌∷◌, ◌++◌, ◌≡◌, inl, inr, refl, sym, ap, ◌∙◌, subst, arith, length, if◌then◌else◌,
}
use dcm_policy_manager.Process.Servers.{
  Servers, start_servers, receive, ServerStep, interrupt, stops, fails, sends, closes, receives,
  Runs, begins, goes_on, head_of,
}

-- The steps that are left: three for each server that runs, two for each error to be sent, one for
-- each error to be received, for the closing and for the cancellation.
abbrev pub left : Servers → ℕ
left s =
    3 * s.running
    + 2 * length s.sending
    + length s.channel
    + (if s.is_closed then 0 else 1)
    + (if s.cancelled then 0 else 1)

pub record IsRun (n steps : ℕ) (sent : List String) (s : Servers) : Type 0 where
  pub received : List String
  pub in_order : sent ≡ received ++ s.channel
  pub first : s.first_err ≡ head_of received
  -- an error stops the other servers
  pub stopped : (e : String) → s.first_err ≡ some e → s.cancelled ≡ true
  pub room : s.running + length s.sending + length sent ≤ n
  pub count : steps + left s ≤ 3 * n + 2
  pub all_sent : s.is_closed ≡ true → (s.running ≡ 0) × (s.sending ≡ [])

begins-IsRun : (n : ℕ) → IsRun n 0 [] (start_servers n)
begins-IsRun n = record {
  received = [];
  in_order = refl;
  first = refl;
  stopped = λ e h. cc;
  room = omega arith;
  count = omega arith;
  all_sent = λ h. cc;
}

abbrev if_none : String → Option String → Option String
if_none e none = some e
if_none e (some f) = some f

head_of-append :
    (es : List String) (e : String) (first : Option String)
    → head_of es ≡ first
    → head_of (es ++ e ∷ []) ≡ if_none e first
head_of-append [] e first h = ap (if_none e) h
head_of-append (f ∷ es) e first h = ap (if_none e) h

first_received :
    (s : Servers) (e : String) (rest : List String)
    → s.first_err ≡ none
    → receive e rest s ≡ record s { channel = rest; first_err = some e; cancelled = true }
first_received s e rest h = rw (h, receive)

later_received :
    (s : Servers) (e : String) (rest : List String) (f : String)
    → s.first_err ≡ some f
    → receive e rest s ≡ record s { channel = rest; first_err = some f }
later_received s e rest f h =
    rw (h, receive) (ap (λ o. record s { channel = rest; first_err = o }) h)

module _ (n steps : ℕ) (sent : List String) (s : Servers) (r : IsRun n steps sent s) where
  interrupted-IsRun :
      s.cancelled ≡ false → IsRun n (suc steps) (sent ++ []) (record s { cancelled = true })
  interrupted-IsRun h = record {
    received = r.received;
    in_order = append-nil sent ∙ r.in_order;
    first = r.first;
    stopped = λ e h. refl;
    room = ground (arith, append-nil sent, r.room);
    count = ground (arith, h, r.count);
    all_sent = r.all_sent;
  }

  stopped-IsRun :
      (m : ℕ) → s.running ≡ suc m → IsRun n (suc steps) (sent ++ []) (record s { running = m })
  stopped-IsRun m h = record {
    received = r.received;
    in_order = append-nil sent ∙ r.in_order;
    first = r.first;
    stopped = r.stopped;
    room = ground (arith, append-nil sent, h, r.room);
    count = ground (arith, h, r.count);
    all_sent = λ c. let ended = (r.all_sent c).0 in absurd (omega (arith, h, ended));
  }

  failed-IsRun :
      (m : ℕ) (e : String)
      → s.running ≡ suc m
      → IsRun n (suc steps) (sent ++ []) (record s { running = m; sending = e ∷ s.sending })
  failed-IsRun m e h = record {
    received = r.received;
    in_order = append-nil sent ∙ r.in_order;
    first = r.first;
    stopped = r.stopped;
    room = ground (arith, append-nil sent, h, r.room);
    count = ground (arith, h, r.count);
    all_sent = λ c. let ended = (r.all_sent c).0 in absurd (omega (arith, h, ended));
  }

  -- One error fewer is to be sent.
  taken :
      (before after : List String) (e : String)
      → s.sending ≡ before ++ e ∷ after
      → length s.sending ≡ suc (length (before ++ after))
  taken before after e h =
      ap length h ∙ omega (arith, length-append before (e ∷ after), length-append before after)

  sent-IsRun :
      (before after : List String) (e : String)
      → s.sending ≡ before ++ e ∷ after
      → IsRun n
          (suc steps)
          (sent ++ e ∷ [])
          (record s { sending = before ++ after; channel = s.channel ++ e ∷ [] })
  sent-IsRun before after e h =
      let fewer = taken before after e h in
      record {
        received = r.received;
        in_order = ap (λ es. es ++ e ∷ []) r.in_order ∙ append_assoc r.received s.channel (e ∷ []);
        first = r.first;
        stopped = r.stopped;
        room = ground (arith, length-append sent (e ∷ []), fewer, r.room);
        count = ground (arith, length-append s.channel (e ∷ []), fewer, r.count);
        all_sent =
            λ c. let ended = ap length (r.all_sent c).1 in absurd (omega (arith, fewer, ended));
      }

  closed-IsRun :
      s.running ≡ 0
      → s.sending ≡ []
      → s.is_closed ≡ false
      → IsRun n (suc steps) (sent ++ []) (record s { is_closed = true })
  closed-IsRun none_left nothing c = record {
    received = r.received;
    in_order = append-nil sent ∙ r.in_order;
    first = r.first;
    stopped = r.stopped;
    room = ground (arith, append-nil sent, r.room);
    count = ground (arith, c, r.count);
    all_sent = λ _. (none_left, nothing);
  }

  -- The first error received is kept, and cancels the context.
  received-IsRun :
      (e : String) (rest : List String)
      → s.channel ≡ e ∷ rest
      → IsRun n (suc steps) (sent ++ []) (receive e rest s)
  received-IsRun e rest h = elim (Option-cases s.first_err) [
    | inl new ↦
        subst (IsRun n (suc steps) (sent ++ [])) (sym (first_received s e rest new)) (record {
          received = r.received ++ e ∷ [];
          in_order = order;
          first = sym (head_of-append r.received e none (sym r.first ∙ new));
          stopped = λ _ _. refl;
          room = ground (arith, append-nil sent, r.room);
          count = ground (arith, ap length h, r.count);
          all_sent = r.all_sent;
        })
    | inr (f, old) ↦
        subst (IsRun n (suc steps) (sent ++ [])) (sym (later_received s e rest f old)) (record {
          received = r.received ++ e ∷ [];
          in_order = order;
          first = sym (head_of-append r.received e (some f) (sym r.first ∙ old));
          stopped = λ _ _. r.stopped f old;
          room = ground (arith, append-nil sent, r.room);
          count = ground (arith, ap length h, r.count);
          all_sent = r.all_sent;
        })
  ]
    where
      order : sent ++ [] ≡ (r.received ++ e ∷ []) ++ rest
      order =
          append-nil sent
          ∙ r.in_order
          ∙ ap (λ es. r.received ++ es) h
          ∙ sym (append_assoc r.received (e ∷ []) rest)

step-IsRun :
    (n steps : ℕ) (sent more : List String) (s s' : Servers)
    → ServerStep n more s s'
    → IsRun n steps sent s
    → IsRun n (suc steps) (sent ++ more) s'
step-IsRun n steps sent more s s' (interrupt h) r = interrupted-IsRun n steps sent s r h
step-IsRun n steps sent more s s' (stops m h) r = stopped-IsRun n steps sent s r m h
step-IsRun n steps sent more s s' (fails m e h) r = failed-IsRun n steps sent s r m e h
step-IsRun n steps sent more s s' (sends before after e h room) r =
    sent-IsRun n steps sent s r before after e h
step-IsRun n steps sent more s s' (closes h k c) r = closed-IsRun n steps sent s r h k c
step-IsRun n steps sent more s s' (receives e rest h) r = received-IsRun n steps sent s r e rest h

pub Runs-IsRun :
    {n steps : ℕ} {sent : List String} {s : Servers} → Runs n steps sent s → IsRun n steps sent s
Runs-IsRun {n} begins = begins-IsRun n
Runs-IsRun {n} (goes_on {steps} {sent} {more} {s} {s'} r step) =
    step-IsRun n steps sent more s s' step (Runs-IsRun r)
