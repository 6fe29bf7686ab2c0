-- ===== src/Filter/Meaning.antt =====
-- What a filter expression that internal/service/filter.go accepts means: its conditions are the
-- first ones that stand in it.
use dcm_policy_manager.Prelude.{
  ℕ, ◌≤◌, String, Bool, true, false, Option, none, some, List, [], ◌∷◌, ◌≡◌, ◌≢◌, ◌⊎◌, ◌↔◌, inl,
  inr, refl, ap, ◌∙◌, subst, arith, ok, Option-cases, bind-ok, ok-injective, ne→eq_false,
}
use dcm_policy_manager.Text.{codes}
use dcm_policy_manager.Policy.{PolicyFilter}
use dcm_policy_manager.Filter.{
  starts_with, after_literal, skip_blanks, policy_type_at, enabled_at, find_match, occurrences,
  filter_of, check_and, parse_conditions, parse_filter,
}
use dcm_policy_manager.Filter.Patterns.{
  ConditionFor, AreClear, some-injective, choice-ConditionFor, ConditionFor-choice,
}

-- `policy_type = '…'` and `enabled = …` at the front of a text, with blanks around the sign
abbrev pub PolicyTypeAt : List ℕ → String → Type 0
PolicyTypeAt = ConditionFor "policy_type" "'GLOBAL'" "GLOBAL" "'USER'" "USER"

abbrev pub EnabledAt : List ℕ → Bool → Type 0
EnabledAt = ConditionFor "enabled" "true" true "false" false

policy_types-AreClear : AreClear "'GLOBAL'" "'USER'"
unfolding skip_blanks starts_with after_literal
policy_types-AreClear = record {
  first_stays = λ t. refl;
  second_stays = λ t. refl;
  second_is_not_first = λ t. refl;
}

flags-AreClear : AreClear "true" "false"
unfolding skip_blanks starts_with after_literal
flags-AreClear = record {
  first_stays = λ t. refl;
  second_stays = λ t. refl;
  second_is_not_first = λ t. refl;
}

policy_type_at_iff : (s : List ℕ) (v : String) → (policy_type_at s ≡ some v) ↔ PolicyTypeAt s v
unfolding policy_type_at
policy_type_at_iff s v = (
  choice-ConditionFor "policy_type" "'GLOBAL'" "GLOBAL" "'USER'" "USER" s,
  ConditionFor-choice "policy_type" "'GLOBAL'" "GLOBAL" "'USER'" "USER" policy_types-AreClear s,
)

enabled_at_iff : (s : List ℕ) (v : Bool) → (enabled_at s ≡ some v) ↔ EnabledAt s v
unfolding enabled_at
enabled_at_iff s v = (
  choice-ConditionFor "enabled" "true" true "false" false s,
  ConditionFor-choice "enabled" "true" true "false" false flags-AreClear s,
)

-- The leftmost place of a text at whose front `P` holds of a value.
pub data Leftmost {A : Type 0} (P : List ℕ → A → Type 0) : List ℕ → A → Type 0 where
  here : {s : List ℕ} {v : A} → P s v → Leftmost P s v
  later :
      {c : ℕ} {s : List ℕ} {v : A}
      → ((w : A) → ¬ P (c ∷ s) w)
      → Leftmost P s v
      → Leftmost P (c ∷ s) v

-- The first place that `P` fits gives the value, and there is none without a value.
abbrev pub FoundAs : {A : Type 0} → (List ℕ → A → Type 0) → Option A → List ℕ → Type 0
FoundAs {A} P none s = (v : A) → ¬ Leftmost P s v
FoundAs P (some v) s = Leftmost P s v

module _ {A : Type 0} (match : List ℕ → Option A) (P : List ℕ → A → Type 0)
    (iff : (s : List ℕ) (v : A) → (match s ≡ some v) ↔ P s v) where
  find_match-Leftmost : (s : List ℕ) {v : A} → find_match match s ≡ some v → Leftmost P s v
  unfolding find_match
  find_match-Leftmost [] h = here ((iff [] _).0 h)
  find_match-Leftmost (c ∷ s) h = elim (Option-cases (match (c ∷ s))) [
    | inl missed ↦
        later (λ w p. cc (missed, (iff (c ∷ s) w).1 p)) (find_match-Leftmost s (rw missed at h))
    | inr (a, found) ↦ here ((iff (c ∷ s) _).0 (found ∙ (rw found at h)))
  ]

  Leftmost-find_match : (s : List ℕ) {v : A} → Leftmost P s v → find_match match s ≡ some v
  unfolding find_match
  Leftmost-find_match [] (here p) = (iff [] _).1 p
  Leftmost-find_match (c ∷ s) (here p) = rw ((iff (c ∷ s) _).1 p) refl
  Leftmost-find_match (c ∷ s) (later missed l) = elim (Option-cases (match (c ∷ s))) [
    | inl fails ↦ rw fails (Leftmost-find_match s l)
    | inr (a, found) ↦ absurd (missed a ((iff (c ∷ s) a).0 found))
  ]

  find_match_iff : (s : List ℕ) (o : Option A) → (find_match match s ≡ o) ↔ FoundAs P o s
  find_match_iff s (some v) = (find_match-Leftmost s, Leftmost-find_match s)
  find_match_iff s none = (
    λ h v l. cc (h, Leftmost-find_match s l),
    λ nowhere. elim (Option-cases (find_match match s)) [
      | inl fails ↦ fails
      | inr (v, found) ↦ absurd (nowhere v (find_match-Leftmost s found))
    ],
  )

-- What a filter of a text has to be.
pub record IsFilterOf (text : String) (f : PolicyFilter) : Type 0 where
  pub policy_type : FoundAs PolicyTypeAt f.policy_type (codes text)
  pub enabled : FoundAs EnabledAt f.enabled (codes text)
  pub some_condition : (f.policy_type ≢ none) ⊎ (f.enabled ≢ none)
  pub one_and : occurrences 0 (codes text) ≤ 1

filter_of-ok :
    (text : String) (policy_type : Option String) (enabled : Option Bool) {f : PolicyFilter}
    → filter_of text policy_type enabled ≡ ok f
    → (policy_type ≡ f.policy_type)
      × (enabled ≡ f.enabled)
      × ((f.policy_type ≢ none) ⊎ (f.enabled ≢ none))
unfolding filter_of
filter_of-ok text none none h = cc
filter_of-ok text none (some e) h =
    let same = ok-injective h in
    (ap (λ f. f.policy_type) same, ap (λ f. f.enabled) same, inr (λ gone. cc (same, gone)))
filter_of-ok text (some t) o h =
    let same = ok-injective h in
    (ap (λ f. f.policy_type) same, ap (λ f. f.enabled) same, inl (λ gone. cc (same, gone)))

check_and-ok :
    (s : List ℕ) (f : PolicyFilter) {g : PolicyFilter}
    → check_and s f ≡ ok g
    → (f ≡ g) × (occurrences 0 s ≤ 1)
unfolding check_and
check_and-ok s f h = (ground arith, ground arith)

parse_conditions-IsFilterOf :
    (text : String) {f : PolicyFilter} → parse_conditions text ≡ ok f → IsFilterOf text f
unfolding parse_conditions
parse_conditions-IsFilterOf text {f} h =
    let (parsed, made, checked) = bind-ok (filter_of text _ _) _ h in
    let (same, one) = check_and-ok (codes text) parsed checked in
    let (type_is, enabled_is, some_condition) = filter_of-ok text _ _ (made ∙ ap ok same) in
    record {
      policy_type =
          (find_match_iff policy_type_at PolicyTypeAt policy_type_at_iff (codes text)
              f.policy_type).0
            type_is;
      enabled =
          (find_match_iff enabled_at EnabledAt enabled_at_iff (codes text) f.enabled).0 enabled_is;
      some_condition = some_condition;
      one_and = one;
    }

filter_of-some :
    (text : String) (policy_type : Option String) (enabled : Option Bool)
    → (policy_type ≢ none) ⊎ (enabled ≢ none)
    → filter_of text policy_type enabled
      ≡ ok (record { policy_type = policy_type; enabled = enabled })
unfolding filter_of
filter_of-some text none none (inl given) = absurd (given refl)
filter_of-some text none none (inr given) = absurd (given refl)
filter_of-some text none (some e) given = refl
filter_of-some text (some t) o given = refl

IsFilterOf-parse_conditions :
    (text : String) (f : PolicyFilter) → IsFilterOf text f → parse_conditions text ≡ ok f
unfolding parse_conditions check_and
IsFilterOf-parse_conditions text f is =
    rw
      (
        (find_match_iff policy_type_at PolicyTypeAt policy_type_at_iff (codes text) f.policy_type).1
            is.policy_type,
        (find_match_iff enabled_at EnabledAt enabled_at_iff (codes text) f.enabled).1 is.enabled,
        filter_of-some text f.policy_type f.enabled is.some_condition,
      )
      (ground (arith, is.one_and))

-- A filter expression that is not empty is accepted, as the filter `f`, exactly if at most one
-- " AND " occurs in it, `f` has a condition, and each field of `f` has the value of the first
-- place where a condition on that field stands, or no value if there is none.
pub parse_filter_iff :
    (text : String) (f : PolicyFilter)
    → text ≢ ""
    → (parse_filter text ≡ ok (some f)) ↔ IsFilterOf text f
unfolding parse_filter
parse_filter_iff text f filled = (
  λ h.
      let (parsed, conditions, same) =
        bind-ok (parse_conditions text) _ (rw (ne→eq_false text "" filled) at h) in
      subst (IsFilterOf text) (some-injective (ok-injective same))
        (parse_conditions-IsFilterOf text conditions),
  λ is. rw (ne→eq_false text "" filled, IsFilterOf-parse_conditions text f is) refl,
)
