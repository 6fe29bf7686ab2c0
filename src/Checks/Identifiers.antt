-- ===== src/Checks/Identifiers.antt =====
-- The format of policy IDs: the pattern `idPattern`, against its description in words.
use dcm_policy_manager.Prelude.{
  String, ℕ, zero, suc, ◌≤◌, Bool, true, false, ◌||◌, List, [], ◌∷◌, ◌≡◌, ◌≢◌, ◌↔◌, some, ok,
  ne→eq_false, arith, length, all, nat_eq,
}
use dcm_policy_manager.Text.{codes}
use dcm_policy_manager.Checks.{
  is_lower, is_alphanumeric, match_tail, match_id_pattern, get_policy_id,
}

-- a lowercase letter, a digit or a hyphen
abbrev pub is_id_char : ℕ → Bool
is_id_char c = is_alphanumeric c || nat_eq c b'-'

abbrev pub first_is : (ℕ → Bool) → List ℕ → Bool
first_is p [] = false
first_is p (c ∷ s) = p c

abbrev pub last_is : (ℕ → Bool) → List ℕ → Bool
last_is p [] = false
last_is p (c ∷ []) = p c
last_is p (c ∷ d ∷ s) = last_is p (d ∷ s)

-- "1-63 characters, start with lowercase letter, contain only lowercase letters, numbers, and
-- hyphens, end with letter or number"
pub record IsPolicyId (s : List ℕ) : Type 0 where
  pub not_empty : 1 ≤ length s
  pub short : length s ≤ 63
  pub starts : first_is is_lower s ≡ true
  pub contains_only : all is_id_char s ≡ true
  pub ends : last_is is_alphanumeric s ≡ true

lower-alphanumeric : (c : ℕ) → is_lower c ≡ true → is_alphanumeric c ≡ true
unfolding is_alphanumeric
lower-alphanumeric c h = ground (arith, h)

match_tail_sound :
    (n : ℕ) (s : List ℕ)
    → match_tail n s ≡ true
    → (length s ≤ suc n) × (all is_id_char s ≡ true) × (last_is is_alphanumeric s ≡ true)
unfolding match_tail
match_tail_sound n [] h = cc
match_tail_sound n (c ∷ []) h = (omega arith, ground (arith, h), h)
match_tail_sound zero (c ∷ d ∷ s) h = cc
match_tail_sound (suc n) (c ∷ d ∷ s) h =
    let (short, only, ends) = match_tail_sound n (d ∷ s) (ground (arith, h)) in
    (omega (arith, short), ground (arith, h, only), ends)

match_tail_complete :
    (n : ℕ) (s : List ℕ)
    → 1 ≤ length s
    → length s ≤ suc n
    → all is_id_char s ≡ true
    → last_is is_alphanumeric s ≡ true
    → match_tail n s ≡ true
unfolding match_tail
match_tail_complete n [] l h only ends = cc
match_tail_complete n (c ∷ []) l h only ends = ends
match_tail_complete zero (c ∷ d ∷ s) l h only ends = absurd (omega arith)
match_tail_complete (suc n) (c ∷ d ∷ s) l h only ends = ground (
  arith,
  only,
  match_tail_complete n (d ∷ s) (omega arith) (omega arith) (ground (arith, only)) ends,
)

match_id_pattern_sound : (s : List ℕ) → match_id_pattern s ≡ true → IsPolicyId s
unfolding match_id_pattern
match_id_pattern_sound [] h = cc
match_id_pattern_sound (c ∷ []) h = record {
  not_empty = omega arith;
  short = omega arith;
  starts = h;
  contains_only = ground (arith, lower-alphanumeric c h);
  ends = lower-alphanumeric c h;
}
match_id_pattern_sound (c ∷ d ∷ s) h =
    let (short, only, ends) = match_tail_sound 61 (d ∷ s) (ground (arith, h)) in
    let lower : is_lower c ≡ true = ground (arith, h) in
    record {
      not_empty = omega arith;
      short = omega (arith, short);
      starts = lower;
      contains_only = ground (arith, only, lower-alphanumeric c lower);
      ends = ends;
    }

match_id_pattern_complete : (s : List ℕ) → IsPolicyId s → match_id_pattern s ≡ true
unfolding match_id_pattern
match_id_pattern_complete [] v = v.starts
match_id_pattern_complete (c ∷ []) v = v.starts
match_id_pattern_complete (c ∷ d ∷ s) v = ground (
  arith,
  v.starts,
  match_tail_complete 61 (d ∷ s) (omega arith) (omega (arith, v.short))
      (ground (arith, v.contains_only)) v.ends,
)

-- A client's ID that is not empty is taken as it is exactly if it has 1 to 63 characters, starts
-- with a lowercase letter, contains only lowercase letters, digits and hyphens, and ends with a
-- letter or a digit.
pub get_policy_id_iff :
    (client_id generated : String)
    → client_id ≢ ""
    → (get_policy_id (some client_id) generated ≡ ok client_id) ↔ IsPolicyId (codes client_id)
unfolding get_policy_id
get_policy_id_iff client_id generated given = (
  λ h. match_id_pattern_sound (codes client_id) (ground (arith, ne→eq_false client_id "" given, h)),
  λ v.
      ground (arith, ne→eq_false client_id "" given, match_id_pattern_complete (codes client_id) v),
)
