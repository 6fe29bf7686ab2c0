-- ===== src/Labels.antt =====
-- MatchesLabelSelector of internal/service/labelmatcher.go
use dcm_policy_manager.Prelude.{
  String, Bool, true, false, not, Option, none, some, [], ◌∷◌, ◌==◌, ◌≡◌, ◌↔◌, refl, arith, eq_iff,
  eq_refl, if◌then◌else◌, Option-cases, inl, inr, is_empty, Assoc, lookup, All,
}

-- `!exists || requestValue != value`
abbrev differs : Option String → String → Bool
differs none value = true
differs (some request_value) value = not (request_value == value)

-- the loop over the selector
match_entries : Assoc String → Assoc String → Bool
match_entries [] request_labels = true
match_entries ((key, value) ∷ rest) request_labels =
    if differs (lookup key request_labels) value then false else match_entries rest request_labels

unfoldable pub matches_label_selector : Assoc String → Assoc String → Bool
unfolding match_entries
matches_label_selector policy_selector request_labels =
    if is_empty policy_selector then true else match_entries policy_selector request_labels

-- The request has the label with the value.
abbrev pub HasLabel : Assoc String → String × String → Type 0
HasLabel request_labels (key, value) = lookup key request_labels ≡ some value

match_entries_sound :
    (sel labels : Assoc String) → match_entries sel labels ≡ true → All (HasLabel labels) sel
unfolding match_entries
match_entries_sound [] labels h = tt
match_entries_sound ((key, value) ∷ rest) labels h = elim (Option-cases (lookup key labels)) [
  | inl missing ↦ ground (arith, missing)
  | inr (found, e) ↦ ground (arith, eq_iff found value, match_entries_sound rest labels)
]

match_entries_complete :
    (sel labels : Assoc String) → All (HasLabel labels) sel → match_entries sel labels ≡ true
unfolding match_entries
match_entries_complete [] labels h = refl
match_entries_complete ((key, value) ∷ rest) labels (p, h) =
    rw (p, eq_refl value) (match_entries_complete rest labels h)

-- A selector matches exactly when every one of its labels is among the request's labels with the
-- same value; an empty selector matches every request.
pub matches_label_selector_iff :
    (sel labels : Assoc String)
    → (matches_label_selector sel labels ≡ true) ↔ All (HasLabel labels) sel
unfolding matches_label_selector
matches_label_selector_iff [] labels = (λ _. tt, λ _. refl)
matches_label_selector_iff ((k, v) ∷ rest) labels =
    (match_entries_sound ((k, v) ∷ rest) labels, match_entries_complete ((k, v) ∷ rest) labels)
