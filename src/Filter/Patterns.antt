-- ===== src/Filter/Patterns.antt =====
-- What the patterns of internal/service/filter.go match: a condition written as a grammar.
use dcm_policy_manager.Prelude.{
  ℕ, String, true, false, Option, none, some, List, [], ◌∷◌, ◌++◌, ◌≡◌, ◌≢◌, ◌⊎◌, inl, inr, refl,
  sym, ap, ◌∙◌, arith, All, nat_eq, if◌then◌else◌, Bool-cases, Option-cases,
}
use dcm_policy_manager.Text.{codes}
use dcm_policy_manager.Filter.{
  is_blank, skip_blanks, after_literal, after_equals, after_name, starts_with, choice,
}

abbrev pub Blanks : List ℕ → Type 0
Blanks b = All (λ c. is_blank c ≡ true) b

-- `name`, blanks, =, blanks, `text`, and anything
pub record Condition (name text : String) (s : List ℕ) : Type 0 where
  pub before : List ℕ
  pub after : List ℕ
  pub rest : List ℕ
  pub blank_before : Blanks before
  pub blank_after : Blanks after
  pub parts : s ≡ codes name ++ (before ++ (codes "=" ++ (after ++ (codes text ++ rest))))

first_same :
    {c d : ℕ} {o : Option (List ℕ)} {rest : List ℕ}
    → nat_eq c d ≡ true
    → (if nat_eq c d then o else none) ≡ some rest
    → (c ≡ d) × (o ≡ some rest)
first_same same h = (ground arith, ground arith)

first_other :
    (c d : ℕ) (o : Option (List ℕ)) {rest : List ℕ}
    → nat_eq c d ≡ false
    → (if nat_eq c d then o else none) ≢ some rest
first_other c d o other h = ground arith

pub some-injective {ℓ} : {A : Type ℓ} {a b : A} → some a ≡ some b → a ≡ b
some-injective h = cc

after_literal-some :
    (cs s : List ℕ) {rest : List ℕ} → after_literal cs s ≡ some rest → s ≡ cs ++ rest
unfolding after_literal
after_literal-some [] s h = cc
after_literal-some (c ∷ cs) [] h = cc
after_literal-some (c ∷ cs) (d ∷ s) h = elim (Bool-cases (nat_eq c d)) [
  | inl same ↦ let (head, tail) = first_same same h in cc (head, after_literal-some cs s tail)
  | inr other ↦ absurd (first_other c d (after_literal cs s) other h)
]

after_literal-append : (cs rest : List ℕ) → after_literal cs (cs ++ rest) ≡ some rest
unfolding after_literal
after_literal-append [] rest = refl
after_literal-append (c ∷ cs) rest = ground (arith, after_literal-append cs rest)

skip_blanks-parts : (s : List ℕ) → (b : List ℕ) × Blanks b × (s ≡ b ++ skip_blanks s)
unfolding skip_blanks
skip_blanks-parts [] = ([], tt, refl)
skip_blanks-parts (c ∷ s) = elim (Bool-cases (is_blank c)) [
  | inl blank ↦
      let (b, blanks, e) = skip_blanks-parts s in
      (c ∷ b, (blank, blanks), rw blank (ap (λ s. c ∷ s) e))
  | inr other ↦ ([], tt, rw other refl)
]

-- Blanks before a text that starts with none are all skipped.
skip_blanks-append : (b t : List ℕ) → Blanks b → skip_blanks t ≡ t → skip_blanks (b ++ t) ≡ t
unfolding skip_blanks
skip_blanks-append [] t blanks h = h
skip_blanks-append (c ∷ b) t (blank, blanks) h = rw blank (skip_blanks-append b t blanks h)

-- After the blanks of a name, the sign and its blanks.
after_equals-some :
    (o : Option (List ℕ)) {t : List ℕ}
    → after_equals o ≡ some t
    → (s : List ℕ) × (o ≡ some s) × (after : List ℕ) × Blanks after × (s ≡ after ++ t)
unfolding after_equals
after_equals-some none h = cc
after_equals-some (some s) h =
    let (after, blanks, e) = skip_blanks-parts s in
    (s, refl, after, blanks, e ∙ ap (λ t. after ++ t) (some-injective h))

after_name_of :
    (o : Option (List ℕ)) {t : List ℕ}
    → after_name o ≡ some t
    → (u before after : List ℕ) × (o ≡ some u)
      × Blanks before
      × Blanks after
      × (u ≡ before ++ (codes "=" ++ (after ++ t)))
unfolding after_name
after_name_of none h = cc
after_name_of (some u) h =
    let (v, sign, after, blanks_after, e) = after_equals-some _ h in
    let (before, blanks_before, e') = skip_blanks-parts u in
    let signed = after_literal-some (codes "=") (skip_blanks u) sign in
    (
      u,
      before,
      after,
      refl,
      blanks_before,
      blanks_after,
      e' ∙ ap (λ w. before ++ w) (signed ∙ ap (λ w. codes "=" ++ w) e),
    )

-- What stands before the text of a condition whose front the pattern matches.
after_name-some :
    (name : String) (s : List ℕ) {t : List ℕ}
    → after_name (after_literal (codes name) s) ≡ some t
    → (before after : List ℕ) × Blanks before
      × Blanks after
      × (s ≡ codes name ++ (before ++ (codes "=" ++ (after ++ t))))
after_name-some name s h =
    let (u, before, after, named, blanks_before, blanks_after, e) =
      after_name_of (after_literal (codes name) s) h in
    (
      before,
      after,
      blanks_before,
      blanks_after,
      after_literal-some (codes name) s named ∙ ap (λ w. codes name ++ w) e,
    )

after_equals-sign :
    (after t : List ℕ)
    → Blanks after
    → skip_blanks t ≡ t
    → after_equals (after_literal (codes "=") (codes "=" ++ (after ++ t))) ≡ some t
unfolding after_equals after_literal
after_equals-sign after t blanks h = ap some (skip_blanks-append after t blanks h)

sign_stays : (t : List ℕ) → skip_blanks (codes "=" ++ t) ≡ codes "=" ++ t
unfolding skip_blanks
sign_stays t = refl

after_name-named :
    (before after t : List ℕ)
    → Blanks before
    → Blanks after
    → skip_blanks t ≡ t
    → after_name (some (before ++ (codes "=" ++ (after ++ t)))) ≡ some t
unfolding after_name
after_name-named before after t blanks_before blanks_after h =
    rw
      (skip_blanks-append before (codes "=" ++ (after ++ t)) blanks_before
        (sign_stays (after ++ t)))
      (after_equals-sign after t blanks_after h)

after_name-Condition :
    (name : String) (before after t : List ℕ)
    → Blanks before
    → Blanks after
    → skip_blanks t ≡ t
    → after_name
        (after_literal (codes name) (codes name ++ (before ++ (codes "=" ++ (after ++ t)))))
      ≡ some t
after_name-Condition name before after t blanks_before blanks_after h =
    rw (after_literal-append (codes name) (before ++ (codes "=" ++ (after ++ t))))
      (after_name-named before after t blanks_before blanks_after h)

starts_with-some :
    (text : String) (s : List ℕ)
    → starts_with text s ≡ true
    → (rest : List ℕ) × (s ≡ codes text ++ rest)
unfolding starts_with
starts_with-some text s h = elim (Option-cases (after_literal (codes text) s)) [
  | inl missed ↦ absurd (ground (arith, missed))
  | inr (rest, e) ↦ (rest, after_literal-some (codes text) s e)
]

starts_with-append : (text : String) (rest : List ℕ) → starts_with text (codes text ++ rest) ≡ true
unfolding starts_with
starts_with-append text rest = rw (starts_with, after_literal-append (codes text) rest) refl

-- The front of a text is a condition with the first text, for `a`, or with the second, for `b`.
abbrev pub ConditionFor {ℓ} : {A : Type ℓ} → String → String → A → String → A → List ℕ → A → Type ℓ
ConditionFor name first a second b s v =
    ((v ≡ a) × Condition name first s) ⊎ ((v ≡ b) × Condition name second s)

-- What the two texts have to be so that the choice is clear.
pub record AreClear (first second : String) : Type 0 where
  pub first_stays : (t : List ℕ) → skip_blanks (codes first ++ t) ≡ codes first ++ t
  pub second_stays : (t : List ℕ) → skip_blanks (codes second ++ t) ≡ codes second ++ t
  pub second_is_not_first : (t : List ℕ) → starts_with first (codes second ++ t) ≡ false

module _ {ℓ} {A : Type ℓ} (name first : String) (a : A) (second : String) (b : A) where
  choice-some :
      (o : Option (List ℕ)) {v : A}
      → choice first a second b o ≡ some v
      → (t rest : List ℕ) × (o ≡ some t)
        × (((v ≡ a) × (t ≡ codes first ++ rest)) ⊎ ((v ≡ b) × (t ≡ codes second ++ rest)))
  unfolding choice
  choice-some none h = cc
  choice-some (some t) h = elim (Bool-cases (starts_with first t)) [
    | inl stands ↦
        let (rest, front) = starts_with-some first t stands in
        (t, rest, refl, inl (sym (some-injective (rw stands at h)), front))
    | inr missing ↦ elim (Bool-cases (starts_with second t)) [
      | inl stands ↦
          let (rest, front) = starts_with-some second t stands in
          (t, rest, refl, inr (sym (some-injective (rw (missing, stands) at h)), front))
      | inr neither ↦ absurd (ground (arith, missing, neither))
    ]
  ]

  pub choice-ConditionFor :
      (s : List ℕ) {v : A}
      → choice first a second b (after_name (after_literal (codes name) s)) ≡ some v
      → ConditionFor name first a second b s v
  choice-ConditionFor s h =
      let (t, rest, e, which) = choice-some (after_name (after_literal (codes name) s)) h in
      let (before, after, blanks_before, blanks_after, parts) = after_name-some name s e in
      elim which [
        | inl (same, front) ↦ inl (
          same,
          record {
            before = before;
            after = after;
            rest = rest;
            blank_before = blanks_before;
            blank_after = blanks_after;
            parts = parts ∙ ap (λ t. codes name ++ (before ++ (codes "=" ++ (after ++ t)))) front;
          },
        )
        | inr (same, front) ↦ inr (
          same,
          record {
            before = before;
            after = after;
            rest = rest;
            blank_before = blanks_before;
            blank_after = blanks_after;
            parts = parts ∙ ap (λ t. codes name ++ (before ++ (codes "=" ++ (after ++ t)))) front;
          },
        )
      ]

  pub ConditionFor-choice :
      AreClear first second
      → (s : List ℕ) {v : A} → ConditionFor name first a second b s v
      → choice first a second b (after_name (after_literal (codes name) s)) ≡ some v
  unfolding choice
  ConditionFor-choice clear s (inl (same, c)) =
      rw
        (
          c.parts,
          after_name-Condition name c.before c.after (codes first ++ c.rest) c.blank_before
              c.blank_after (clear.first_stays c.rest),
          starts_with-append first c.rest,
        )
        (ap some (sym same))
  ConditionFor-choice clear s (inr (same, c)) =
      rw
        (
          c.parts,
          after_name-Condition name c.before c.after (codes second ++ c.rest) c.blank_before
              c.blank_after (clear.second_stays c.rest),
          clear.second_is_not_first c.rest,
          starts_with-append second c.rest,
        )
        (ap some (sym same))
