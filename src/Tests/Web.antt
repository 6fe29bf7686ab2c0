-- ===== src/Tests/Web.antt =====
-- A URL as its segments and its values, a router that takes the first route that fits, and the
-- policy API's requests over them.
use Prim.Native.Char.{Char, code}
use Prim.Native.String as String
use Prim.Native.String.append as Append
use text.Mathlib.TextLemmas.{append-nil, append_assoc}
use dcm_policy_manager.Prelude.{
  ℕ, ◌-◌, String, Bool, true, false, ◌&&◌, not, Option, none, some, List, [], ◌∷◌, ◌++◌, ◌≡◌, refl,
  sym, ap, ◌∙◌, arith, Result, ok, err, nat_eq, if◌then◌else◌, inl, concat, eq_refl, ok-injective,
  Assoc, lookup,
}
use dcm_policy_manager.Prelude.Int.{ℤ, pos, negsuc}
use dcm_policy_manager.Text.{codes, split_at}
use dcm_policy_manager.Http.{HttpResponse}
use dcm_policy_manager.Http.Web.{Web, IsWeb, Values, values_at, all_plain}
use dcm_policy_manager.Http.Routes.{Router, IsRouter, Found, found, unrouted, candidates}
use dcm_policy_manager.Tests.Paging.{unary, count, count-unary}

pub record Place : Type 0 where
  pub segments : List String
  pub values : Values

abbrev is_slash : ℕ → Bool
is_slash c = nat_eq c b'/'

abbrev slashless : String → Bool
slashless String.[] = true
slashless (String.◌∷◌ c s) = not (is_slash (code c)) && slashless s

-- the segments after the first one, which is a dot
abbrev tail : List String → List String
tail [] = []
tail (s ∷ ss) = ss

abbrev show_int : ℤ → String
show_int (pos n) = String.◌∷◌ "+" (unary n)
show_int (negsuc n) = String.◌∷◌ "-" (unary n)

abbrev read_int : String → ℤ
read_int String.[] = pos 0
read_int (String.◌∷◌ c s) = if nat_eq (code c) b'+' then pos (count s - 1) else negsuc (count s - 1)

length-back : (n : ℕ) → count (unary n) - 1 ≡ n
length-back n = omega (arith, count-unary n)

read_int-show_int : (n : ℤ) → read_int (show_int n) ≡ n
read_int-show_int (pos n) = ap pos (length-back n)
read_int-show_int (negsuc n) = ap negsuc (length-back n)

abbrev first : List String → Option String
first [] = none
first (v ∷ vs) = some v

abbrev first_int : List String → Option ℤ
first_int [] = none
first_int (v ∷ vs) = some (read_int v)

abbrev pub base : List String
base = "api" ∷ "v1alpha1" ∷ []

abbrev pub root : Place
root = record { segments = base; values = [] }

abbrev pub web : Web Place Values
web = record {
  parse = λ s. ok root;
  resolve = λ u s. ok (record { segments = u.segments ++ tail (split_at is_slash s); values = [] });
  query = λ u. u.values;
  parse_query = λ values. ok values;
  with_query = λ u values. record u { values = values };
  reparse = λ u. ok u;
  route_path = λ u. u.segments;
  style_path = λ name value. if slashless value then ok value else err "has a slash";
  style_query = λ name value. ok ((name, value ∷ []) ∷ []);
  style_query_int = λ name value. ok ((name, show_int value ∷ []) ∷ []);
  bind_path = λ name text. ok text;
  bind_query = λ name values. ok (first (values_at name values));
  bind_query_int = λ name values. ok (first_int (values_at name values));
}

slashless-parts :
    (c : Char) (s : String)
    → slashless (String.◌∷◌ c s) ≡ true
    → (is_slash (code c) ≡ false) × (slashless s ≡ true)
slashless-parts c s h = ground arith

split_at-slashless : (s : String) → slashless s ≡ true → split_at is_slash s ≡ s ∷ []
unfolding split_at
split_at-slashless String.[] h = refl
split_at-slashless (String.◌∷◌ c s) h =
    let (other, rest) = slashless-parts c s h in rw (other, split_at-slashless s rest) refl

split_at-slash :
    (s t : String)
    → slashless s ≡ true
    → split_at is_slash (String.◌++◌ s (String.◌++◌ "/" t)) ≡ s ∷ split_at is_slash t
unfolding split_at
split_at-slash String.[] t h =
    rw (Append.nil (String.◌++◌ "/" t), Append.cons "/" "" t, Append.nil t) refl
split_at-slash (String.◌∷◌ c s) t h =
    let (other, rest) = slashless-parts c s h in
    rw (Append.cons c s (String.◌++◌ "/" t), other, split_at-slash s t rest) refl

plain-slashless : (s : String) → all_plain (codes s) ≡ true → slashless s ≡ true
plain-slashless String.[] h = refl
plain-slashless (String.◌∷◌ c s) h = ground (arith, plain-slashless s)

resolved_word :
    (word : String)
    → slashless word ≡ true
    → split_at is_slash (concat ("./" ∷ word ∷ [])) ≡ "." ∷ word ∷ []
unfolding concat
resolved_word word h =
    ap (split_at is_slash) (append_assoc "." "/" (String.◌++◌ word ""))
    ∙ split_at-slash "." (String.◌++◌ word "") refl
    ∙ ap (λ s. "." ∷ split_at is_slash s) (append-nil word)
    ∙ ap (λ ss. "." ∷ ss) (split_at-slashless word h)

resolved_styled :
    (word text : String)
    → slashless word ≡ true
    → slashless text ≡ true
    → split_at is_slash (concat ("./" ∷ word ∷ "/" ∷ text ∷ [])) ≡ "." ∷ word ∷ text ∷ []
unfolding concat
resolved_styled word text h k =
    let end = String.◌++◌ text "" in
    ap (split_at is_slash) (append_assoc "." "/" (String.◌++◌ word (String.◌++◌ "/" end)))
    ∙ split_at-slash "." (String.◌++◌ word (String.◌++◌ "/" end)) refl
    ∙ ap (λ ss. "." ∷ ss) (split_at-slash word end h)
    ∙ ap (λ s. "." ∷ word ∷ split_at is_slash s) (append-nil text)
    ∙ ap (λ ss. "." ∷ word ∷ ss) (split_at-slashless text k)

-- A value is styled as it stands, and only if it has no slash.
styled_as :
    (value text : String)
    → ◌≡◌ {A = Result String String}
        (if slashless value then ok value else err "has a slash")
        (ok text)
    → (slashless value ≡ true) × (value ≡ text)
styled_as value text h = ground arith

given_at : (name value : String) → values_at name ((name, value ∷ []) ∷ []) ≡ value ∷ []
unfolding values_at lookup
given_at name value = simp eq_refl

pub web-IsWeb : IsWeb web root base
unfolding values_at lookup
web-IsWeb = record {
  resolve_word = λ word plain. (
    record { segments = base ++ word ∷ []; values = [] },
    rw (resolved_word word (plain-slashless word plain)) refl,
    (refl, λ key. refl),
  );
  resolve_styled = λ word name value text plain styled filled dot dots whole.
      let (free, same) = styled_as value text styled in
      (
        record { segments = base ++ word ∷ text ∷ []; values = [] },
        text,
        rw (resolved_styled word text (plain-slashless word plain) (rw (← same) free)) refl,
        (refl, λ key. refl),
        rw (← same) filled,
        ap ok (sym same),
      );
  reparse_same = λ u v h.
      let same = sym (ok-injective h) in
      (ap (λ u. u.segments) same, λ key. ap (λ u. values_at key u.values) same);
  with_query_path = λ u values. refl;
  with_query_query = λ u values key. refl;
  styled = λ name value fragment values styled parsed.
      sym (ok-injective parsed) ∙ sym (ok-injective styled);
  bind_text = λ name value values h. rw h refl;
  styled_int = λ name value fragment values styled parsed. (
    show_int value,
    sym (ok-injective parsed) ∙ sym (ok-injective styled),
    λ values h. rw (h, read_int-show_int value) refl,
  );
  bind_missing = λ name values h. (rw h refl, rw h refl);
}

abbrev pub not_found : HttpResponse
not_found = record { status = 404; header = []; body = "404 page not found\n" }

abbrev target : {E : Type 0} → List (E × Assoc String) → Found E
target [] = unrouted not_found
target ((endpoint, values) ∷ more) = found endpoint values

abbrev pub router : {E : Type 0} → Router E
router routes method path = target (candidates routes method path)

pub router-IsRouter : {E : Type 0} → IsRouter {E = E} router
router-IsRouter = record {
  only = λ routes method path endpoint values h. rw h refl;
  none_fits = λ routes method path h. (not_found, rw h refl, inl refl);
}
