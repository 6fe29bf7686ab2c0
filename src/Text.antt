-- ===== src/Text.antt =====
-- What the program uses of the package strings, over texts of code points: TrimSpace, Split at one
-- character, Fields, ToUpper of ASCII letters, HasSuffix, Contains.
use Prim.Native.Char.{Char, code}
use Prim.Native.String.{[], ◌∷◌}
use mathlib.Core.List as List
use text.Mathlib.Text.{find?}
use dcm_policy_manager.Prelude.{
  ℕ, ◌-◌, String, Bool, true, false, ◌&&◌, ◌||◌, ◌==◌, leb, nat_eq, if◌then◌else◌, not, is_none,
}

-- unicode.IsSpace
unfoldable pub is_space : ℕ → Bool
is_space c =
    leb 9 c && leb c 13
    || nat_eq c 32
    || nat_eq c 0x85
    || nat_eq c 0xa0
    || nat_eq c 0x1680
    || leb 0x2000 c && leb c 0x200a
    || nat_eq c 0x2028
    || nat_eq c 0x2029
    || nat_eq c 0x202f
    || nat_eq c 0x205f
    || nat_eq c 0x3000

trim_right : String → String
trim_right [] = []
trim_right (c ∷ s) =
    let rest = trim_right s in if is_space (code c) && rest == "" then [] else c ∷ rest

trim_left : String → String
trim_left [] = []
trim_left (c ∷ s) = if is_space (code c) then trim_left s else c ∷ s

unfoldable pub trim_space : String → String
unfolding trim_left trim_right is_space
trim_space s = trim_left (trim_right s)

-- The code points of a text.
abbrev pub codes : String → List.List ℕ
codes [] = List.[]
codes (c ∷ s) = List.◌∷◌ (code c) (codes s)

-- The character joins the first part, or separates it from what came before.
abbrev extend : Bool → Char → List.List String → List.List String
extend true c parts = List.◌∷◌ [] parts
extend false c List.[] = List.◌∷◌ (c ∷ []) List.[]
extend false c (List.◌∷◌ part parts) = List.◌∷◌ (c ∷ part) parts

-- strings.Split at the characters of a kind
unfoldable pub split_at : (ℕ → Bool) → String → List.List String
split_at separates [] = List.◌∷◌ [] List.[]
split_at separates (c ∷ s) = extend (separates (code c)) c (split_at separates s)

abbrev drop_empty : List.List String → List.List String
drop_empty List.[] = List.[]
drop_empty (List.◌∷◌ part parts) =
    let rest = drop_empty parts in if part == "" then rest else List.◌∷◌ part rest

-- strings.Fields
unfoldable pub fields : String → List.List String
unfolding split_at is_space
fields s = drop_empty (split_at is_space s)

-- unicode.ToUpper on the ASCII letters, and on the one other character that it takes to one of the
-- letters of ASC and DESC, the long s
unfoldable pub upper_code : ℕ → ℕ
upper_code c = if leb b'a' c && leb c b'z' then c - 32 else if nat_eq c 0x17f then b'S' else c

-- strings.HasSuffix
unfoldable pub has_suffix : String → String → Bool
has_suffix [] suffix = suffix == ""
has_suffix (c ∷ s) suffix = c ∷ s == suffix || has_suffix s suffix

-- strings.Contains
abbrev pub contains : String → String → Bool
contains s part = not (is_none (find? s part))
