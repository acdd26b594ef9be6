-- ===== src/Base/Text.antt =====
-- Texts that the program walks, as lists of code points.
use Prim.Native.Char.{code}
use fortsym.Base.{
  ℕ, ◌+◌, String, Bool, true, false, ◌&&◌, ◌||◌, ◌≡◌, List, [], ◌∷◌, ◌++◌, map, Option, none, some,
  ◌==◌, nat_eq, nat_beq_iff, leb, nat_beq, arith, if◌then◌else◌,
}
use mathlib.Core.List.{reverse}

abbrev pub Text : Type 0
Text = List ℕ

-- `String` has its own `[]` and `∷`.
abbrev pub codes : String → Text
codes String.[] = []
codes (String.◌∷◌ c s) = code c ∷ codes s

-- `str.lower` on the ASCII letters.
abbrev pub lower_code : ℕ → ℕ
lower_code c = if leb b'A' c && leb c b'Z' then c + 32 else c

abbrev pub lower : Text → Text
lower s = map lower_code s

-- The ASCII white space of `str.strip`: tab to carriage return, the four separators, and space.
abbrev pub is_space : ℕ → Bool
is_space c = (leb 9 c && leb c 13) || ((leb 28 c && leb c 31) || nat_beq c 32)

unfoldable pub strip_left : Text → Text
strip_left [] = []
strip_left (c ∷ s) = if is_space c then strip_left s else c ∷ s

-- `str.strip`
unfoldable pub strip : Text → Text
unfolding strip_left
strip s = reverse (strip_left (reverse (strip_left s)))

-- `str.startswith`
unfoldable pub starts_with : Text → Text → Bool
starts_with s [] = true
starts_with [] (p ∷ prefix) = false
starts_with (c ∷ s) (p ∷ prefix) = c == p && starts_with s prefix

-- `str.endswith`
unfoldable pub ends_with : Text → Text → Bool
unfolding starts_with
ends_with s suffix = starts_with (reverse s) (reverse suffix)

-- `part in s`
unfoldable pub has_part : Text → Text → Bool
unfolding starts_with
has_part [] part = starts_with [] part
has_part (c ∷ s) part = starts_with (c ∷ s) part || has_part s part

-- `text[len(p):]` where `text.startswith(p)`, else nothing.
unfoldable pub after_prefix : Text → Text → Option Text
after_prefix [] s = some s
after_prefix (p ∷ ps) [] = none
after_prefix (p ∷ ps) (c ∷ s) = let rest = after_prefix ps s in if c == p then rest else none

pub after_prefix-append : (p s rest : Text) → after_prefix p s ≡ some rest → p ++ rest ≡ s
unfolding after_prefix
after_prefix-append [] s rest h = cc
after_prefix-append (p ∷ ps) [] rest h = absurd (cc)
after_prefix-append (p ∷ ps) (c ∷ s) rest h =
    ground (arith, nat_beq_iff c p, after_prefix-append ps s rest)

-- `separator.join(pieces)`
abbrev pub join : Text → List Text → Text
join separator [] = []
join separator (s ∷ []) = s
join separator (s ∷ t ∷ pieces) = s ++ (separator ++ join separator (t ∷ pieces))
