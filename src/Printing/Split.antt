-- ===== src/Printing/Split.antt =====
-- `_split_top_level` and `_pretty_expanded`; a text is the list of its code points.
use fortsym.Base.{
  ℕ, zero, suc, Bool, true, false, ◌&&◌, List, [], ◌∷◌, ◌++◌, all, length, Option, none, some, ◌==◌,
  nat_eq, list_eq, leb, if◌then◌else◌,
}
use fortsym.Base.Int.{ℤ, pos, negsuc, ◌+ℤ◌, int_eq}
use fortsym.Base.Text.{Text, codes, after_prefix, join}

-- What one round of the `while` does: it ends the text, moves some characters to the piece, with
-- the rest and the depth behind them, or ends a piece.
pub data Round : Type 0 where
  stop : Round
  take : Text → Text → ℤ → Round
  cut : Text → Round

-- The branches behind the parentheses.
abbrev pub other_round : ℕ → Text → ℤ → Option Text → Option Text → Round
other_round c s depth (some behind_power) found = take (codes "**") behind_power depth
other_round c s depth none (some behind) = cut behind
other_round c s depth none none = take (c ∷ []) s depth

-- `separator == "*" and text.startswith("**", index)`
abbrev pub power_at : Text → Text → Option Text
power_at separator s = if separator == codes "*" then after_prefix (codes "**") s else none

-- `depth == 0 and text.startswith(separator, index)`
abbrev pub separator_at : Text → Text → ℤ → Option Text
separator_at separator s depth = if depth == pos 0 then after_prefix separator s else none

unfoldable pub round : Text → Text → ℤ → Round
unfolding after_prefix
round separator [] depth = stop
round separator (c ∷ s) depth =
    if c == b'('
    then take (c ∷ []) s (depth +ℤ pos 1)
    else if c == b')'
    then take (c ∷ []) s (depth +ℤ negsuc 0)
    else other_round c s depth (power_at separator (c ∷ s)) (separator_at separator (c ∷ s) depth)

abbrev pub with_piece : Text → Option (List Text) → Option (List Text)
with_piece piece none = none
with_piece piece (some pieces) = some (piece ∷ pieces)

-- The loop, with the text behind `index`, the piece from `start` to `index`, and the depth; `none` is
-- a loop that has not ended within the rounds.
unfoldable pub split_loop : Text → ℕ → Text → Text → ℤ → Option (List Text)
unfolding round
split_loop separator zero s piece depth = none
split_loop separator (suc rounds) s piece depth = elim (round separator s depth) [
  | stop ↦ some (piece ∷ [])
  | take moved rest d ↦ split_loop separator rounds rest (piece ++ moved) d
  | cut rest ↦ with_piece piece (split_loop separator rounds rest [] depth)
]

-- `_split_top_level`, with a round for each character and one for the end.
unfoldable pub split_top_level : Text → Text → Option (List Text)
unfolding split_loop
split_top_level text separator = split_loop separator (suc (length text)) text [] (pos 0)

abbrev pub is_digit : ℕ → Bool
is_digit c = leb b'0' c && leb c b'9'

-- `lstrip("-")`
abbrev pub drop_signs : Text → Text
drop_signs [] = []
drop_signs (c ∷ s) = let rest = drop_signs s in if c == b'-' then rest else c ∷ s

abbrev pub all_digits : Text → Bool
all_digits [] = false
all_digits (c ∷ s) = all is_digit (c ∷ s)

-- `factor.lstrip("-").isdigit()`, for the ASCII digits.
abbrev pub is_numeric : Text → Bool
is_numeric factor = all_digits (drop_signs factor)

-- `numeric[0]`, where there is one.
abbrev pub first_numeric : List Text → Option Text
first_numeric [] = none
first_numeric (f ∷ factors) =
    let rest = first_numeric factors in if is_numeric f then some f else rest

-- `list.remove`
abbrev pub remove : Text → List Text → List Text
remove f [] = []
remove f (g ∷ factors) = let rest = remove f factors in if g == f then factors else g ∷ rest

abbrev pub is_single : List Text → Bool
is_single (f ∷ []) = true
is_single factors = false

abbrev pub reorder_by : List Text → Option Text → List Text
reorder_by factors none = factors
reorder_by factors (some f) = if is_single factors then factors else f ∷ remove f factors

-- The factors of a term, with the first number in front.
unfoldable pub reorder : List Text → List Text
reorder factors = reorder_by factors (first_numeric factors)

abbrev pub joined_factors : Option (List Text) → Option Text
joined_factors none = none
joined_factors (some factors) = some (join (codes "*") (reorder factors))

-- The terms of the sum, each with its factors reordered.
unfoldable pub render : List Text → Option (List Text)
unfolding split_top_level reorder
render [] = some []
render (term ∷ terms) = elim (joined_factors (split_top_level term (codes "*"))) [
  | none ↦ none
  | some factors ↦ with_piece factors (render terms)
]

abbrev pub joined_terms : Option (List Text) → Option Text
joined_terms none = none
joined_terms (some terms) = some (join (codes " + ") terms)

abbrev pub rendered : Option (List Text) → Option Text
rendered none = none
rendered (some terms) = joined_terms (render terms)

-- `_pretty_expanded`
unfoldable pub pretty_expanded : Text → Option Text
unfolding split_top_level render
pretty_expanded text = rendered (split_top_level text (codes " + "))
