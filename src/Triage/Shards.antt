-- ===== src/Triage/Shards.antt =====
-- `parse_shards`, and the text that `bisect` makes of the shards for the `step` command.
use fortsym.Base.{
  ℕ, zero, suc, ◌+◌, ◌-◌, ◌*◌, ◌/◌, ◌%◌, Bool, not, ◌&&◌, ◌||◌, List, [], ◌∷◌, ◌++◌, map, keep, all,
  any, Result, ok, err, ◌>>=◌, value_error, ◌==◌, nat_eq, list_eq, contains, ltb, leb,
  if◌then◌else◌,
}
use fortsym.Base.Order.{sorted, nat_order}
use fortsym.Base.Text.{Text, codes, strip, join}

abbrev pub shard_count : ℕ
shard_count = 16

abbrev pub count_from : ℕ → ℕ → List ℕ
count_from n zero = []
count_from n (suc k) = n ∷ count_from (suc n) k

-- `set(...)`
abbrev pub distinct_numbers : List ℕ → List ℕ
distinct_numbers [] = []
distinct_numbers (n ∷ l) = let rest = distinct_numbers l in if contains n l then rest else n ∷ rest

abbrev pub is_decimal : ℕ → Bool
is_decimal c = leb b'0' c && leb c b'9'

unfoldable pub read_decimal : ℕ → Text → ℕ
read_decimal n [] = n
read_decimal n (c ∷ s) = read_decimal (10 * n + (c - 48)) s

abbrev pub unsigned : Text → Result ℕ
unsigned [] = err value_error
unsigned (c ∷ s) = if all is_decimal (c ∷ s) then ok (read_decimal 0 (c ∷ s)) else err value_error

-- A negative number is out of range, which is a `ValueError` too.
abbrev pub negative : ℕ → Result ℕ
negative n = if n == 0 then ok 0 else err value_error

-- `int(item)`, without the underscores that it also takes between digits.
abbrev pub signed : Text → Result ℕ
signed [] = err value_error
signed (c ∷ s) =
    if c == b'+'
    then unsigned s
    else if c == b'-'
    then (unsigned s >>= negative)
    else unsigned (c ∷ s)

abbrev pub int_of : Text → Result ℕ
int_of item = signed (strip item)

unfoldable pub ints : List Text → Result (List ℕ)
unfolding read_decimal strip
ints [] = ok []
ints (item ∷ items) = int_of item >>= λ n. ints items >>= λ l. ok (n ∷ l)

abbrev pub begin_with : ℕ → List Text → List Text
begin_with c [] = (c ∷ []) ∷ []
begin_with c (piece ∷ pieces) = (c ∷ piece) ∷ pieces

-- `text.split(",")`
unfoldable pub split : Text → List Text
split [] = [] ∷ []
split (c ∷ s) = let rest = split s in if c == b',' then [] ∷ rest else begin_with c rest

abbrev pub in_count : List ℕ → Result (List ℕ)
in_count [] = err value_error
in_count (n ∷ l) = if any (leb shard_count) (n ∷ l) then err value_error else ok (n ∷ l)

abbrev pub is_filled : Text → Bool
is_filled item = not (strip item == [])

-- `parse_shards`
unfoldable pub parse_shards : Text → Result (List ℕ)
unfolding strip ints split sorted
parse_shards text =
    let t = strip text in
    if t == [] || t == codes "all"
    then ok (count_from 0 shard_count)
    else (ints (keep is_filled (split t)) >>= λ l. in_count (sorted (distinct_numbers l)))

-- `str(n)`; a round for each digit, of which there are at most as many as the number.
unfoldable pub digits : ℕ → ℕ → Text
digits zero n = []
digits (suc rounds) n =
    let rest = digits rounds (n / 10) in
    if ltb n 10 then (48 + n) ∷ [] else rest ++ (48 + n % 10) ∷ []

abbrev pub show_number : ℕ → Text
show_number n = digits (suc n) n

-- `",".join(map(str, shards))`
abbrev pub shard_argument : List ℕ → Text
shard_argument shards = join (codes ",") (map show_number shards)
