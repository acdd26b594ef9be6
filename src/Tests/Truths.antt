-- ===== src/Tests/Truths.antt =====
-- The theorem on the truth of `And` and `Or` at a valuation of the symbols.
use fortsym.Base.{
  ◌≡◌, refl, sym, ap, ◌∙◌, Bool, true, false, ◌&&◌, ◌||◌, List, [], ◌∷◌, all, any, ok, ◌==◌,
  string_eq, contains, if◌then◌else◌,
}
use fortsym.Handles.{
  Term, Terms, nil, cons, from_list, number, symbol, constant, add, mul, pow, func, Store,
  close_all, require, open_handle, get_kind, exact_text, get_name, check_all, function,
}
use fortsym.Boolean.{
  Argument, Value, node, convert, classify, classify_kind, collect_one, collect, boolean_values,
  with_values, and_body, conjunction, boolean_function, keep_value, numeric_value, head_value,
}
use fortsym.Boolean.Truth.{IsSound, value_truth, argument_truth}
use fortsym.Boolean.Connectives.{connective, meaning, connective-meaning}
use fortsym.Tests.Booleans.{free, one_open, x, y}

unfoldable mutual
  truth_of : Term → Bool
  truth_of (number k text) = contains text ("1" ∷ "1/1" ∷ [])
  truth_of (symbol s) = s == "y"
  truth_of (constant s) = false
  truth_of (add ts) = false
  truth_of (mul ts) = false
  truth_of (pow b e) = false
  truth_of (func s ts) =
      let every = all_of ts in
      let some_one = any_of ts in
      if s == "And" then every else if s == "Or" then some_one else false

  all_of : Terms → Bool
  all_of nil = true
  all_of (cons t ts) = truth_of t && all_of ts

  any_of : Terms → Bool
  any_of nil = false
  any_of (cons t ts) = truth_of t || any_of ts

all_of-from_list : (ts : List Term) → all_of (from_list ts) ≡ all truth_of ts
unfolding truth_of
all_of-from_list [] = refl
all_of-from_list (t ∷ ts) = ap (λ b. truth_of t && b) (all_of-from_list ts)

any_of-from_list : (ts : List Term) → any_of (from_list ts) ≡ any truth_of ts
unfolding truth_of
any_of-from_list [] = refl
any_of-from_list (t ∷ ts) = ap (λ b. truth_of t || b) (any_of-from_list ts)

free-IsSound : IsSound free truth_of
unfolding truth_of
free-IsSound = record {
  zero_false = λ k. refl;
  one_true = λ k text h. h;
  conjoined = λ ts t e.
      let same : func "And" (from_list ts) ≡ t = cc in ap truth_of (sym same) ∙ all_of-from_list ts;
  disjoined = λ ts t e.
      let same : func "Or" (from_list ts) ≡ t = cc in ap truth_of (sym same) ∙ any_of-from_list ts;
}

abbrev both : Value
both = node (record { id = 2; term = func "And" (cons (symbol "x") (cons (symbol "y") nil)) })

abbrev after : Store
after = (connective false free (x ∷ Argument.flag true ∷ y ∷ []) one_open).1

both_made : connective false free (x ∷ Argument.flag true ∷ y ∷ []) one_open ≡ (ok both, after)
unfolding conjunction with_values and_body boolean_values collect collect_one convert classify
    classify_kind get_kind get_name exact_text require open_handle function check_all
    boolean_function keep_value numeric_value head_value close_all
both_made = refl

connective-meaning_example :
    value_truth truth_of both
    ≡ meaning false (argument_truth free truth_of) (x ∷ Argument.flag true ∷ y ∷ [])
connective-meaning_example =
    connective-meaning free truth_of false (x ∷ Argument.flag true ∷ y ∷ []) one_open after both
      free-IsSound both_made
