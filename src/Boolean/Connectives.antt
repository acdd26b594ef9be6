-- ===== src/Boolean/Connectives.antt =====
-- `And` and `Or` by the truth of their arguments.
use fortsym.Base.{
  ◌≡◌, refl, sym, ap, ◌∙◌, Bool, true, false, not, ◌&&◌, ◌||◌, List, [], ◌∷◌, all, any, keep,
  Result, ok, err, arith,
}
use fortsym.Handles.{Native, Term, Expr, Store, Action, pure}
use fortsym.Boolean.Values.{Argument, Value, flag, node}
use fortsym.Boolean.Functions.{is_flag, is_not, join, and_body, or_body, conjunction, disjunction}
use fortsym.Boolean.Results.{OnOk, Gives, Gives-pure, Gives-if}
use fortsym.Boolean.Truth.{IsSound, value_truth, argument_truth}
use fortsym.Boolean.Refinement.{
  any-map, all-map, truths, has_constant, with_values-Gives, join-Gives,
}

abbrev all_true : List Bool → Bool
all_true l = all (λ b. b) l

abbrev any_true : List Bool → Bool
any_true l = any (λ b. b) l

module _ (native : Native) (truth : Term → Bool) (sound : IsSound native truth) where
  abbrev T : List Value → List Bool
  T values = truths native truth sound values

  some_false :
      (values : List Value) → any (is_flag false) values ≡ true → all_true (T values) ≡ false
  some_false [] h = absurd (cc)
  some_false (flag true ∷ values) h = some_false values h
  some_false (flag false ∷ values) h = refl
  some_false (node e ∷ values) h = ground (arith, some_false values h)

  some_true : (values : List Value) → any (is_flag true) values ≡ true → any_true (T values) ≡ true
  some_true [] h = absurd (cc)
  some_true (flag true ∷ values) h = refl
  some_true (flag false ∷ values) h = some_true values h
  some_true (node e ∷ values) h = ground (arith, some_true values h)

  keep_not_true :
      (values : List Value) → all_true (T (keep (is_not true) values)) ≡ all_true (T values)
  keep_not_true [] = refl
  keep_not_true (flag true ∷ values) = keep_not_true values
  keep_not_true (flag false ∷ values) = refl
  keep_not_true (node e ∷ values) = ap (λ b. truth e.term && b) (keep_not_true values)

  keep_not_false :
      (values : List Value) → any_true (T (keep (is_not false) values)) ≡ any_true (T values)
  keep_not_false [] = refl
  keep_not_false (flag true ∷ values) = refl
  keep_not_false (flag false ∷ values) = keep_not_false values
  keep_not_false (node e ∷ values) = ap (λ b. truth e.term || b) (keep_not_false values)

  only_nodes :
      (b : Bool) (values : List Value)
      → any (is_flag (not b)) values ≡ false
      → has_constant native truth sound (keep (is_not b) values) ≡ false
  only_nodes b [] h = refl
  only_nodes true (flag true ∷ values) h = only_nodes true values h
  only_nodes true (flag false ∷ values) h = absurd (cc)
  only_nodes false (flag true ∷ values) h = absurd (cc)
  only_nodes false (flag false ∷ values) h = only_nodes false values h
  only_nodes b (node e ∷ values) h = only_nodes b values h

  and_body-Gives :
      (values : List Value) (temporary : List Expr)
      → Gives
          (λ (v, left). value_truth truth v ≡ all_true (T values))
          (and_body native values temporary)
  unfolding and_body
  and_body-Gives values temporary =
      Gives-if (any (is_flag false) values) (pure (flag false, temporary))
        (join native "And" true (keep (is_not true) values) temporary)
        (λ h. Gives-pure (flag false, temporary) (sym (some_false values h)))
        (λ h. rw (← keep_not_true values) (
          join-Gives native truth sound "And" true all_true refl (λ b. ground arith)
            (λ ts t e. sound.conjoined ts t e ∙ sym (all-map truth ts)) (keep (is_not true) values)
            temporary (only_nodes true values h)))

  or_body-Gives :
      (values : List Value) (temporary : List Expr)
      → Gives
          (λ (v, left). value_truth truth v ≡ any_true (T values))
          (or_body native values temporary)
  unfolding or_body
  or_body-Gives values temporary =
      Gives-if (any (is_flag true) values) (pure (flag true, temporary))
        (join native "Or" false (keep (is_not false) values) temporary)
        (λ h. Gives-pure (flag true, temporary) (sym (some_true values h)))
        (λ h. rw (← keep_not_false values) (
          join-Gives native truth sound "Or" false any_true refl (λ b. ground arith)
            (λ ts t e. sound.disjoined ts t e ∙ sym (any-map truth ts)) (keep (is_not false) values)
            temporary (only_nodes false values h)))

-- `Or` for `true`, and `And` for `false`.
abbrev pub connective : Bool → Native → List Argument → Action Value
connective true native arguments = disjunction native arguments
connective false native arguments = conjunction native arguments

abbrev pub meaning : Bool → (Argument → Bool) → List Argument → Bool
meaning true truth arguments = any truth arguments
meaning false truth arguments = all truth arguments

connective-Gives :
    (native : Native) (truth : Term → Bool) (sound : IsSound native truth) (which : Bool)
    (arguments : List Argument)
    → Gives
        (λ v. value_truth truth v ≡ meaning which (argument_truth native truth) arguments)
        (connective which native arguments)
unfolding conjunction disjunction
connective-Gives native truth sound true arguments =
    rw (← any-map (argument_truth native truth) arguments) (
      with_values-Gives native truth sound any_true arguments (or_body native)
        (or_body-Gives native truth sound))
connective-Gives native truth sound false arguments =
    rw (← all-map (argument_truth native truth) arguments) (
      with_values-Gives native truth sound all_true arguments (and_body native)
        (and_body-Gives native truth sound))

-- Over a native library that is sound for a truth of terms, what `Or` returns is true exactly if an
-- argument is, and what `And` returns exactly if every argument is, for any constants, numbers,
-- names and expressions as arguments.
pub connective-meaning :
    (native : Native) (truth : Term → Bool) (which : Bool) (arguments : List Argument) (s t : Store)
    (v : Value)
    → IsSound native truth
    → connective which native arguments s ≡ (ok v, t)
    → value_truth truth v ≡ meaning which (argument_truth native truth) arguments
connective-meaning native truth which arguments s t v sound h =
    on_result (connective which native arguments s)
      ((connective-Gives native truth sound which arguments).at s) h
  where
    on_result :
        (q : Result Value × Store)
        → OnOk
            (λ u. value_truth truth u ≡ meaning which (argument_truth native truth) arguments)
            q.0
        → q ≡ (ok v, t)
        → value_truth truth v ≡ meaning which (argument_truth native truth) arguments
    on_result (err x, u) g e = absurd (cc)
    on_result (ok w, u) g e = let same : w ≡ v = cc in ap (value_truth truth) (sym same) ∙ g
