-- ===== src/Boolean/Ownership/Bodies.antt =====
-- The body of each Boolean function is tidy.
use fortsym.Base.{
  String, inl, inr, Bool, true, false, not, ◌||◌, List, [], ◌∷◌, All, any, keep, Result, ok, err,
  arith, Bool-cases, if◌then◌else◌, nat_eq,
}
use fortsym.Handles.{Native, Expr, Store, Action, pure, continue, ◌>>=◌, finally, close, close_all}
use fortsym.Handles.Frame.{
  ids, IsFresh, Frame, Frame-IsFresh, Frame-trans, contains-above, contains_made, lows, highs,
  Frame-refl,
}
use fortsym.Boolean.Values.{
  Value, flag, node, Argument, keep_value, boolean_function, with_values, boolean_values, settle,
  run_body,
}
use fortsym.Boolean.Functions.{
  and_body, or_body, join, is_flag, is_not, is_constant, not_body, not_value, negation, xor_body,
  parity, as_argument, close_value, implies_body, xor_rest,
}
use fortsym.Boolean.Ownership.Collect.{
  IsKnown, IsHeld, AllHeld, Collected, boolean_values-Collected,
}
use fortsym.Boolean.Ownership.Opening.{Opens, Opening, of_value}
use fortsym.Boolean.Ownership.Negation.{
  boolean_function-Opening, negate_node-Opening, Frame-close_first,
}
use fortsym.Boolean.Ownership.Body.{BodyEnds, raised, decided, held, made, IsTidy}
use fortsym.Boolean.Ownership.Quiet.{Frame-settled}

-- A last step that opens what the body returns.
opens_made :
    (s t : Store) (es : List Expr) (q : Result Value × Store)
    → Frame s t (ids es)
    → Opens of_value t q
    → BodyEnds s es (continue q.0 (λ v. pure (v, es)) q.1)
opens_made s t es (err x, u) f o = raised (Frame-settled s t u (ids es) f o)
opens_made s t es (ok (flag b), u) f o = decided (Frame-settled s t u (ids es) f o)
opens_made s t es (ok (node e), u) f o =
    let (ge, lt) = o.made.0 in
    let grows = f.grows in
    made (Frame-trans s t u (ids es) (e.id ∷ []) f o)
      (contains-above e.id t.next (ids es) (highs s.next t.next (ids es) f.made) ge)
      (omega arith, lt) (lows s.next t.next (ids es) f.made)

keep_value-BodyEnds :
    (s t : Store) (es : List Expr) (v : Value)
    → Frame s t (ids es)
    → IsHeld s es v
    → BodyEnds s es (ok (keep_value v es), t)
unfolding keep_value
keep_value-BodyEnds s t es (flag b) f h = decided f
keep_value-BodyEnds s t es (node e) f h = held f h

All-keep_value :
    (P : Value → Type 0) (p : Value → Bool) (vs : List Value) → All P vs → All P (keep p vs)
All-keep_value P p [] h = tt
All-keep_value P p (v ∷ vs) h = elim (Bool-cases (p v)) [
  | inl kept ↦ rw kept (h.0, All-keep_value P p vs h.1)
  | inr dropped ↦ rw dropped (All-keep_value P p vs h.1)
]

join-BodyEnds :
    (native : Native) (name : String) (unit : Bool) (s t : Store) (vs : List Value) (es : List Expr)
    → Frame s t (ids es)
    → All (IsHeld s es) vs
    → BodyEnds s es (join native name unit vs es t)
join-BodyEnds native name unit s t [] es f h = decided f
join-BodyEnds native name unit s t (v ∷ []) es f h = keep_value-BodyEnds s t es v f h.0
join-BodyEnds native name unit s t (v ∷ w ∷ vs) es f h =
    opens_made s t es (boolean_function native name (v ∷ w ∷ vs) t) f
      ((boolean_function-Opening native name (v ∷ w ∷ vs)).at t (Frame-IsFresh s t (ids es) f))

if-BodyEnds :
    (b : Bool) (m n : Action (Value × List Expr)) (s t : Store) (es : List Expr)
    → BodyEnds s es (m t)
    → BodyEnds s es (n t)
    → BodyEnds s es ((if b then m else n) t)
if-BodyEnds true m n s t es h k = h
if-BodyEnds false m n s t es h k = k

pub and_body-IsTidy : (native : Native) → IsTidy (and_body native)
unfolding and_body
and_body-IsTidy native s t vs es f h =
    if-BodyEnds (any (is_flag false) vs) (pure (flag false, es))
      (join native "And" true (keep (is_not true) vs) es) s t es (decided f)
      (join-BodyEnds native "And" true s t (keep (is_not true) vs) es f
        (All-keep_value (IsHeld s es) (is_not true) vs h))

pub or_body-IsTidy : (native : Native) → IsTidy (or_body native)
unfolding or_body
or_body-IsTidy native s t vs es f h =
    if-BodyEnds (any (is_flag true) vs) (pure (flag true, es))
      (join native "Or" false (keep (is_not false) vs) es) s t es (decided f)
      (join-BodyEnds native "Or" false s t (keep (is_not false) vs) es f
        (All-keep_value (IsHeld s es) (is_not false) vs h))

not_value-Opening : (native : Native) (vs : List Value) → Opening of_value (not_value native vs)
unfolding not_value
not_value-Opening native [] = record { at = λ s h. Frame-refl s h }
not_value-Opening native (flag b ∷ vs) = record { at = λ s h. Frame-refl s h }
not_value-Opening native (node e ∷ vs) = negate_node-Opening native e

-- While no derivation is recorded, `Not` of a Boolean, an integer, a string, an expression that
-- exists or a value that `sympify` refuses, so of no `Wild`, `Fraction` or `float`, leaves every
-- handle as it was when it raises or returns a constant; an expression that it returns is the one
-- new handle, also where it negates a relation.
pub negation-Opens :
    (native : Native) (a : Argument) (s : Store)
    → IsFresh s
    → IsKnown s a
    → Opens of_value s (negation native a s)
unfolding negation with_values not_body
negation-Opens native a s h k =
    go (boolean_values native (a ∷ []) s) (boolean_values-Collected native s (a ∷ []) h (k, tt))
  where
    close_after :
        (t : Store) (es : List Expr) (q : Result Value × Store)
        → Frame s t (ids es)
        → Opens of_value t q
        → Opens of_value s (settle es (continue q.0 (λ v. pure (v, es)) q.1))
    close_after t es (err x, u) f o = Frame-close_first s t u es [] f o
    close_after t es (ok v, u) f o = Frame-close_first s t u es (of_value v) f o

    go :
        (q : Result (List Value × List Expr) × Store)
        → Collected (AllHeld s) s q
        → Opens of_value s (run_body (not_body native) q)
    go (err x, t) c = c
    go (ok (vs, es), t) c =
        close_after t es (not_value native vs t) c.0
          ((not_value-Opening native vs).at t (Frame-IsFresh s t (ids es) c.0))

-- A value of the call is an argument that was made before.
as_argument-IsKnown :
    (s t : Store) (es : List Expr) (v : Value)
    → Frame s t (ids es)
    → IsHeld s es v
    → IsKnown t (as_argument v)
as_argument-IsKnown s t es (flag b) f h = tt
as_argument-IsKnown s t es (node e) f (inl h) = let g = f.grows in omega (arith, h.0)
as_argument-IsKnown s t es (node e) f (inr h) = (contains_made s t (ids es) e.id f h).1

negated-BodyEnds :
    (native : Native) (s t : Store) (es : List Expr) (v : Value)
    → Frame s t (ids es)
    → IsHeld s es v
    → BodyEnds s es ((do r ← negation native (as_argument v); pure (r, es)) t)
negated-BodyEnds native s t es v f h = opens_made s t es (negation native (as_argument v) t) f (
    negation-Opens native (as_argument v) t (Frame-IsFresh s t (ids es) f)
      (as_argument-IsKnown s t es v f h))

-- `Not(result)` for a new result, which is then closed.
negated_result :
    (native : Native) (s t : Store) (es : List Expr) (q : Result Value × Store)
    → Frame s t (ids es)
    → Opens of_value t q
    → BodyEnds s es (
        continue q.0
          (λ result. do
            r ← finally (negation native (as_argument result)) (close_value result)
            pure (r, es))
          q.1)
negated_result native s t es (err x, u) f o = raised (Frame-settled s t u (ids es) f o)
negated_result native s t es (ok (flag b), u) f o =
    let g = Frame-settled s t u (ids es) f o in
    opens_made s u es (negation native (Argument.flag b) u) g
      (negation-Opens native (Argument.flag b) u (Frame-IsFresh s u (ids es) g) tt)
negated_result native s t es (ok (node e), u) f o =
    let p = negation native (Argument.node e) u in
    opens_made s t es (p.0, close e p.1) f
      (finish p
        (negation-Opens native (Argument.node e) u (Frame-IsFresh t u (e.id ∷ []) o) o.made.0.1))
  where
    finish : (p : Result Value × Store) → Opens of_value u p → Opens of_value t (p.0, close e p.1)
    finish (err x, w) n = unfold close_all in Frame-close_first t u w (e ∷ []) [] o n
    finish (ok v, w) n = unfold close_all in Frame-close_first t u w (e ∷ []) (of_value v) o n

xor_rest-BodyEnds :
    (native : Native) (odd : Bool) (s t : Store) (vs : List Value) (es : List Expr)
    → Frame s t (ids es)
    → All (IsHeld s es) vs
    → BodyEnds s es (xor_rest native odd vs es t)
unfolding xor_rest
xor_rest-BodyEnds native odd s t [] es f h = decided f
xor_rest-BodyEnds native true s t (v ∷ []) es f h = negated-BodyEnds native s t es v f h.0
xor_rest-BodyEnds native false s t (v ∷ []) es f h = keep_value-BodyEnds s t es v f h.0
xor_rest-BodyEnds native true s t (v ∷ w ∷ vs) es f h =
    negated_result native s t es (boolean_function native "Xor" (v ∷ w ∷ vs) t) f
      ((boolean_function-Opening native "Xor" (v ∷ w ∷ vs)).at t (Frame-IsFresh s t (ids es) f))
xor_rest-BodyEnds native false s t (v ∷ w ∷ vs) es f h =
    opens_made s t es (boolean_function native "Xor" (v ∷ w ∷ vs) t) f
      ((boolean_function-Opening native "Xor" (v ∷ w ∷ vs)).at t (Frame-IsFresh s t (ids es) f))

pub xor_body-IsTidy : (native : Native) → IsTidy (xor_body native)
unfolding xor_body
xor_body-IsTidy native s t vs es f h =
    xor_rest-BodyEnds native (parity vs) s t (keep (λ v. not (is_constant v)) vs) es f
      (All-keep_value (IsHeld s es) (λ v. not (is_constant v)) vs h)

pub implies_body-IsTidy : (native : Native) → IsTidy (implies_body native)
unfolding implies_body
implies_body-IsTidy native s t [] es f h = raised f
implies_body-IsTidy native s t (l ∷ []) es f h = raised f
implies_body-IsTidy native s t (l ∷ r ∷ u ∷ vs) es f h = raised f
implies_body-IsTidy native s t (l ∷ r ∷ []) es f h =
    elim (Bool-cases (is_flag false l || is_flag true r)) [
      | inl trivial ↦ rw trivial (decided f)
      | inr open' ↦ rw open' (elim (Bool-cases (is_flag true l)) [
        | inl premise ↦ rw premise (keep_value-BodyEnds s t es r f h.1.0)
        | inr unknown ↦ rw unknown (elim (Bool-cases (is_flag false r)) [
          | inl refuted ↦ rw refuted (negated-BodyEnds native s t es l f h.0)
          | inr neither ↦ rw neither (
              opens_made s t es (boolean_function native "Implies" (l ∷ r ∷ []) t) f (
                (boolean_function-Opening native "Implies" (l ∷ r ∷ [])).at t
                  (Frame-IsFresh s t (ids es) f)))
        ])
      ])
    ]
