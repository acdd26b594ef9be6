-- ===== src/Boolean/Ownership/Negation.antt =====
-- The handle that `Not` opens: what it returns for an expression is always new.
use fortsym.Base.{
  ℕ, String, ◌≤◌, ◌<◌, ◌≡◌, inl, inr, Bool, true, false, not, ◌&&◌, List, [], ◌∷◌, All, Error,
  Result, ok, err, arith, Option, none, some, Bool-cases, if◌then◌else◌, contains, nat_eq,
  index_error, ◌==◌, string_eq,
}
use fortsym.Base.Dict.{lookup}
use fortsym.Handles.{
  Native, Expr, Store, Action, pure, raise, continue, ◌>>=◌, finally, close, close_all, require,
  args, relation, simplify, function, get_kind, get_name, name_of,
}
use fortsym.Handles.Frame.{
  ids, IsFresh, Frame, Frame-refl, Frame-IsFresh, Frame-trans, Frame-close_owned, contains-above,
  lows, highs,
}
use fortsym.Boolean.Values.{Value, node, nodes_of, boolean_function, relation_negations}
use fortsym.Boolean.Functions.{
  relate_checked, relational, relate_children, negate_relation, negate_head, negate_node,
  relate_numbers, decided_numbers, relate_decided, decide_relation, decided, same_expression,
  is_number_kind, kind_cache,
}
use fortsym.Boolean.Ownership.Quiet.{require-Quiet, get_kind-Quiet, get_name-Quiet}
use fortsym.Boolean.Ownership.Opening.{
  Opens, Opening, one, of_value, Opening-bind, function-Opening, relation-Opening, simplify-Opening,
  args-Opening, value_of-Opening, Frame-close_some,
}

pub raise-Opening : {A : Type 0} {owned : A → List ℕ} (x : Error) → Opening owned (raise x)
raise-Opening x = record { at = λ s h. Frame-refl s h }

if-Opening :
    {A : Type 0} {owned : A → List ℕ} (b : Bool) (m n : Action A)
    → Opening owned m
    → Opening owned n
    → Opening owned (if b then m else n)
if-Opening true m n h k = h
if-Opening false m n h k = k

-- The object that a later step opened is not one of those before.
apart_of :
    (s t u : Store) (o p : List ℕ) → Frame s t o → Frame t u p → All (λ i. contains i o ≡ false) p
apart_of s t u o p f g = go p (lows t.next u.next p g.made)
  where
    go : (l : List ℕ) → All (λ j. t.next ≤ j) l → All (λ i. contains i o ≡ false) l
    go [] h = tt
    go (i ∷ l) h = (contains-above i t.next o (highs s.next t.next o f.made) h.0, go l h.1)

widen_low :
    (s t u : Store) (p : List ℕ)
    → s.next ≤ t.next
    → Frame t u p
    → All (λ i. (s.next ≤ i) × (i < u.next)) p
widen_low s t u p le g = go p g.made
  where
    go :
        (l : List ℕ)
        → All (λ i. (t.next ≤ i) × (i < u.next)) l
        → All (λ i. (s.next ≤ i) × (i < u.next)) l
    go [] h = tt
    go (i ∷ l) h = ((omega arith, omega arith), go l h.1)

-- Closing the objects of the first step after the second.
pub Frame-close_first :
    (s t u : Store) (es : List Expr) (p : List ℕ)
    → Frame s t (ids es)
    → Frame t u p
    → Frame s (close_all es u) p
Frame-close_first s t u es p f g =
    Frame-close_some s u es p (Frame-trans s t u (ids es) p f g)
      (lows s.next t.next (ids es) f.made) (apart_of s t u (ids es) p f g)
      (widen_low s t u p f.grows g)

-- An action between a step that opens `es` and their closing.
pub finally_close :
    {A : Type 0} {owned : A → List ℕ} (es : List Expr) (m : Action A) (s t : Store)
    → Frame s t (ids es)
    → Opening owned m
    → Opens owned s (finally m (close_all es) t)
finally_close {A} {owned} es m s t f h = go (m t) (h.at t (Frame-IsFresh s t (ids es) f))
  where
    go : (q : Result A × Store) → Opens owned t q → Opens owned s (q.0, close_all es q.1)
    go (err x, u) o = Frame-close_first s t u es [] f o
    go (ok v, u) o = Frame-close_first s t u es (owned v) f o

decide_relation-Opens :
    (rel simplified : Expr) (s t u : Store)
    → Frame s t (rel.id ∷ [])
    → Frame t u (simplified.id ∷ [])
    → Opens of_value s (decide_relation rel simplified u)
unfolding decide_relation close_all
decide_relation-Opens rel simplified s t u f g =
    elim (Bool-cases (contains (name_of simplified.term) ("True" ∷ "False" ∷ []))) [
      | inl truth ↦ rw truth (Frame-close_first s t (close simplified u) (rel ∷ []) [] f gone)
      | inr kept ↦ rw kept (Frame-trans s t (close simplified u) (rel.id ∷ []) [] f gone)
    ]
  where
    gone : Frame t (close simplified u) []
    gone = Frame-close_owned t u (simplified ∷ []) g

relate_numbers-Opens :
    (native : Native) (rel : Expr) (s t : Store)
    → Frame s t (rel.id ∷ [])
    → Opens of_value s (relate_numbers native rel t)
unfolding relate_numbers close_all
relate_numbers-Opens native rel s t f =
    go (simplify native rel t)
      ((simplify-Opening native rel).at t (Frame-IsFresh s t (rel.id ∷ []) f))
  where
    go : (q : Result Expr × Store) → Opens one t q → Opens of_value s (decided_numbers rel q)
    go (err x, u) o = Frame-close_first s t u (rel ∷ []) [] f o
    go (ok e, u) o = decide_relation-Opens rel e s t u f o

relate_kept-Opens :
    (native : Native) (both : Bool) (s : Store) (q : Result Expr × Store)
    → Opens one s q
    → Opens of_value s
        (continue q.0 (λ rel. if both then relate_numbers native rel else pure (node rel)) q.1)
relate_kept-Opens native both s (err x, t) o = o
relate_kept-Opens native true s (ok rel, t) o = relate_numbers-Opens native rel s t o
relate_kept-Opens native false s (ok rel, t) o = o

relational-Opening :
    (native : Native) (name : String) (a b : Expr) → Opening of_value (relational native name a b)
unfolding relational
relational-Opening native name a b =
    Opening-bind (require a) (λ _. relate_checked native name a b) (require-Quiet a)
      λ _. record { at = λ s h. checked s h (decided (same_expression s a b) name) }
  where
    checked :
        (s : Store)
        → IsFresh s
        → (d : Option Bool)
        → Opens of_value s (
            relate_decided native name a b
              (not (same_expression s a b)
                && (is_number_kind (kind_cache s a) && is_number_kind (kind_cache s b)))
              d
              s)
    checked s h (some v) = Frame-refl s h
    checked s h none =
        relate_kept-Opens native
          (not (same_expression s a b)
            && (is_number_kind (kind_cache s a) && is_number_kind (kind_cache s b)))
          s (relation native name a b s) ((relation-Opening native name a b).at s h)

relate_children-Opening :
    (native : Native) (name : String) (es : List Expr)
    → Opening of_value (relate_children native name es)
relate_children-Opening native name [] = raise-Opening index_error
relate_children-Opening native name (a ∷ []) = raise-Opening index_error
relate_children-Opening native name (a ∷ b ∷ rest) = relational-Opening native name a b

negate_relation-Opening :
    (native : Native) (e : Expr) (name : String) → Opening of_value (negate_relation native e name)
unfolding negate_relation
negate_relation-Opening native e name = record {
  at = λ s h. go s (args e s) ((args-Opening e).at s h);
}
  where
    go :
        (s : Store) (q : Result (List Expr) × Store)
        → Opens ids s q
        → Opens of_value s
            (continue q.0 (λ es. finally (relate_children native name es) (close_all es)) q.1)
    go s (err x, t) o = o
    go s (ok es, t) o =
        finally_close es (relate_children native name es) s t o
          (relate_children-Opening native name es)

pub boolean_function-Opening :
    (native : Native) (name : String) (vs : List Value)
    → Opening of_value (boolean_function native name vs)
unfolding boolean_function
boolean_function-Opening native name vs =
    value_of-Opening (function native name (nodes_of vs))
      (function-Opening native name (nodes_of vs))

negate_head-Opening :
    (native : Native) (e : Expr) (o : Option String) → Opening of_value (negate_head native e o)
unfolding negate_head
negate_head-Opening native e none = boolean_function-Opening native "Not" (node e ∷ [])
negate_head-Opening native e (some name) = negate_relation-Opening native e name

pub negate_node-Opening : (native : Native) (e : Expr) → Opening of_value (negate_node native e)
unfolding negate_node
negate_node-Opening native e =
    let named = λ (name : String). negate_head native e (lookup name relation_negations) in
    Opening-bind (get_kind e)
      (λ kind. if kind == 9 then (get_name e >>= named) else negate_head native e none)
      (get_kind-Quiet e)
      λ kind.
        if-Opening (kind == 9) (get_name e >>= named) (negate_head native e none)
          (Opening-bind (get_name e) named (get_name-Quiet e)
            (λ name. negate_head-Opening native e (lookup name relation_negations)))
          (negate_head-Opening native e none)
