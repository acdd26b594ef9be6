-- ===== src/Boolean/Ownership/Collect.antt =====
-- The handles that `_boolean_values` opens.
use fortsym.Base.{
  ℕ, ◌<◌, ◌≡◌, refl, sym, ◌∙◌, ◌⊎◌, inl, inr, Bool, true, false, List, [], ◌∷◌, ◌++◌, All, arith,
  Result, ok, err, contains, nat_eq, string_eq, Bool-cases, Result-cases, if◌then◌else◌, String,
  type_error, ◌==◌, ap,
}
use fortsym.Handles.{
  Native, Expr, Store, open_handle, require, get_kind, exact_text, get_name, pure, raise, lift,
  continue, ◌>>=◌,
}
use fortsym.Handles.Frame.{
  ids, IsFresh, Frame, Frame-refl, Frame-IsFresh, Frame-open, Frame-trans, Frame-close_owned,
  contains-append,
}
use fortsym.Boolean.Values.{
  Argument, wild, int, identifier, source, other, Value, flag, node, convert, classify,
  classify_kind, numeric_value, head_value, append_if, classified, converted, collect_one, collect,
  boolean_values, number_kinds, expression_heads,
}
use mathlib.Core.Path.{subst}
use fortsym.Boolean.Ownership.Quiet.{
  QuietEnds, Quiet, Quiet-pure, Quiet-raise, Quiet-lift, Quiet-if, Quiet-bind, get_kind-Quiet,
  exact_text-Quiet, get_name-Quiet, append-empty, Frame-quiet,
}

-- An expression that the caller passes was made before the call.
abbrev pub IsKnown : Store → Argument → Type 0
IsKnown s (Argument.node e) = e.id < s.next
IsKnown s (wild e) = ⊥
IsKnown s a = Unit

-- What `sympify` has done, from `s` on.
abbrev Converted : Store → Result (Expr × Bool) × Store → Type 0
Converted s (err x, t) = Frame s t []
Converted s (ok (e, true), t) = Frame s t (e.id ∷ [])
Converted s (ok (e, false), t) = Frame s t [] × (e.id < s.next) × (s.live e.id ≡ true)

convert-Converted :
    (native : Native) (a : Argument) (s : Store)
    → IsFresh s
    → IsKnown s a
    → Converted s (convert native a s)
unfolding convert require open_handle
convert-Converted native (Argument.flag b) s h k = Frame-refl s h
convert-Converted native (Argument.node e) s h k = elim (Bool-cases (s.live e.id)) [
  | inl live ↦ rw live (Frame-refl s h, k, live)
  | inr closed ↦ rw closed (Frame-refl s h)
]
convert-Converted native (wild e) s h k = absurd k
convert-Converted native (int n) s h k = elim (Result-cases (native.integer n)) [
  | inl (t, e) ↦ rw e (Frame-open s h)
  | inr (x, e) ↦ rw e (Frame-refl s h)
]
convert-Converted native (identifier n) s h k = elim (Result-cases (native.make_symbol n)) [
  | inl (t, e) ↦ rw e (Frame-open s h)
  | inr (x, e) ↦ rw e (Frame-refl s h)
]
convert-Converted native (source n) s h k = Frame-refl s h
convert-Converted native other s h k = Frame-refl s h

-- A constant, or the expression itself.
abbrev IsFrom : Expr → Value → Type 0
IsFrom e (flag b) = Unit
IsFrom e (node e') = e' ≡ e

numeric_value-IsFrom :
    (e : Expr) (text : String) (v : Value) → numeric_value text ≡ ok v → IsFrom e v
unfolding numeric_value
numeric_value-IsFrom e text (flag b) h = tt
numeric_value-IsFrom e text (node e') h = ground arith

head_value-IsFrom : (e : Expr) (name : String) (v : Value) → head_value e name ≡ ok v → IsFrom e v
unfolding head_value
head_value-IsFrom e name (flag b) h = tt
head_value-IsFrom e name (node e') h = elim (Bool-cases (contains name expression_heads)) [
  | inl head ↦ cc (rw head at h)
  | inr other' ↦ absurd (cc (rw other' at h))
]

classify_kind-Quiet : (e : Expr) (kind : ℕ) → Quiet (IsFrom e) (classify_kind e kind)
unfolding classify_kind
classify_kind-Quiet e kind =
    Quiet-if (contains kind number_kinds) (exact_text e >>= λ text. lift (numeric_value text))
      (if kind == 4
        then pure (node e)
        else if kind == 9
        then (get_name e >>= λ name. lift (head_value e name))
        else raise type_error)
      (Quiet-bind (exact_text e) (λ text. lift (numeric_value text)) (exact_text-Quiet e)
        λ text. Quiet-lift (numeric_value text) (numeric_value-IsFrom e text))
      (Quiet-if (kind == 4) (pure (node e))
        (if kind == 9 then (get_name e >>= λ name. lift (head_value e name)) else raise type_error)
        (Quiet-pure (node e) refl)
        (Quiet-if (kind == 9) (get_name e >>= λ name. lift (head_value e name)) (raise type_error)
          (Quiet-bind (get_name e) (λ name. lift (head_value e name)) (get_name-Quiet e)
            λ name. Quiet-lift (head_value e name) (head_value-IsFrom e name))
          (Quiet-raise type_error)))

classify-Quiet : (e : Expr) → Quiet (IsFrom e) (classify e)
unfolding classify
classify-Quiet e =
    Quiet-bind (get_kind e) (classify_kind e) (get_kind-Quiet e) (classify_kind-Quiet e)

-- A value is a constant, an older live expression, or one of the temporaries.
abbrev pub IsHeld : Store → List Expr → Value → Type 0
IsHeld s owned (flag b) = Unit
IsHeld s owned (node e) =
    ((e.id < s.next) × (s.live e.id ≡ true)) ⊎ (contains e.id (ids owned) ≡ true)

-- What a round, or the whole loop, has done since `s`.
abbrev pub Collected :
    {A : Type 0} → (A → List Expr → Type 0) → Store → Result (A × List Expr) × Store → Type 0
Collected P s (err x, t) = Frame s t []
Collected P s (ok (a, owned), t) = Frame s t (ids owned) × P a owned

ids-append : (es : List Expr) (e : Expr) → ids (es ++ e ∷ []) ≡ ids es ++ e.id ∷ []
ids-append [] e = refl
ids-append (d ∷ es) e = ap (λ l. d.id ∷ l) (ids-append es e)

-- Owned objects stay owned when another one is added.
abbrev Grows : List Expr → List Expr → Type 0
Grows es owned = (i : ℕ) → contains i (ids es) ≡ true → contains i (ids owned) ≡ true

Grows-append_if : (made : Bool) (e : Expr) (es : List Expr) → Grows es (append_if made e es)
Grows-append_if false e es i h = h
Grows-append_if true e es i h =
    rw (ids-append es e) (ground (arith, contains-append i (ids es) (e.id ∷ [])))

IsHeld-Grows :
    (s : Store) (es owned : List Expr) (v : Value)
    → Grows es owned
    → IsHeld s es v
    → IsHeld s owned v
IsHeld-Grows s es owned (flag b) g h = tt
IsHeld-Grows s es owned (node e) g (inl h) = inl h
IsHeld-Grows s es owned (node e) g (inr h) = inr (g e.id h)

-- The value is held, and no temporary is lost.
abbrev Kept : Store → List Expr → Value → List Expr → Type 0
Kept s es v owned = IsHeld s owned v × Grows es owned

classified-Collected :
    (s t : Store) (e : Expr) (owned es : List Expr) (q : Result Value × Store)
    → Frame s t (ids owned)
    → IsHeld s owned (node e)
    → Grows es owned
    → QuietEnds (IsFrom e) t q
    → Collected (Kept s es) s (classified owned q)
classified-Collected s t e owned es (err x, u) f h g q =
    Frame-close_owned s u owned (Frame-quiet s t u (ids owned) f q.0 q.1)
classified-Collected s t e owned es (ok (flag b), u) f h g q =
    (Frame-quiet s t u (ids owned) f q.0 q.1, (tt, g))
classified-Collected s t e owned es (ok (node e'), u) f h g q =
    (Frame-quiet s t u (ids owned) f q.0 q.1, (rw q.2 h, g))

contains-last : (i : ℕ) (l : List ℕ) → contains i (l ++ i ∷ []) ≡ true
contains-last i l = ground (arith, contains-append i l (i ∷ []))

converted-Collected :
    (s t : Store) (es : List Expr) (q : Result (Expr × Bool) × Store)
    → Frame s t (ids es)
    → ((e : Expr) (u : Store) → q ≡ (ok (e, false), u) → (e.id < s.next) × (s.live e.id ≡ true))
    → Converted t q
    → Collected (Kept s es) s (converted es q)
converted-Collected s t es (err x, u) f k c =
    Frame-close_owned s u es (rw (← append-empty (ids es)) (Frame-trans s t u (ids es) [] f c))
converted-Collected s t es (ok (e, true), u) f k c =
    classified-Collected s u e (es ++ e ∷ []) es (classify e u)
      (rw (ids-append es e) (Frame-trans s t u (ids es) (e.id ∷ []) f c))
      (inr (rw (ids-append es e) (contains-last e.id (ids es)))) (Grows-append_if true e es)
      ((classify-Quiet e).at u)
converted-Collected s t es (ok (e, false), u) f k c =
    classified-Collected s u e es es (classify e u)
      (rw (← append-empty (ids es)) (Frame-trans s t u (ids es) [] f c.0)) (inl (k e u refl))
      (λ i h. h) ((classify-Quiet e).at u)

-- A borrowed expression is one that the caller passed.
convert-borrowed :
    (native : Native) (a : Argument) (t u : Store) (e : Expr)
    → convert native a t ≡ (ok (e, false), u)
    → (a ≡ Argument.node e) × (t.live e.id ≡ true)
unfolding convert require open_handle
convert-borrowed native (Argument.flag b) t u e h = absurd (cc h)
convert-borrowed native (Argument.node e') t u e h = ground arith
convert-borrowed native (wild e') t u e h = ground arith
convert-borrowed native (int n) t u e h = ground arith
convert-borrowed native (identifier n) t u e h = ground arith
convert-borrowed native (source n) t u e h = absurd (cc h)
convert-borrowed native other t u e h = absurd (cc h)

collect_one-Collected :
    (native : Native) (s t : Store) (a : Argument) (es : List Expr)
    → Frame s t (ids es)
    → IsKnown s a
    → Collected (Kept s es) s (collect_one native a es t)
unfolding collect_one
collect_one-Collected native s t a es f k =
    converted-Collected s t es (convert native a t) f
      (λ e u h.
        let (same, live) = convert-borrowed native a t u e h in
        let known : e.id < s.next = subst (IsKnown s) same k in
        (known, sym (f.kept e.id known) ∙ live))
      (convert-Converted native a t (Frame-IsFresh s t (ids es) f) (known_later a k))
  where
    known_later : (b : Argument) → IsKnown s b → IsKnown t b
    known_later (Argument.flag b) h = tt
    known_later (Argument.node e) h = let g = f.grows in omega arith
    known_later (wild e) h = absurd h
    known_later (int n) h = tt
    known_later (identifier n) h = tt
    known_later (source n) h = tt
    known_later other h = tt

All-IsHeld :
    (s : Store) (es owned : List Expr) (vs : List Value)
    → Grows es owned
    → All (IsHeld s es) vs
    → All (IsHeld s owned) vs
All-IsHeld s es owned [] g h = tt
All-IsHeld s es owned (v ∷ vs) g h =
    (IsHeld-Grows s es owned v g h.0, All-IsHeld s es owned vs g h.1)

All-snoc : {A : Type 0} (P : A → Type 0) (l : List A) (a : A) → All P l → P a → All P (l ++ a ∷ [])
All-snoc P [] a h k = (k, tt)
All-snoc P (b ∷ l) a h k = (h.0, All-snoc P l a h.1 k)

-- Every value of the list is held.
abbrev pub AllHeld : Store → List Value → List Expr → Type 0
AllHeld s vs owned = All (IsHeld s owned) vs

collect_rest :
    (native : Native) (s : Store) (rest : List Argument) (vs : List Value) (es : List Expr)
    (q : Result (Value × List Expr) × Store)
    → ((owned : List Expr) (v : Value) (u : Store)
        → Frame s u (ids owned)
        → All (IsHeld s owned) (vs ++ v ∷ [])
        → Collected (AllHeld s) s (collect native rest (vs ++ v ∷ []) owned u))
    → All (IsHeld s es) vs
    → Collected (Kept s es) s q
    → Collected (AllHeld s) s (continue q.0 (λ p. collect native rest (vs ++ p.0 ∷ []) p.1) q.1)
collect_rest native s rest vs es (err x, u) ih h c = c
collect_rest native s rest vs es (ok (v, owned), u) ih h (f, (held, g)) =
    ih owned v u f (All-snoc (IsHeld s owned) vs v (All-IsHeld s es owned vs g h) held)

collect-Collected :
    (native : Native) (s t : Store) (given : List Argument) (vs : List Value) (es : List Expr)
    → Frame s t (ids es)
    → All (IsHeld s es) vs
    → All (IsKnown s) given
    → Collected (AllHeld s) s (collect native given vs es t)
unfolding collect
collect-Collected native s t [] vs es f h k = (f, h)
collect-Collected native s t (Argument.flag b ∷ rest) vs es f h k =
    collect-Collected native s t rest (vs ++ flag b ∷ []) es f
      (All-snoc (IsHeld s es) vs (flag b) h tt) k.1
collect-Collected native s t (Argument.node e ∷ rest) vs es f h k =
    collect_rest native s rest vs es (collect_one native (Argument.node e) es t)
      (λ owned v u f' h'. collect-Collected native s u rest (vs ++ v ∷ []) owned f' h' k.1) h
      (collect_one-Collected native s t (Argument.node e) es f k.0)
collect-Collected native s t (wild e ∷ rest) vs es f h k = absurd k.0
collect-Collected native s t (int n ∷ rest) vs es f h k =
    collect_rest native s rest vs es (collect_one native (int n) es t)
      (λ owned v u f' h'. collect-Collected native s u rest (vs ++ v ∷ []) owned f' h' k.1) h
      (collect_one-Collected native s t (int n) es f k.0)
collect-Collected native s t (identifier n ∷ rest) vs es f h k =
    collect_rest native s rest vs es (collect_one native (identifier n) es t)
      (λ owned v u f' h'. collect-Collected native s u rest (vs ++ v ∷ []) owned f' h' k.1) h
      (collect_one-Collected native s t (identifier n) es f k.0)
collect-Collected native s t (source n ∷ rest) vs es f h k =
    collect_rest native s rest vs es (collect_one native (source n) es t)
      (λ owned v u f' h'. collect-Collected native s u rest (vs ++ v ∷ []) owned f' h' k.1) h
      (collect_one-Collected native s t (source n) es f k.0)
collect-Collected native s t (other ∷ rest) vs es f h k =
    collect_rest native s rest vs es (collect_one native other es t)
      (λ owned v u f' h'. collect-Collected native s u rest (vs ++ v ∷ []) owned f' h' k.1) h
      (collect_one-Collected native s t other es f k.0)

-- On success the temporaries are the only handles that were opened, and every value is held; when
-- an exception leaves the loop, nothing that was opened is left.
pub boolean_values-Collected :
    (native : Native) (s : Store) (given : List Argument)
    → IsFresh s
    → All (IsKnown s) given
    → Collected (AllHeld s) s (boolean_values native given s)
unfolding boolean_values
boolean_values-Collected native s given h k =
    collect-Collected native s s given [] [] (Frame-refl s h) tt k
