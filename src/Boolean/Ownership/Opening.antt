-- ===== src/Boolean/Ownership/Opening.antt =====
-- Operations that open one handle and return it, or raise and leave none.
use fortsym.Base.{
  ℕ, String, ◌≤◌, ◌<◌, ◌≡◌, refl, inl, inr, false, not, ◌&&◌, List, [], ◌∷◌, ◌++◌, All, Result, ok,
  err, arith, Bool-cases, contains, nat_eq, nat_beq,
}
use fortsym.Handles.{
  Native, Term, Expr, Store, Action, pure, lift, continue, ◌>>=◌, close_all, require, check_all,
  open_handle, open_list, opened, args, function, relation, simplify, arguments_of,
}
use fortsym.Handles.Frame.{
  ids, IsFresh, Frame, Frame-refl, Frame-same, Frame-IsFresh, Frame-open, Frame-trans,
  Frame-close_all, Frame-owned, contains-append, contains-keep, minus, next-close_all,
}
use fortsym.Boolean.Values.{Value, flag, node}
use fortsym.Boolean.Ownership.Quiet.{
  QuietEnds, Quiet, Quiet-pure, Quiet-lift, Quiet-bind, Any, require-Quiet,
}

-- What a run from `s` that may return `A` has opened, where `owned a` are the handles of a result.
abbrev pub Opens : {A : Type 0} → (A → List ℕ) → Store → Result A × Store → Type 0
Opens owned s (err x, t) = Frame s t []
Opens owned s (ok a, t) = Frame s t (owned a)

pub record Opening {A : Type 0} (owned : A → List ℕ) (m : Action A) : Type 0 where
  pub at : (s : Store) → IsFresh s → Opens owned s (m s)

abbrev pub one : Expr → List ℕ
one e = e.id ∷ []

abbrev pub of_value : Value → List ℕ
of_value (flag b) = []
of_value (node e) = e.id ∷ []

module _ {A B : Type 0} {owned : B → List ℕ} where
  after_quiet :
      (r : Result A) (s t : Store) (f : A → Action B)
      → IsFresh s
      → QuietEnds Any s (r, t)
      → ((a : A) → Opening owned (f a))
      → Opens owned s (continue r f t)
  after_quiet (err x) s t f h q k = Frame-same s t h q.0 q.1
  after_quiet (ok a) s t f h q k =
      let first = Frame-same s t h q.0 q.1 in
      chain (f a t) first ((k a).at t (Frame-IsFresh s t [] first))
    where
      chain : (p : Result B × Store) → Frame s t [] → Opens owned t p → Opens owned s p
      chain (err x, u) g o = Frame-trans s t u [] [] g o
      chain (ok b, u) g o = Frame-trans s t u [] (owned b) g o

  pub Opening-bind :
      (m : Action A) (f : A → Action B)
      → Quiet Any m
      → ((a : A) → Opening owned (f a))
      → Opening owned (m >>= f)
  Opening-bind m f h k = record { at = λ s g. let q = m s in after_quiet q.0 s q.1 f g (h.at s) k }

pub lift-Quiet : {A : Type 0} (r : Result A) → Quiet Any (lift r)
lift-Quiet r = Quiet-lift r (λ _ _. tt)

pub open_handle-Opening : (t : Term) → Opening one (open_handle t)
open_handle-Opening t = record { at = λ s h. unfold open_handle in Frame-open s h }

pub check_all-Quiet : (es : List Expr) → Quiet Any (check_all es)
unfolding check_all
check_all-Quiet [] = Quiet-pure [] tt
check_all-Quiet (e ∷ es) =
    Quiet-bind (require e) (λ _. check_all es >>= λ ts. pure (e.term ∷ ts)) (require-Quiet e)
      (λ _.
        Quiet-bind (check_all es) (λ ts. pure (e.term ∷ ts)) (check_all-Quiet es)
          (λ ts. Quiet-pure (e.term ∷ ts) tt))

pub function-Opening :
    (native : Native) (name : String) (es : List Expr) → Opening one (function native name es)
unfolding function
function-Opening native name es =
    Opening-bind (check_all es) (λ ts. lift (native.apply name ts) >>= open_handle)
      (check_all-Quiet es)
      λ ts.
        Opening-bind (lift (native.apply name ts)) open_handle (lift-Quiet (native.apply name ts))
          open_handle-Opening

pub relation-Opening :
    (native : Native) (name : String) (a b : Expr) → Opening one (relation native name a b)
unfolding relation
relation-Opening native name a b =
    Opening-bind (require a)
      (λ _. require b >>= λ _. lift (native.relate name a.term b.term) >>= open_handle)
      (require-Quiet a)
      λ _.
        Opening-bind (require b) (λ _. lift (native.relate name a.term b.term) >>= open_handle)
          (require-Quiet b)
          λ _.
            Opening-bind (lift (native.relate name a.term b.term)) open_handle
              (lift-Quiet (native.relate name a.term b.term)) open_handle-Opening

pub simplify-Opening : (native : Native) (e : Expr) → Opening one (simplify native e)
unfolding simplify
simplify-Opening native e =
    Opening-bind (require e) (λ _. lift (native.simplify e.term) >>= open_handle) (require-Quiet e)
      λ _.
        Opening-bind (lift (native.simplify e.term)) open_handle
          (lift-Quiet (native.simplify e.term)) open_handle-Opening

Frame-open_list :
    (ts : List Term) (s : Store) → IsFresh s → let (es, t) = open_list ts s in Frame s t (ids es)
unfolding open_list
Frame-open_list [] s h = Frame-refl s h
Frame-open_list (t ∷ ts) s h =
    let first = Frame-open s h in
    let (es, u) = open_list ts (opened s) in
    Frame-trans s (opened s) u (s.next ∷ []) (ids es) first
      (Frame-open_list ts (opened s) (Frame-IsFresh s (opened s) (s.next ∷ []) first))

pub args-Opening : (e : Expr) → Opening ids (args e)
unfolding args
args-Opening e =
    Opening-bind (require e) (λ _ s. let (es, t) = open_list (arguments_of e.term) s in (ok es, t))
      (require-Quiet e) (λ _. record { at = λ s h. Frame-open_list (arguments_of e.term) s h })

-- A function application as a value.
pub value_of-Opening :
    (m : Action Expr) → Opening one m → Opening of_value (m >>= λ e. pure (node e))
value_of-Opening m h = record { at = λ s g. let q = m s in go s q (h.at s g) }
  where
    go :
        (s : Store) (q : Result Expr × Store)
        → Opens one s q
        → Opens of_value s (continue q.0 (λ e. pure (node e)) q.1)
    go s (err x, t) o = o
    go s (ok e, t) o = o

-- Closing some of the objects that were opened leaves the others.
pub Frame-close_some :
    (s t : Store) (es : List Expr) (o : List ℕ)
    → Frame s t (ids es ++ o)
    → All (λ j. s.next ≤ j) (ids es)
    → All (λ i. contains i (ids es) ≡ false) o
    → All (λ i. (s.next ≤ i) × (i < t.next)) o
    → Frame s (close_all es t) o
Frame-close_some s t es o f low apart made =
    let g = Frame-close_all s t (ids es ++ o) es f low in
    Frame-owned s (close_all es t) (minus (ids es ++ o) (ids es)) o g
      (rw (next-close_all es t) made)
      λ i. ground (
        arith,
        contains-keep i (λ j. not (contains j (ids es))) (ids es ++ o),
        contains-append i (ids es) o,
        not_both i o apart,
      )
  where
    not_both :
        (i : ℕ) (l : List ℕ)
        → All (λ j. contains j (ids es) ≡ false) l
        → (contains i l && contains i (ids es)) ≡ false
    not_both i [] h = refl
    not_both i (j ∷ l) h = elim (Bool-cases (nat_beq i j)) [
      | inl same ↦ let e : i ≡ j = ground arith in rw e (ground (arith, h.0))
      | inr apart' ↦ rw apart' (not_both i l h.1)
    ]
