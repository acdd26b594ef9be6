-- ===== src/Substitution/Ownership.antt =====
-- The handles of `subs` on a mapping.
use fortsym.Base.{ℕ, Option, none, some, Bool, true, false, List, [], ◌∷◌, map, Result, ok, err}
use fortsym.Handles.{
  Term, Expr, Store, pure, lift, continue, ◌>>=◌, finally, close_all, require, check_all,
  open_handle,
}
use fortsym.Handles.Frame.{ids, Frame, Frame-refl}
use fortsym.Boolean.Ownership.Quiet.{require-Quiet}
use fortsym.Boolean.Ownership.Opening.{
  Opens, Opening, one, Opening-bind, lift-Quiet, check_all-Quiet, open_handle-Opening,
}
use fortsym.Boolean.Ownership.Negation.{finally_close}
use fortsym.Substitution.Sequence.{
  Rewriter, first_of, second_of, subs_raw, subs_many_raw, expand, subs_many, subs_each,
  subs_mapping,
}

-- A native result becomes one handle.
lifted-Opening : (r : Result Term) → Opening one (lift r >>= open_handle)
lifted-Opening r = Opening-bind (lift r) open_handle (lift-Quiet r) open_handle-Opening

required-Opening :
    (e : Expr) (r : Result Term) → Opening one (require e >>= λ _. lift r >>= open_handle)
required-Opening e r =
    Opening-bind (require e) (λ _. lift r >>= open_handle) (require-Quiet e) (λ _. lifted-Opening r)

subs_raw-Opening : (w : Rewriter) (e old new : Expr) → Opening one (subs_raw w e old new)
unfolding subs_raw
subs_raw-Opening w e old new =
    let last = λ (_ : Unit {0}).
      require e >>= λ _. lift (w.substitute e.term old.term new.term) >>= open_handle in
    Opening-bind (require old) (λ _. require new >>= last) (require-Quiet old)
      λ _.
        Opening-bind (require new) last (require-Quiet new)
          (λ _. required-Opening e (w.substitute e.term old.term new.term))

subs_many_raw-Opening :
    (w : Rewriter) (e : Expr) (pairs : List (Expr × Expr)) → Opening one (subs_many_raw w e pairs)
unfolding subs_many_raw
subs_many_raw-Opening w e pairs =
    let last = λ (olds news : List Term).
      require e >>= λ _. lift (w.substitute_many e.term olds news) >>= open_handle in
    Opening-bind (check_all (map first_of pairs))
      (λ olds. check_all (map second_of pairs) >>= last olds) (check_all-Quiet (map first_of pairs))
      λ olds.
        Opening-bind (check_all (map second_of pairs)) (last olds)
          (check_all-Quiet (map second_of pairs))
          (λ news. required-Opening e (w.substitute_many e.term olds news))

expand-Opening : (w : Rewriter) (e : Expr) → Opening one (expand w e)
unfolding expand
expand-Opening w e = required-Opening e (w.expand e.term)

subs_many-Opening :
    (w : Rewriter) (e : Expr) (pairs : List (Expr × Expr)) → Opening one (subs_many w e pairs)
unfolding subs_many
subs_many-Opening w e pairs = record {
  at = λ s h. go s (subs_many_raw w e pairs s) ((subs_many_raw-Opening w e pairs).at s h);
}
  where
    go :
        (s : Store) (q : Result Expr × Store)
        → Opens one s q
        → Opens one s (continue q.0 (λ r. finally (expand w r) (close_all (r ∷ []))) q.1)
    go s (err x, t) o = o
    go s (ok r, t) o = finally_close (r ∷ []) (expand w r) s t o (expand-Opening w r)

-- The loop closes what the round before opened.
subs_each-Opens :
    (w : Rewriter) (current : Expr) (opened : List Expr) (pairs : List (Expr × Expr)) (s t : Store)
    → Frame s t (ids opened)
    → Opens one s (subs_each w current opened pairs t)
unfolding subs_each
subs_each-Opens w current opened [] s t f =
    finally_close opened (expand w current) s t f (expand-Opening w current)
subs_each-Opens w current opened ((old, new) ∷ pairs) s t f =
    go (finally (subs_raw w current old new) (close_all opened) t)
      (finally_close opened (subs_raw w current old new) s t f (subs_raw-Opening w current old new))
      (λ next u. subs_each-Opens w next (next ∷ []) pairs s u)
  where
    go :
        (q : Result Expr × Store)
        → Opens one s q
        → ((next : Expr) (u : Store)
            → Frame s u (next.id ∷ [])
            → Opens one s (subs_each w next (next ∷ []) pairs u))
        → Opens one s (continue q.0 (λ next. subs_each w next (next ∷ []) pairs) q.1)
    go (err x, u) o later = o
    go (ok next, u) o later = later next u o

-- The handles that a call opens for its result: none where it returns a kept result.
abbrev pub made_for : Bool → Bool → Option Expr → Expr → List ℕ
made_for false true (some kept) result = []
made_for simultaneous safe kept result = result.id ∷ []

-- While no derivation is recorded, `subs` of an expression and a nonempty mapping whose keys and
-- values are expressions, and whose temporaries are what was opened since the store before them,
-- leaves open, on every branch, the expression that it returns and nothing else, or nothing where it
-- returns a kept result or raises: the temporaries and every intermediate expression are closed, and
-- no older handle is opened or closed.
pub subs_mapping-Opens :
    (w : Rewriter) (e : Expr) (pairs : List (Expr × Expr)) (temporaries : List Expr)
    (simultaneous safe : Bool) (kept : Option Expr) (s t : Store)
    → Frame s t (ids temporaries)
    → Opens
        (made_for simultaneous safe kept)
        s
        (subs_mapping w e pairs temporaries simultaneous safe kept t)
unfolding subs_mapping
subs_mapping-Opens w e pairs temporaries true safe kept s t f =
    finally_close temporaries (subs_many w e pairs) s t f (subs_many-Opening w e pairs)
subs_mapping-Opens w e pairs temporaries false true none s t f =
    finally_close temporaries (subs_many w e pairs) s t f (subs_many-Opening w e pairs)
subs_mapping-Opens w e pairs temporaries false true (some kept) s t f =
    finally_close {owned = made_for false true (some kept)} temporaries (pure kept) s t f
      (record { at = λ u h. Frame-refl u h })
subs_mapping-Opens w e pairs temporaries false false kept s t f =
    finally_close temporaries (subs_each w e [] pairs) s t f
      (record { at = λ u h. subs_each-Opens w e [] pairs u u (Frame-refl u h) })
