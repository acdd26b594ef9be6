-- ===== src/Substitution/Sequence.antt =====
-- `subs` on a mapping, with the handles that it opens and closes.
use fortsym.Base.{Bool, Option, none, some, List, [], ◌∷◌, map, Result, if◌then◌else◌}
use fortsym.Handles.{
  Term, Expr, Action, pure, lift, ◌>>=◌, ◌>>◌, finally, close_all, require, check_all, open_handle,
}

-- What the native library makes of a term, the keys and what they are replaced by.
pub record Rewriter : Type 0 where
  pub substitute : Term → Term → Term → Result Term
  pub substitute_many : Term → List Term → List Term → Result Term
  pub expand : Term → Result Term

abbrev pub first_of : Expr × Expr → Expr
first_of (old, new) = old

abbrev pub second_of : Expr × Expr → Expr
second_of (old, new) = new

-- `Expr._subs_raw` on two expressions.
unfoldable pub subs_raw : Rewriter → Expr → Expr → Expr → Action Expr
unfolding require open_handle
subs_raw w e old new = do
  require old
  require new
  require e
  t ← lift (w.substitute e.term old.term new.term)
  open_handle t

-- `Expr._subs_many_raw` on expressions, of which there is one at least.
unfoldable pub subs_many_raw : Rewriter → Expr → List (Expr × Expr) → Action Expr
unfolding require check_all open_handle
subs_many_raw w e pairs = do
  olds ← check_all (map first_of pairs)
  news ← check_all (map second_of pairs)
  require e
  t ← lift (w.substitute_many e.term olds news)
  open_handle t

-- `Expr.expand` of an object that keeps no expansion yet.
unfoldable pub expand : Rewriter → Expr → Action Expr
unfolding require open_handle
expand w e = do require e; t ← lift (w.expand e.term); open_handle t

-- `Expr._subs_many`
unfoldable pub subs_many : Rewriter → Expr → List (Expr × Expr) → Action Expr
unfolding subs_many_raw expand close_all
subs_many w e pairs = do
  result ← subs_many_raw w e pairs
  finally (expand w result) (close_all (result ∷ []))

-- The loop over the pairs; `opened` has the current expression where it is not the first one.
unfoldable pub subs_each : Rewriter → Expr → List Expr → List (Expr × Expr) → Action Expr
unfolding subs_raw expand close_all
subs_each w current opened [] = finally (expand w current) (close_all opened)
subs_each w current opened ((old, new) ∷ pairs) =
    finally (subs_raw w current old new) (close_all opened) >>= λ next.
    subs_each w next (next ∷ []) pairs

-- `_cached_subs_many`, with the kept result that is usable for the mapping, where there is one.
abbrev pub kept_many : Rewriter → Expr → List (Expr × Expr) → Option Expr → Action Expr
kept_many w e pairs none = subs_many w e pairs
kept_many w e pairs (some result) = pure result

-- `subs` of an expression and a nonempty mapping, behind `_ordered_substitutions`: `safe` is the
-- verdict of `_can_use_subs_many`, and `kept` the kept result that is usable for the mapping.
unfoldable pub subs_mapping :
    Rewriter → Expr → List (Expr × Expr) → List Expr → Bool → Bool → Option Expr → Action Expr
unfolding subs_many subs_each close_all
subs_mapping w e pairs temporaries simultaneous safe kept =
    finally
      (if simultaneous
        then subs_many w e pairs
        else if safe
        then kept_many w e pairs kept
        else subs_each w e [] pairs)
      (close_all temporaries)
