-- ===== src/Handles/Ops.antt =====
-- The operations on handles.
use fortsym.Base.{ℕ, suc, String, true, false, List, [], ◌∷◌, ok, err, native_status, if◌then◌else◌}
use fortsym.Handles.Nodes.{Term, kind_of, text_of, name_of, arguments_of}
use fortsym.Handles.State.{Native, Expr, Store, update, Action, pure, lift, ◌>>=◌, ◌>>◌}

-- The object that is made next.
abbrev pub new_handle : Term → Store → Expr
new_handle t s = record { id = s.next; term = t }

abbrev pub opened : Store → Store
opened s = record {
  next = suc s.next;
  live = update s.live s.next true;
  cached = update s.cached s.next false;
}

-- `Expr(arena, output)`
unfoldable pub open_handle : Term → Action Expr
open_handle t s = (ok (new_handle t s), opened s)

-- `Expr.close`: the native handle and the cached kind go; closing twice does nothing more.
unfoldable pub close : Expr → Store → Store
close e s = record s { live = update s.live e.id false; cached = update s.cached e.id false }

unfoldable pub close_all : List Expr → Store → Store
unfolding close
close_all [] s = s
close_all (e ∷ es) s = close_all es (close e s)

-- `Expr._require`: status 2 is "expression is closed".
unfoldable pub require : Expr → Action (Unit {0})
require e s = (if s.live e.id then ok tt else err (native_status 2), s)

-- `Expr.kind`
unfoldable pub get_kind : Expr → Action ℕ
unfolding require
get_kind e = do
  require e
  λ s. (ok (kind_of e.term), record s { cached = update s.cached e.id true })

-- `Expr.exact_text`
unfoldable pub exact_text : Expr → Action String
unfolding require
exact_text e = do require e; pure (text_of e.term)

-- `Expr.name`
unfoldable pub get_name : Expr → Action String
unfolding require
get_name e = do require e; pure (name_of e.term)

-- A new object for each node.
unfoldable pub open_list : List Term → Store → List Expr × Store
open_list [] s = ([], s)
open_list (t ∷ ts) s = let (es, u) = open_list ts (opened s) in (new_handle t s ∷ es, u)

-- `Expr.args`: a new object for each argument.
unfoldable pub args : Expr → Action (List Expr)
unfolding require open_list
args e = do require e; λ s. let (es, t) = open_list (arguments_of e.term) s in (ok es, t)

-- `[self._check(expr)._handle for expr in values]`
unfoldable pub check_all : List Expr → Action (List Term)
unfolding require
check_all [] = pure []
check_all (e ∷ es) = do require e; ts ← check_all es; pure (e.term ∷ ts)

-- `Arena.function` while no derivation is active: an active one observes the result behind its
-- opening.
unfoldable pub function : Native → String → List Expr → Action Expr
unfolding check_all open_handle
function native name es = do ts ← check_all es; t ← lift (native.apply name ts); open_handle t

-- `Arena.relation` on two expressions, while no derivation is active.
unfoldable pub relation : Native → String → Expr → Expr → Action Expr
unfolding require open_handle
relation native name left right = do
  require left
  require right
  t ← lift (native.relate name left.term right.term)
  open_handle t

-- `Expr.simplify` of an object that keeps no result, while no derivation is active.
unfoldable pub simplify : Native → Expr → Action Expr
unfolding require open_handle
simplify native e = do require e; t ← lift (native.simplify e.term); open_handle t
