-- ===== src/Boolean/Ownership/Equivalence.antt =====
-- `Equivalent` of `True` and a name returns an expression that it has closed.
use fortsym.Base.{String, ◌≡◌, true, false, [], ◌∷◌, ok, arith}
use fortsym.Handles.{Native, symbol, Expr, Store, new_handle}
use fortsym.Boolean.Values.{Argument, identifier, node}
use fortsym.Boolean.Functions.{equivalent}

-- Where the native library makes a symbol of a name, `Equivalent(True, name)` returns the symbol's
-- expression closed: `And` keeps its single argument, and the caller then closes it as a temporary.
pub equivalent_returns_closed :
    (native : Native) (name : String) (s : Store)
    → native.make_symbol name ≡ ok (symbol name)
    → (e : Expr) × (t : Store) × (equivalent native (Argument.flag true ∷ identifier name ∷ []) s
        ≡ (ok (node e), t))
      × (t.live e.id ≡ false)
unfolding equivalent
equivalent_returns_closed native name s h = (
  new_handle (symbol name) s,
  (equivalent native (Argument.flag true ∷ identifier name ∷ []) s).1,
  ground arith,
  ground arith,
)
