-- ===== src/Handles/Nodes.antt =====
-- The nodes of the native expression graph, as the C ABI shows them.
use fortsym.Base.{ℕ, String, List, [], ◌∷◌}

-- `number` has its kind (1, 2, 3 or 10 to 13) and its exact
-- text.
mutual
  pub data Term : Type 0 where
    number : ℕ → String → Term
    symbol constant : String → Term
    add mul : Terms → Term
    pow : Term → Term → Term
    func : String → Terms → Term

  pub data Terms : Type 0 where
    nil : Terms
    cons : Term → Terms → Terms

abbrev pub to_list : Terms → List Term
to_list nil = []
to_list (cons t ts) = t ∷ to_list ts

abbrev pub from_list : List Term → Terms
from_list [] = nil
from_list (t ∷ ts) = cons t (from_list ts)

-- `expr_kind`
abbrev pub kind_of : Term → ℕ
kind_of (number k text) = k
kind_of (symbol s) = 4
kind_of (constant s) = 5
kind_of (add ts) = 6
kind_of (mul ts) = 7
kind_of (pow b e) = 8
kind_of (func s ts) = 9

-- `expr_exact_text`
abbrev pub text_of : Term → String
text_of (number k text) = text
text_of t = ""

-- `expr_name`
abbrev pub name_of : Term → String
name_of (symbol s) = s
name_of (constant s) = s
name_of (func s ts) = s
name_of t = ""

-- `expr_argument` for every index below `expr_arity`
abbrev pub arguments_of : Term → List Term
arguments_of (add ts) = to_list ts
arguments_of (mul ts) = to_list ts
arguments_of (pow b e) = b ∷ e ∷ []
arguments_of (func s ts) = to_list ts
arguments_of t = []
