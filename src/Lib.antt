-- ===== src/Lib.antt =====
-- fortsym: a Python front end over a native symbolic engine, and the scripts that guard its API.
--
-- The program has three layers. A native library builds and rewrites expressions behind a C ABI.
-- python/fortsym/__init__.py wraps its handles in objects (`Arena`, `Expr`), declares tensor slots and
-- indices, and keeps answers while the assumptions of an arena stay the same. On it stands
-- python/fortsym/sympy/__init__.py, which gives SymPy's functions and closes every handle that it
-- opens for its own use. scripts/ holds checks of the published API.
--
-- Base: shared names; integers, dictionaries in insertion order, texts as code points, sorting,
--   exceptions as values.
-- Declarations: `_symmetry_kind`, `_normalize_symmetries`, `Orientation`, `Signature`,
--   `IndexType`, `Index` of python/fortsym/__init__.py (Symmetry, Signature, IndexSpace) and
--   `TensorSymmetry` of python/fortsym/sympy/__init__.py (TensorSymmetry).
-- Handles: `Expr` objects by identity, whether each has a native handle, and the operations that
--   open, close and read them. A state-passing action keeps what was done before a raise. Frame says
--   which handles a run leaves open.
-- Boolean: `_boolean_values`, `_keep_boolean_value`, `And`, `Or`, `Not`, `Xor`, `Implies`,
--   `Equivalent`, and `_relational` on two expressions, of python/fortsym/sympy/__init__.py. Truth names
--   what a native library must satisfy for a truth of terms; Results, Refinement and Connectives build on it.
-- Matrices: `_matrix_index`, `_flat_slice`, `_matrix_slice`, `_entry`, `minor_submatrix`, `__eq__` and
--   `_matrix_expression` of `Matrix` in python/fortsym/sympy/__init__.py; the indices of a slice are
--   given as Python's `slice.indices` lists them.
-- Assumptions: `assume`, `assume_relation`, push and pop of an arena, `_AssumptionScope`, the epoch
--   that counts changes, the predicates of `Matrix` with their caches, and `Derivation._step` and
--   `assume` of python/fortsym/derivation.py.
-- Derivations: `Derivation` of python/fortsym/derivation.py as a context manager, and `export_sympy`; the
--   native recorder is a record of functions on a state. Blocks runs programs of such blocks.
-- ApiDiff: `unique_records`, `keyed`, `compare` and `diff` of scripts/diff_sympy_api.py, for records
--   and keys of any type with an equality test and an order.
-- Classification: the layers and the rows of the report of scripts/classify_sympy_api.py; the names
--   that its parsers find are given.
-- Release: `validate` of scripts/check_sympy_api_differences.py and scripts/check_api_naming_policy.py,
--   and the checks of inventory, classification, naming, differences
--   and feature matrix of scripts/check_release_profile.py.
-- Printing: `_split_top_level` and `_pretty_expanded` of python/fortsym/__init__.py (Split); the `while`
--   gets a round for each character and one for the end, since each round but the last moves on.
-- Architecture: scripts/audit_module_architecture.py. What its three patterns find in a file is part
--   of the file. Modules has the scans, Search the search for cycles, Reports the report and `main`. The
--   recursion of `visit` gets as many rounds as there are names: each call paints one more name.
--   Python's limit on the depth of recursion is not modelled, nor the list of the modules in the report.
--   Paths, States, Visits, Rounds and Ranks have the lemmas on a visit.
-- Substitution: `subs` on a mapping, `_can_use_subs_many` and `_cached_subs_many` of
--   python/fortsym/sympy/__init__.py, `_subs_raw`, `_subs_many` of python/fortsym/__init__.py, for pairs
--   in the order of `_ordered_substitutions`. Replace is a reference: the replacement that
--   src/core/fortsym_subs.f90 makes, without the constructors that normalise a sum, a product or a power.
-- Triage: `parse_shards` of scripts/nightly_triage.py and the text that its `bisect` makes for the `step`
--   command. The digits of a number get a round more than the number, so that each has one.
-- Tests: the theorems at concrete inputs.
--
-- The native library is a parameter: a record of functions (`Native`, `Kernel`) that return a node,
-- a verdict or a status. Other loops are structural, without fuel.
--
-- Not modelled: the native library, the foreign-function declarations, printing and file access,
-- messages of exceptions, arguments of other classes that Python's `int` or `str` would convert,
-- results that an expression keeps (of `simplify`, `expand`, `diff`), `Expr.is_algebraic`,
-- `Fraction` and `float` arguments of the Boolean functions, `Wild` keys and values of `subs`, what
-- an active derivation observes and raises behind a native result (handles are those of an arena
-- without one), and the parts of the adapter beyond the functions above.
pub mod Base
pub mod Declarations
pub mod Derivations
pub mod Handles
pub mod Boolean
pub mod ApiDiff
pub mod Classification
pub mod Architecture
pub mod Substitution
pub mod Triage
pub mod Printing
pub mod Matrices
pub mod Release
pub mod Assumptions
pub mod Tests
