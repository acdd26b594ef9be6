-- ===== src/Architecture/Modules.antt =====
-- The modules that the files declare, and what they use. What the three patterns find in a file
-- is a part of the file.
use fortsym.Base.{
  Bool, not, List, [], ◌∷◌, ◌++◌, map, length, keep, Option, none, some, nat_eq, list_eq, Eq,
  contains, ltb, if◌then◌else◌, string_eq,
}
use fortsym.Base.Dict.{Dict, keys, lookup, insert}
use fortsym.Base.Order.{sorted, list_order, nat_order}
use fortsym.Base.Text.{Text, codes, lower, join}

-- `declared`, `used`: all that `MODULE_PATTERN` and `USE_PATTERN` find; `uses_facade`: whether
-- `FACADE_USE_PATTERN` finds anything. `owner` is the name of the file's directory.
pub record SourceFile : Type 0 where
  pub path : Text
  pub stem : Text
  pub owner : Text
  pub declared : List Text
  pub used : List Text
  pub uses_facade : Bool

pub record SourceUnit : Type 0 where
  pub path : Text
  pub stem : Text
  pub owner : Text
  pub modules : List Text

module _ {K : Type 0} ⦃e : Eq K⦄ where
  -- `d.setdefault(k, v)`
  abbrev pub setdefault : {V : Type 0} → K → V → Dict K V → Dict K V
  setdefault k v d = if contains k (keys d) then d else insert k v d

  -- `set(l)`
  unfoldable pub distinct : List K → List K
  distinct [] = []
  distinct (x ∷ l) = let rest = distinct l in if contains x l then rest else x ∷ rest

abbrev pub names_of : SourceFile → List Text
names_of file = map lower file.declared

abbrev pub unit_of : SourceFile → SourceUnit
unit_of file = record {
  path = file.path;
  stem = file.stem;
  owner = file.owner;
  modules = names_of file;
}

-- The inner loop of `find_modules`.
unfoldable pub declare : SourceFile → List Text → Dict Text SourceFile → Dict Text SourceFile
unfolding insert
declare file [] d = d
declare file (name ∷ names) d = declare file names (setdefault name file d)

unfoldable pub declare_all : List SourceFile → Dict Text SourceFile → Dict Text SourceFile
unfolding declare
declare_all [] d = d
declare_all (file ∷ files) d = declare_all files (declare file (names_of file) d)

-- `find_modules`, on the files in the order of their paths.
abbrev pub find_modules : List SourceFile → Dict Text SourceFile × List SourceUnit
find_modules files = (declare_all files [], map unit_of files)

abbrev pub paths_of : Option (List Text) → List Text
paths_of none = []
paths_of (some l) = l

-- `locations.setdefault(name, []).append(path)`
abbrev pub add_path : Text → Text → Dict Text (List Text) → Dict Text (List Text)
add_path name path d = insert name (paths_of (lookup name d) ++ path ∷ []) d

unfoldable pub locate : Text → List Text → Dict Text (List Text) → Dict Text (List Text)
unfolding insert lookup
locate path [] d = d
locate path (name ∷ names) d = locate path names (add_path name path d)

unfoldable pub locations : List SourceUnit → Dict Text (List Text) → Dict Text (List Text)
unfolding locate
locations [] d = d
locations (u ∷ units) d = locations units (locate u.path u.modules d)

abbrev pub is_shared : Text × List Text → Bool
is_shared (name, paths) = ltb 1 (length paths)

abbrev pub shared_line : Text × List Text → Text
shared_line (name, paths) = name ++ (codes ": " ++ join (codes ", ") paths)

unfoldable pub find_duplicate_modules : List SourceUnit → List Text
unfolding locations sorted
find_duplicate_modules units = sorted (map shared_line (keep is_shared (locations units [])))

-- The names that a module uses, and the lines for those that are no modules.
abbrev pub uses_of : SourceFile → List Text
uses_of file = distinct (map lower file.used)

abbrev pub is_unknown : Dict Text SourceFile → Text → Bool
is_unknown modules name = not (contains name (keys modules))

abbrev pub unknown_line : Text → Text → Text
unknown_line name used = name ++ (codes " -> " ++ used)

abbrev pub graph_of : Dict Text SourceFile → Dict Text (List Text)
graph_of [] = []
graph_of ((name, file) ∷ d) = (name, uses_of file) ∷ graph_of d

abbrev pub unknown_lines : Dict Text SourceFile → Dict Text (List Text) → List Text
unknown_lines modules [] = []
unknown_lines modules ((name, used) ∷ graph) =
    map (unknown_line name) (keep (is_unknown modules) used) ++ unknown_lines modules graph

abbrev pub facade_users : Dict Text SourceFile → List Text
facade_users [] = []
facade_users ((name, file) ∷ d) = if file.uses_facade then name ∷ facade_users d else facade_users d

-- `dependency_graph`
unfoldable pub dependency_graph :
    Dict Text SourceFile → Dict Text (List Text) × List Text × List Text
unfolding sorted distinct
dependency_graph modules =
    let graph = graph_of modules in
    (
      graph,
      sorted (distinct (unknown_lines modules graph)),
      sorted (distinct (facade_users modules)),
    )
