-- ===== src/Architecture/Reports.antt =====
-- `layer_edges`, `build_report` and `main`.
use fortsym.Base.{
  ℕ, suc, ◌+◌, Bool, true, false, not, ◌&&◌, List, [], ◌∷◌, ◌++◌, map, length, keep, Option, none,
  some, ◌/=◌, nat_eq, list_eq, pair_eq, key_error, Result, ok, err, ◌>>=◌, if◌then◌else◌, nat_beq,
}
use fortsym.Base.Dict.{Dict, keys, values, lookup, insert}
use fortsym.Base.Order.{sorted, list_order, nat_order, pair_order}
use fortsym.Base.Text.{Text, codes, lower}
use fortsym.Architecture.Search.{Outcome, done, raised, ◌then◌, find_cycles}
use fortsym.Architecture.Modules.{
  SourceFile, SourceUnit, find_modules, find_duplicate_modules, dependency_graph,
}

-- `modules[name].parent.name`
abbrev pub layer_of : Option SourceFile → Result Text
layer_of none = err key_error
layer_of (some file) = ok file.owner

abbrev pub count_of : Option ℕ → ℕ
count_of none = 0
count_of (some n) = n

abbrev pub Counts : Type 0
Counts = Dict (Text × Text) ℕ

abbrev pub count_edge : Text → Text → Counts → Counts
count_edge source target counts =
    if source /= target
    then insert (source, target) (suc (count_of (lookup (source, target) counts))) counts
    else counts

-- The inner and the outer loop of `layer_edges`.
unfoldable pub count_uses : Dict Text SourceFile → Text → List Text → Counts → Result Counts
unfolding lookup insert
count_uses modules source [] counts = ok counts
count_uses modules source (name ∷ names) counts = layer_of (lookup name modules) >>= λ target.
    count_uses modules source names (count_edge source target counts)

unfoldable pub count_layers : Dict Text SourceFile → Dict Text (List Text) → Counts → Result Counts
unfolding count_uses
count_layers modules [] counts = ok counts
count_layers modules ((name, used) ∷ graph) counts = layer_of (lookup name modules) >>= λ source.
    count_uses modules source used counts >>= λ counted. count_layers modules graph counted

unfoldable pub layer_edges : Dict Text (List Text) → Dict Text SourceFile → Result Counts
unfolding count_layers sorted
layer_edges graph modules = count_layers modules graph [] >>= λ counts. ok (sorted counts)

-- A unit with a single module that is not named as its file is.
abbrev pub is_mismatch : SourceUnit → Bool
is_mismatch u = is_other u.modules
  where
    is_other : List Text → Bool
    is_other [] = false
    is_other (name ∷ []) = lower u.stem /= name
    is_other (name ∷ other ∷ names) = false

abbrev pub first_name : List Text → Text
first_name [] = []
first_name (name ∷ names) = name

abbrev pub mismatch_line : SourceUnit → Text
mismatch_line u = u.path ++ (codes ": " ++ first_name u.modules)

abbrev pub has_modules : SourceUnit → Bool
has_modules u = not (nat_beq (length u.modules) 0)

abbrev pub total_length : List (List Text) → ℕ
total_length [] = 0
total_length (l ∷ ls) = length l + total_length ls

pub record Violations : Type 0 where
  pub duplicate_modules : List Text
  pub module_file_mismatches : List Text
  pub unknown_internal_dependencies : List Text
  pub facade_importers : List Text
  pub cycles : List (List Text)

-- What the summary counts beside the violations.
pub record Summary : Type 0 where
  pub source_units : ℕ
  pub module_units : ℕ
  pub modules : ℕ
  pub internal_edges : ℕ

pub record Report : Type 0 where
  pub summary : Summary
  pub violations : Violations
  pub non_module_units : List Text
  pub layer_edges : Counts

abbrev pub from_result : {A : Type 0} → Result A → Outcome A
from_result (ok a) = done a
from_result (err x) = raised x

-- The report on what the scans, the search and the count of the layers give.
abbrev pub report_of : List SourceFile → List (List Text) → Counts → Report
report_of files cycles edges =
    let (modules, units) = find_modules files in
    let (graph, unknown, facade) = dependency_graph modules in
    record {
      summary = record {
        source_units = length units;
        module_units = length (keep has_modules units);
        modules = length (keys modules);
        internal_edges = total_length (values graph);
      };
      violations = record {
        duplicate_modules = find_duplicate_modules units;
        module_file_mismatches = sorted (map mismatch_line (keep is_mismatch units));
        unknown_internal_dependencies = unknown;
        facade_importers = facade;
        cycles = cycles;
      };
      non_module_units = map (λ u. u.path) (keep (λ u. not (has_modules u)) units);
      layer_edges = edges;
    }

-- `build_report`, without the list of the modules.
unfoldable pub build_report : List SourceFile → Outcome Report
unfolding find_duplicate_modules dependency_graph find_cycles layer_edges sorted
build_report files =
    let modules = (find_modules files).0 in
    let graph = (dependency_graph modules).0 in
    find_cycles graph then λ cycles.
    from_result (layer_edges graph modules) then λ edges. done (report_of files cycles edges)

abbrev pub is_nil : {A : Type 0} → List A → Bool
is_nil [] = true
is_nil (x ∷ l) = false

-- `not any(violations.values())`
abbrev pub is_clean : Violations → Bool
is_clean v =
    is_nil v.duplicate_modules
    && is_nil v.module_file_mismatches
    && is_nil v.unknown_internal_dependencies
    && is_nil v.facade_importers
    && is_nil v.cycles

-- The report that is written, or the `SystemExit` with the violations.
pub data Verdict : Type 0 where
  validated : Report → Verdict
  exits : Violations → Verdict

-- `main`, without the files that it reads and writes.
unfoldable pub main : List SourceFile → Outcome Verdict
unfolding build_report
main files = build_report files then λ report.
    done (if is_clean report.violations then validated report else exits report.violations)
