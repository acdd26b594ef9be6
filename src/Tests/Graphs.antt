-- ===== src/Tests/Graphs.antt =====
-- The theorems on the audit of the modules at graphs of two or three names.
use fortsym.Base.{
  ℕ, ◌≤◌, ◌≡◌, ◌≢◌, ◌↔◌, ◌⊎◌, refl, true, false, List, [], ◌∷◌, All, key_error, nat_eq, list_eq,
}
use fortsym.Base.Dict.{Dict, lookup, insert}
use fortsym.Base.Order.{nat_order, place, sorted}
use fortsym.Base.Text.{codes}
use fortsym.Architecture.{
  SourceFile, Report, main, build_report, validated, done, raised, IsCycle, find_cycles,
  find_modules, report_of, stack_from, visit_each, visit, visit_all, declare, declare_all, locate,
  locations, find_duplicate_modules, dependency_graph, distinct, count_uses, count_layers,
  layer_edges,
}
use fortsym.Architecture.Cycles.{find_cycles-IsCycle, find_cycles-empty}
use fortsym.Architecture.Unknown.{graph_in, reported_unknown, build_report-unknown}
use fortsym.Architecture.Verdicts.{declarations, is_closed, main-validated}

abbrev ring : Dict ℕ (List ℕ)
ring = (1, 2 ∷ []) ∷ (2, 3 ∷ []) ∷ (3, 1 ∷ 4 ∷ []) ∷ []

ring_found : find_cycles ring ≡ done ((1 ∷ 2 ∷ 3 ∷ 1 ∷ []) ∷ [])
unfolding find_cycles visit_all visit visit_each stack_from sorted place lookup insert
ring_found = refl

find_cycles-IsCycle_example :
    (cycles : List (List ℕ)) × (find_cycles ring ≡ done cycles) × All (IsCycle ring) cycles
find_cycles-IsCycle_example = find_cycles-IsCycle ring

find_cycles-empty_example : (find_cycles ring ≡ done []) ↔ ((c : List ℕ) → ¬ IsCycle ring c)
find_cycles-empty_example = find_cycles-empty ring

abbrev engine : SourceFile
engine = record {
  path = codes "src/core/engine.f90";
  stem = codes "engine";
  owner = codes "core";
  declared = codes "Engine" ∷ [];
  used = [];
  uses_facade = false;
}

abbrev rules : SourceFile
rules = record {
  path = codes "src/rules/rules.f90";
  stem = codes "rules";
  owner = codes "rules";
  declared = codes "rules" ∷ [];
  used = codes "engine" ∷ codes "ENGINE" ∷ [];
  uses_facade = false;
}

abbrev files : List SourceFile
files = engine ∷ rules ∷ []

build_report-unknown_example :
    ((reported_unknown files ≡ [])
      × ((report : Report) × (build_report files ≡ done report)
          × (report.violations.unknown_internal_dependencies ≡ [])))
    ⊎ ((reported_unknown files ≢ []) × (build_report files ≡ raised key_error))
build_report-unknown_example = build_report-unknown files

abbrev written : Report
written = report_of files [] (((codes "rules", codes "core"), 1) ∷ [])

files_pass : main files ≡ done (validated written)
unfolding main build_report find_cycles visit_all visit visit_each stack_from sorted place lookup
    insert declare declare_all locate locations find_duplicate_modules dependency_graph distinct
    count_uses count_layers layer_edges
files_pass = refl

main-validated_example :
    (¬ IsCycle (graph_in files) (codes "rules" ∷ codes "engine" ∷ []))
    × (is_closed (find_modules files).0 (graph_in files) ≡ true)
    × (declarations (codes "engine") files ≤ 1)
main-validated_example =
    main-validated files written (codes "engine") (codes "rules" ∷ codes "engine" ∷ []) files_pass
