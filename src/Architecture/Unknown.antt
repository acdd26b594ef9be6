-- ===== src/Architecture/Unknown.antt =====
-- The names that are used and are no modules, and the report on them.
use fortsym.Base.{
  ◌≡◌, ◌≢◌, refl, sym, ap, ◌∙◌, ◌⊎◌, inl, inr, true, false, List, [], ◌∷◌, ◌++◌, map, length, keep,
  is_some, nat_eq, list_eq, pair_eq, Eq, contains, beq_refl, Option-cases, key_error, Result, ok,
  err, no_length, Bool-cases, arith,
}
use fortsym.Base.Dict.{Dict, keys, lookup}
use fortsym.Base.Order.{Order, sorted, length-sorted, list_order, pair_order, nat_order}
use fortsym.Base.Text.{Text}
use fortsym.Architecture.Search.{done, raised, find_cycles}
use fortsym.Architecture.Cycles.{find_cycles-IsCycle}
use fortsym.Architecture.Modules.{
  SourceFile, is_unknown, unknown_line, unknown_lines, distinct, graph_of, dependency_graph,
  find_modules, find_duplicate_modules,
}
use fortsym.Architecture.Reports.{
  Counts, count_edge, count_uses, count_layers, layer_edges, Report, report_of, build_report,
}

module _ {K : Type 0} ⦃e : Eq K⦄ where
  nonempty_distinct : (l : List K) → distinct l ≡ [] → l ≡ []
  unfolding distinct
  nonempty_distinct [] h = refl
  nonempty_distinct (x ∷ l) h = elim (Bool-cases (contains x l)) [
    | inl more ↦
        let none_left : l ≡ [] = nonempty_distinct l (rw more at h) in
        absurd (ground (arith, ap (contains x) none_left))
    | inr last ↦ absurd (cc (rw last at h))
  ]

  pub contains-keys-lookup :
      {V : Type 0} (k : K) (d : Dict K V) → contains k (keys d) ≡ is_some (lookup k d)
  unfolding lookup
  contains-keys-lookup k [] = refl
  contains-keys-lookup k ((j, v) ∷ d) =
      ground (arith, e.beq_iff k j, e.beq_iff j k, contains-keys-lookup k d)

-- `sorted(set(l))` is empty only for an empty list.
pub sorted-distinct-empty :
    {K : Type 0} ⦃e : Eq K⦄ ⦃o : Order K⦄ (l : List K) → sorted (distinct l) ≡ [] → l ≡ []
sorted-distinct-empty l h =
    nonempty_distinct l (no_length (distinct l) (sym (length-sorted (distinct l)) ∙ ap length h))

module _ (modules : Dict Text SourceFile) where
  -- The lines of a part of the graph and the count of its layers.
  abbrev Counted : List Text → Result Counts → Type 0
  Counted lines r =
      ((lines ≡ []) × ((counts : Counts) × (r ≡ ok counts))) ⊎ ((lines ≢ []) × (r ≡ err key_error))

  count_uses-Counted :
      (name source : Text) (used : List Text) (counts : Counts)
      → Counted
          (map (unknown_line name) (keep (is_unknown modules) used))
          (count_uses modules source used counts)
  unfolding count_uses
  count_uses-Counted name source [] counts = inl (refl, (counts, refl))
  count_uses-Counted name source (u ∷ used) counts = elim (Option-cases (lookup u modules)) [
    | inl missing ↦
        let out : contains u (keys modules) ≡ false =
          contains-keys-lookup u modules ∙ ap is_some missing in
        rw (missing, out) (inr (λ p. cc, refl))
    | inr (file, found) ↦
        let is_in : contains u (keys modules) ≡ true =
          contains-keys-lookup u modules ∙ ap is_some found in
        rw (found, is_in)
          (count_uses-Counted name source used (count_edge source file.owner counts))
  ]

  append_nonempty : {A : Type 0} (k l : List A) → k ≢ [] → k ++ l ≢ []
  append_nonempty [] l h = absurd (h refl)
  append_nonempty (x ∷ k) l h = λ p. cc

  -- `graph` has only names of modules.
  count_layers-Counted :
      (graph : Dict Text (List Text)) (counts : Counts)
      → ((name : Text) → contains name (keys graph) ≡ true → contains name (keys modules) ≡ true)
      → Counted (unknown_lines modules graph) (count_layers modules graph counts)
  unfolding count_layers
  count_layers-Counted [] counts h = inl (refl, (counts, refl))
  count_layers-Counted ((name, used) ∷ graph) counts h = elim (Option-cases (lookup name modules)) [
    | inl missing ↦
        absurd (ground (arith, contains-keys-lookup name modules, h name, beq_refl name))
    | inr (file, found) ↦ elim (count_uses-Counted name file.owner used counts) [
      | inr (some_unknown, r) ↦
          rw (found, r)
            (inr (
              append_nonempty (map (unknown_line name) (keep (is_unknown modules) used))
                  (unknown_lines modules graph) some_unknown,
              refl,
            ))
      | inl (all_known, (counted, r)) ↦
          rw (found, r, all_known) (count_layers-Counted graph counted (λ k m. h k (ground arith)))
    ]
  ]

  keys_graph : (d : Dict Text SourceFile) → keys (graph_of d) ≡ keys d
  keys_graph [] = refl
  keys_graph ((name, file) ∷ d) = ap (λ l. name ∷ l) (keys_graph d)

  pub layer_edges-Counted :
      Counted (unknown_lines modules (graph_of modules)) (layer_edges (graph_of modules) modules)
  unfolding layer_edges
  layer_edges-Counted =
      elim (count_layers-Counted (graph_of modules) []
        (λ name m. ap (contains name) (sym (keys_graph modules)) ∙ m)) [
          | inl (all_known, (counts, r)) ↦ inl (all_known, (sorted counts, rw r refl))
          | inr (some_unknown, r) ↦ inr (some_unknown, rw r refl)
        ]

-- The lines on the unknown names that `dependency_graph` returns.
abbrev pub reported_unknown : List SourceFile → List Text
reported_unknown files = (dependency_graph (find_modules files).0).1

abbrev pub graph_in : List SourceFile → Dict Text (List Text)
graph_in files = graph_of (find_modules files).0

-- What the report on the files says.
pub record IsReport (files : List SourceFile) (report : Report) : Type 0 where
  pub built : build_report files ≡ done report
  pub all_known : unknown_lines (find_modules files).0 (graph_in files) ≡ []
  pub unknown : report.violations.unknown_internal_dependencies ≡ []
  pub cycles : find_cycles (graph_in files) ≡ done report.violations.cycles
  pub duplicates :
      report.violations.duplicate_modules ≡ find_duplicate_modules (find_modules files).1

pub build_report-IsReport :
    (files : List SourceFile)
    → ((reported_unknown files ≡ []) × ((report : Report) × IsReport files report))
      ⊎ ((reported_unknown files ≢ []) × (build_report files ≡ raised key_error))
unfolding build_report dependency_graph sorted distinct
build_report-IsReport files =
    let none_known = ap (λ l. sorted (distinct l)) in
    let (cycles, found, all) = find_cycles-IsCycle (graph_in files) in
    elim (layer_edges-Counted (find_modules files).0) [
      | inl (all_known, (edges, r)) ↦ inl (
        none_known all_known,
        (
          report_of files cycles edges,
          record {
            built = rw (found, r) refl;
            all_known = all_known;
            unknown = none_known all_known;
            cycles = found;
            duplicates = refl;
          },
        ),
      )
      | inr (some_unknown, r) ↦ inr (
        λ h.
            some_unknown
              (sorted-distinct-empty (unknown_lines (find_modules files).0 (graph_in files)) h),
        rw (found, r) refl,
      )
    ]

-- Where every name that a module uses is a module, the report is built and its list of unknown
-- dependencies is empty; where `dependency_graph` reports an unknown one, `build_report` raises a
-- `KeyError`.
pub build_report-unknown :
    (files : List SourceFile)
    → ((reported_unknown files ≡ [])
        × ((report : Report) × (build_report files ≡ done report)
            × (report.violations.unknown_internal_dependencies ≡ [])))
      ⊎ ((reported_unknown files ≢ []) × (build_report files ≡ raised key_error))
build_report-unknown files = elim (build_report-IsReport files) [
  | inl (none_unknown, (report, is)) ↦ inl (none_unknown, (report, is.built, is.unknown))
  | inr some_unknown ↦ inr some_unknown
]
