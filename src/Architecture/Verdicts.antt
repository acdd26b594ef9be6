-- ===== src/Architecture/Verdicts.antt =====
-- The files for which `main` writes a report.
use fortsym.Base.{
  ℕ, ◌+◌, ◌≤◌, ◌≡◌, refl, sym, ap, ◌∙◌, inl, inr, Bool, true, List, [], ◌∷◌, ◌++◌, map, length,
  length-append, keep, ◌==◌, nat_eq, list_eq, contains, all, if◌then◌else◌, no_length, length-map,
  Bool-cases, ltb, arith,
}
use fortsym.Base.Dict.{Dict, keys, values, lookup, lookup-insert}
use fortsym.Base.Order.{sorted, length-sorted, list_order, nat_order}
use fortsym.Base.Text.{Text}
use fortsym.Architecture.Search.{done, ◌then◌}
use fortsym.Architecture.Paths.{IsCycle}
use fortsym.Architecture.Cycles.{find_cycles-empty}
use fortsym.Architecture.Modules.{
  SourceFile, unit_of, names_of, is_unknown, unknown_line, unknown_lines, find_modules, paths_of,
  add_path, locate, locations, is_shared, shared_line, find_duplicate_modules,
}
use fortsym.Architecture.Reports.{Report, is_nil, is_clean, validated, main}
use fortsym.Architecture.Unknown.{graph_in, build_report-IsReport}

-- How often a name is declared.
abbrev pub times : Text → List Text → ℕ
times name [] = 0
times name (n ∷ names) = (if n == name then 1 else 0) + times name names

abbrev pub declarations : Text → List SourceFile → ℕ
declarations name [] = 0
declarations name (file ∷ files) = times name (names_of file) + declarations name files

abbrev places : Text → Dict Text (List Text) → ℕ
places name d = length (paths_of (lookup name d))

length-add_path :
    (name n path : Text) (d : Dict Text (List Text))
    → places name (add_path n path d) ≡ (if n == name then 1 else 0) + places name d
length-add_path name n path d = elim (Bool-cases (n == name)) [
  | inl same ↦
      rw
        (
          lookup-insert n name (paths_of (lookup n d) ++ path ∷ []) d,
          same,
          (list_eq.beq_iff n name).0 same,
          length-append (paths_of (lookup name d)) (path ∷ []),
        )
        (omega arith)
  | inr other ↦
      rw (lookup-insert n name (paths_of (lookup n d) ++ path ∷ []) d, other) (omega arith)
]

length-locate :
    (name path : Text) (names : List Text) (d : Dict Text (List Text))
    → places name (locate path names d) ≡ times name names + places name d
unfolding locate
length-locate name path [] d = omega arith
length-locate name path (n ∷ names) d =
    omega (arith, length-locate name path names (add_path n path d), length-add_path name n path d)

length-locations :
    (name : Text) (files : List SourceFile) (d : Dict Text (List Text))
    → places name (locations (map unit_of files) d) ≡ declarations name files + places name d
unfolding locations
length-locations name [] d = omega arith
length-locations name (file ∷ files) d = omega (
  arith,
  length-locations name files (locate file.path (names_of file) d),
  length-locate name file.path (names_of file) d,
)

none_shared : (name : Text) (d : Dict Text (List Text)) → keep is_shared d ≡ [] → places name d ≤ 1
unfolding lookup
none_shared name [] h = omega arith
none_shared name ((n, paths) ∷ d) h = elim (Bool-cases (ltb 1 (length paths))) [
  | inl shared ↦ absurd (cc (rw shared at h))
  | inr few ↦ ground (arith, none_shared name d (rw few at h))
]

-- `sorted(f(x) for x in l)` is empty only for an empty list.
sorted-map-empty : {A : Type 0} (f : A → Text) (l : List A) → sorted (map f l) ≡ [] → l ≡ []
sorted-map-empty f l h =
    no_length l (sym (length-map f l) ∙ sym (length-sorted (map f l)) ∙ ap length h)

few_declarations :
    (name : Text) (files : List SourceFile)
    → find_duplicate_modules (map unit_of files) ≡ []
    → declarations name files ≤ 1
unfolding find_duplicate_modules lookup
few_declarations name files h =
    let d = locations (map unit_of files) [] in
    omega (
      arith,
      length-locations name files [],
      none_shared name d (sorted-map-empty shared_line (keep is_shared d) h),
    )

is_nil_iff : {A : Type 0} (l : List A) → is_nil l ≡ true → l ≡ []
is_nil_iff [] h = refl
is_nil_iff (x ∷ l) h = absurd (cc)

append_left : {A : Type 0} (k l : List A) → k ++ l ≡ [] → (k ≡ []) × (l ≡ [])
append_left [] l h = (refl, h)
append_left (x ∷ k) l h = absurd (cc)

map_empty : {A B : Type 0} (f : A → B) (l : List A) → map f l ≡ [] → l ≡ []
map_empty f [] h = refl
map_empty f (x ∷ l) h = absurd (cc)

-- Every name that a module uses is one of a module.
abbrev pub is_closed : Dict Text SourceFile → Dict Text (List Text) → Bool
is_closed modules graph = all (all (λ name. contains name (keys modules))) (values graph)

all_known :
    (modules : Dict Text SourceFile) (l : List Text)
    → keep (is_unknown modules) l ≡ []
    → all (λ name. contains name (keys modules)) l ≡ true
all_known modules [] h = refl
all_known modules (name ∷ l) h = elim (Bool-cases (contains name (keys modules))) [
  | inl is_in ↦ rw is_in (all_known modules l (rw is_in at h))
  | inr out ↦ absurd (cc (rw out at h))
]

unknown_lines-is_closed :
    (modules : Dict Text SourceFile) (graph : Dict Text (List Text))
    → unknown_lines modules graph ≡ []
    → is_closed modules graph ≡ true
unknown_lines-is_closed modules [] h = refl
unknown_lines-is_closed modules ((name, used) ∷ graph) h =
    let (here, later) =
      append_left (map (unknown_line name) (keep (is_unknown modules) used))
        (unknown_lines modules graph) h in
    rw
      (all_known modules used (map_empty (unknown_line name) (keep (is_unknown modules) used) here))
      (unknown_lines-is_closed modules graph later)

-- When `main` writes the report, no walk in the graph of the modules is a cycle, every name that a
-- module uses is one of a module, and no name is declared more than once.
pub main-validated :
    (files : List SourceFile) (report : Report) (name : Text) (c : List Text)
    → main files ≡ done (validated report)
    → (¬ IsCycle (graph_in files) c)
      × (is_closed (find_modules files).0 (graph_in files) ≡ true)
      × (declarations name files ≤ 1)
unfolding main
main-validated files report name c h = elim (build_report-IsReport files) [
  | inr (some_unknown, r) ↦ absurd (cc (rw r at h))
  | inl (none_unknown, (built, is)) ↦ elim (Bool-cases (is_clean built.violations)) [
    | inr violated ↦ absurd (cc (rw (is.built, violated) at h))
    | inl clean ↦ (
      (find_cycles-empty (graph_in files)).0
          (is.cycles ∙ ap done (is_nil_iff built.violations.cycles (ground arith))) c,
      unknown_lines-is_closed (find_modules files).0 (graph_in files) is.all_known,
      few_declarations name files
          (sym is.duplicates ∙ is_nil_iff built.violations.duplicate_modules (ground arith)),
    )
  ]
]
