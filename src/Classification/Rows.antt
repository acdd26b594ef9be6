-- ===== src/Classification/Rows.antt =====
-- Which rows a report has, and what they claim.
use fortsym.Base.{
  ◌≡◌, ◌↔◌, refl, ap, ◌⊎◌, inl, inr, Bool, true, false, List, [], ◌∷◌, ◌++◌, Option, none, some,
  Result, ok, contains, nat_eq, list_eq, Bool-cases, Result-cases, if◌then◌else◌, arith,
}
use fortsym.Base.Dict.{Dict, lookup}
use fortsym.Base.Text.{Text}
use fortsym.Classification.Layers.{
  native, python_adapter, delegated, refused, Profile, Export, supported_layers, same_text,
  given_kind, matched, classify_module_export,
}
use fortsym.Classification.Reports.{
  Module, Inventory, Item, Report, Source, by_name, with_kind, root_item, export_item, each_item,
  export_items, build_report,
}

-- The two lists have one length, and their elements are related in order.
abbrev pub Rows : {A B : Type 0} → (A → B → Type 0) → List A → List B → Type 0
Rows R [] [] = Unit
Rows R [] (y ∷ ys) = ⊥
Rows R (x ∷ xs) [] = ⊥
Rows R (x ∷ xs) (y ∷ ys) = R x y × Rows R xs ys

each_item-Rows :
    {A : Type 0} (f : A → Result Item) (R : A → Item → Type 0)
    → ((x : A) (item : Item) → f x ≡ ok item → R x item)
    → (xs : List A) (items : List Item) → each_item f xs ≡ ok items
    → Rows R xs items
unfolding each_item
each_item-Rows f R k [] [] h = tt
each_item-Rows f R k [] (y ∷ ys) h = absurd (cc)
each_item-Rows f R k (x ∷ xs) l h = elim (Result-cases (f x)) [
  | inl (item, e) ↦ elim (Result-cases (each_item f xs)) [
    | inl (items, es) ↦
        let same : item ∷ items ≡ l = cc (rw (e, es) at h) in
        rw (← same) (k x item e, each_item-Rows f R k xs items es)
    | inr (y, bad) ↦ absurd (cc (rw (e, bad) at h))
  ]
  | inr (y, bad) ↦ absurd (cc (rw bad at h))
]

-- A root export's row: the three layers of a supported name, or a refusal.
abbrev pub IsRootRow : Profile → Export → Item → Type 0
IsRootRow profile e item =
    (item.name ≡ e.name)
    × (e.kind ≡ some item.kind)
    × (item.placement.classification ≡ (
        if contains e.name profile.supported
        then python_adapter ∷ delegated ∷ native ∷ []
        else refused ∷ []))

supported_layers-classification :
    (name : Text) (profile : Profile)
    → (supported_layers name profile).classification ≡ (
        if contains name profile.supported
        then python_adapter ∷ delegated ∷ native ∷ []
        else refused ∷ [])
unfolding supported_layers
supported_layers-classification name profile = elim (Bool-cases (contains name profile.supported)) [
  | inl is_in ↦ rw is_in refl
  | inr is_out ↦ elim (Bool-cases (contains name profile.refused_names)) [
    | inl at ↦ rw (is_out, at) refl
    | inr none_at ↦ rw (is_out, none_at) refl
  ]
]

ok_report : (a b : Report) → Path (Result Report) (ok a) (ok b) → a ≡ b
ok_report a b h = cc

ok_same : (a b : Item) → Path (Result Item) (ok a) (ok b) → a ≡ b
ok_same a b h = cc

with_kind_made :
    (k : Option (Option Text)) (f : Option Text → Item) (item : Item)
    → with_kind k f ≡ ok item
    → (kind : Option Text) × ((k ≡ some kind) × (f kind ≡ item))
with_kind_made none f item h = absurd (cc)
with_kind_made (some kind) f item h = (kind, (refl, ok_same (f kind) item h))

root_item-IsRootRow :
    (profile : Profile) (e : Export) (item : Item)
    → root_item profile e ≡ ok item
    → IsRootRow profile e item
unfolding root_item
root_item-IsRootRow profile e item h =
    let (kind, (found, same)) = with_kind_made e.kind _ item h in
    rw (← same) (refl, found, supported_layers-classification e.name profile)

same_text_iff : (a b : Option Text) → (same_text a b ≡ true) ↔ (a ≡ b)
same_text_iff none none = (λ h. refl, λ h. refl)
same_text_iff none (some b) = (λ h. absurd (cc), λ h. absurd (cc))
same_text_iff (some a) none = (λ h. absurd (cc), λ h. absurd (cc))
same_text_iff (some a) (some b) =
    (λ h. ap (λ t. some t) ((list_eq.beq_iff a b).0 h), λ h. (list_eq.beq_iff a b).1 (cc))

-- The name is supported, and the root export of that name has the kind, home and qualified name of
-- this one.
abbrev pub IsAdapted : Dict Text Export → Profile → Export → Type 0
IsAdapted roots profile e =
    (contains e.name profile.supported ≡ true)
    × ((root : Export) × (lookup e.name roots ≡ some root)
        × (given_kind e.kind ≡ given_kind root.kind)
        × (e.home ≡ root.home)
        × (e.qualname ≡ root.qualname))

matched-same :
    (e : Export) (profile : Profile) (root : Export)
    → (matched e profile (some root) ≡ true) ↔ (
        (contains e.name profile.supported ≡ true)
        × (given_kind e.kind ≡ given_kind root.kind)
        × (e.home ≡ root.home)
        × (e.qualname ≡ root.qualname))
matched-same e profile root =
    let kinds = same_text_iff (given_kind e.kind) (given_kind root.kind) in
    let homes = same_text_iff e.home root.home in
    let names = same_text_iff e.qualname root.qualname in
    (
      λ h. (ground arith, kinds.0 (ground arith), homes.0 (ground arith), names.0 (ground arith)),
      λ (is_in, k, m, n). rw (is_in, kinds.1 k, homes.1 m, names.1 n) refl,
    )

matched-IsAdapted :
    (e : Export) (roots : Dict Text Export) (profile : Profile) (o : Option Export)
    → lookup e.name roots ≡ o
    → (matched e profile o ≡ true) ↔ IsAdapted roots profile e
matched-IsAdapted e roots profile none out =
    (λ h. absurd (cc), λ (is_in, (root, at, k, m, n)). absurd (cc))
matched-IsAdapted e roots profile (some root) found =
    let same = matched-same e profile root in
    (
      λ h. let (is_in, k, m, n) = same.0 h in (is_in, (root, found, k, m, n)),
      λ (is_in, (other, at, k, m, n)).
          let one : other ≡ root = cc in same.1 (is_in, rw one at k, rw one at m, rw one at n),
    )

-- The row of a module's export: a refusal of one that cannot be accessed; else the three layers of
-- one that is adapted, and a refusal of any other.
abbrev pub IsExportRow : Dict Text Export → Profile → Export → Item → Type 0
IsExportRow roots profile e item =
    (item.name ≡ e.name)
    × (((e.access_error ≡ true) × (item.placement.classification ≡ refused ∷ []))
        ⊎ ((e.access_error ≡ false)
            × (e.kind ≡ some item.kind)
            × ((IsAdapted roots profile e
                  × (item.placement.classification ≡ python_adapter ∷ delegated ∷ native ∷ []))
                ⊎ (¬ IsAdapted roots profile e × (item.placement.classification ≡ refused ∷ [])))))

classify_module_export-cases :
    (e : Export) (roots : Dict Text Export) (profile : Profile)
    → (IsAdapted roots profile e
        × ((classify_module_export e roots profile).classification
            ≡ python_adapter ∷ delegated ∷ native ∷ []))
      ⊎ (¬ IsAdapted roots profile e
          × ((classify_module_export e roots profile).classification ≡ refused ∷ []))
unfolding classify_module_export
classify_module_export-cases e roots profile =
    let (from, into) = matched-IsAdapted e roots profile (lookup e.name roots) refl in
    elim (Bool-cases (matched e profile (lookup e.name roots))) [
      | inl at ↦
          let fits = from at in
          inl (fits, rw (at, supported_layers-classification e.name profile, fits.0) refl)
      | inr apart ↦ inr (λ fits. cc (into fits), rw apart refl)
    ]

choice_made :
    (b : Bool) (k : Option (Option Text)) (a : Item) (f : Option Text → Item) (item : Item)
    → (if b then ok a else with_kind k f) ≡ ok item
    → ((b ≡ true) × (a ≡ item))
      ⊎ ((b ≡ false) × ((kind : Option Text) × ((k ≡ some kind) × (f kind ≡ item))))
choice_made true k a f item h = inl (refl, ok_same a item h)
choice_made false k a f item h = inr (refl, with_kind_made k f item h)

export_item-IsExportRow :
    (roots : Dict Text Export) (profile : Profile) (home : Text) (e : Export) (item : Item)
    → export_item roots profile home e ≡ ok item
    → IsExportRow roots profile e item
unfolding export_item
export_item-IsExportRow roots profile home e item h =
    elim (choice_made e.access_error e.kind _ _ item h) [
      | inl (failed, same) ↦ rw (← same) (refl, inl (failed, refl))
      | inr (fine, made) ↦
          rw (← made.1.1) (refl, inr (fine, made.1.0, classify_module_export-cases e roots profile))
    ]

Rows-append :
    {A B : Type 0} (R : A → B → Type 0) (xs : List A) (ys : List B) (xs' : List A) (ys' : List B)
    → Rows R xs ys
    → Rows R xs' ys'
    → Rows R (xs ++ xs') (ys ++ ys')
Rows-append R [] [] xs' ys' h g = g
Rows-append R [] (y ∷ ys) xs' ys' h g = absurd h
Rows-append R (x ∷ xs) [] xs' ys' h g = absurd h
Rows-append R (x ∷ xs) (y ∷ ys) xs' ys' h g = (h.0, Rows-append R xs ys xs' ys' h.1 g)

-- The exports of all modules, in order.
abbrev pub all_exports : List Module → List Export
all_exports [] = []
all_exports (m ∷ rest) = m.exports ++ all_exports rest

export_items-Rows :
    (roots : Dict Text Export) (profile : Profile) (modules : List Module) (l : List Item)
    → export_items roots profile modules ≡ ok l
    → Rows (IsExportRow roots profile) (all_exports modules) l
unfolding export_items
export_items-Rows roots profile [] l h = let same : [] ≡ l = cc in rw (← same) tt
export_items-Rows roots profile (m ∷ rest) l h =
    elim (Result-cases (each_item (export_item roots profile m.name) m.exports)) [
      | inl (items, e) ↦ elim (Result-cases (export_items roots profile rest)) [
        | inl (others, es) ↦
            let same : items ++ others ≡ l = cc (rw (e, es) at h) in
            rw (← same) (
              Rows-append (IsExportRow roots profile) m.exports items (all_exports rest) others
                (each_item-Rows (export_item roots profile m.name) (IsExportRow roots profile)
                  (export_item-IsExportRow roots profile m.name) m.exports items e)
                (export_items-Rows roots profile rest others es))
        | inr (y, bad) ↦ absurd (cc (rw (e, bad) at h))
      ]
      | inr (y, bad) ↦ absurd (cc (rw bad at h))
    ]

-- A report that `build_report` returns has one row for each root export and one for each export of a
-- module, in their order. A root export's row has its name and kind, and the layers of a supported
-- name exactly when the profile supports it, else a refusal. A module export's row has its name; it
-- is a refusal where the export has an access error; else it has the export's kind, and the layers of
-- a supported name exactly when the profile supports the name and the root export of that name has
-- the same kind, home and qualified name, else a refusal.
pub build_report-Rows :
    (profile : Profile) (inventory : Inventory) (sources : List Source) (r : Report)
    → build_report profile inventory sources ≡ ok r
    → Rows (IsRootRow profile) inventory.root_exports r.root_exports
      × Rows
          (IsExportRow (by_name inventory.root_exports []) profile)
          (all_exports inventory.modules)
          r.module_exports
unfolding build_report
build_report-Rows profile inventory sources r h =
    let roots = by_name inventory.root_exports [] in
    elim (Result-cases (each_item (root_item profile) inventory.root_exports)) [
      | inl (items, e) ↦
          elim (Result-cases
            (export_items (by_name inventory.root_exports []) profile inventory.modules)) [
              | inl (others, es) ↦
                  let made = rw (e, es) at h in
                  let same = ok_report _ r made in
                  rw (← same) (
                    each_item-Rows (root_item profile) (IsRootRow profile)
                        (root_item-IsRootRow profile) inventory.root_exports items e,
                    export_items-Rows (by_name inventory.root_exports []) profile inventory.modules
                        others es,
                  )
              | inr (y, bad) ↦ absurd (cc (rw (e, bad) at h))
            ]
      | inr (y, bad) ↦ absurd (cc (rw bad at h))
    ]
