-- ===== src/Classification/Coverage.antt =====
-- What a report holds, and when `build_report` raises.
use fortsym.Base.{
  ◌≡◌, refl, ◌↔◌, ◌⊎◌, inl, inr, true, false, ◌||◌, List, [], ◌∷◌, ◌++◌, All, Option, none, some,
  is_some, Result, ok, err, key_error, nat_eq, list_eq, Bool-cases, Result-cases, Option-cases,
}
use fortsym.Base.Dict.{Dict}
use fortsym.Base.Text.{Text}
use fortsym.Classification.Layers.{Profile, Export}
use fortsym.Classification.Reports.{
  Module, Inventory, Item, Report, Source, by_name, with_kind, root_item, export_item, each_item,
  export_items, build_report,
}

-- An export that a report can hold: a root export needs the field, another one only without an error.
abbrev pub IsTyped : Export → Type 0
IsTyped e = is_some e.kind ≡ true

abbrev pub IsReported : Export → Type 0
IsReported e = (e.access_error || is_some e.kind) ≡ true

with_kind-cases :
    (k : Option (Option Text)) (f : Option Text → Item)
    → ((is_some k ≡ true) × ((kind : Option Text) × (with_kind k f ≡ ok (f kind))))
      ⊎ ((is_some k ≡ false) × (with_kind k f ≡ err key_error))
with_kind-cases none f = inr (refl, refl)
with_kind-cases (some k) f = inl (refl, (k, refl))

-- A loop returns exactly when each of its items does.
each_item_total :
    {A : Type 0} (f : A → Result Item) (P : A → Type 0)
    → ((x : A) → ((item : Item) × (f x ≡ ok item)) ↔ P x)
    → (xs : List A) → ((items : List Item) × (each_item f xs ≡ ok items)) ↔ All P xs
unfolding each_item
each_item_total f P k [] = (λ _. tt, λ _. ([], refl))
each_item_total f P k (x ∷ xs) = (
  λ r. elim (Result-cases (f x)) [
    | inl (item, e) ↦ elim (Result-cases (each_item f xs)) [
      | inl (items, es) ↦ ((k x).0 (item, e), (each_item_total f P k xs).0 (items, es))
      | inr (y, bad) ↦ absurd (cc (rw (e, bad) at r.1))
    ]
    | inr (y, bad) ↦ absurd (cc (rw bad at r.1))
  ],
  λ h.
      let (item, e) = (k x).1 h.0 in
      let (items, es) = (each_item_total f P k xs).1 h.1 in (item ∷ items, rw (e, es) refl),
)

root_item_total :
    (profile : Profile) (e : Export) → ((item : Item) × (root_item profile e ≡ ok item)) ↔ IsTyped e
unfolding root_item
root_item_total profile e = elim (Option-cases e.kind) [
  | inl out ↦ rw out (λ r. absurd (cc (r.1)), λ h. absurd (cc))
  | inr (k, found) ↦ rw found (λ r. refl, λ h. (_, refl))
]

export_item_total :
    (roots : Dict Text Export) (profile : Profile) (home : Text) (e : Export)
    → ((item : Item) × (export_item roots profile home e ≡ ok item)) ↔ IsReported e
unfolding export_item
export_item_total roots profile home e = elim (Bool-cases e.access_error) [
  | inl failed ↦ rw failed (λ r. refl, λ h. (_, refl))
  | inr fine ↦ elim (Option-cases e.kind) [
    | inl out ↦ rw (fine, out) (λ r. absurd (cc (r.1)), λ h. absurd (cc))
    | inr (k, found) ↦ rw (fine, found) (λ r. refl, λ h. (_, refl))
  ]
]

abbrev pub IsReportedModule : Module → Type 0
IsReportedModule m = All IsReported m.exports

export_items_total :
    (roots : Dict Text Export) (profile : Profile) (modules : List Module)
    → ((items : List Item) × (export_items roots profile modules ≡ ok items))
      ↔ All IsReportedModule modules
unfolding export_items
export_items_total roots profile [] = (λ _. tt, λ _. ([], refl))
export_items_total roots profile (m ∷ rest) =
    let here =
      each_item_total (export_item roots profile m.name) IsReported
        (export_item_total roots profile m.name) m.exports in
    (
      λ r. elim (Result-cases (each_item (export_item roots profile m.name) m.exports)) [
        | inl (items, e) ↦ elim (Result-cases (export_items roots profile rest)) [
          | inl (others, es) ↦
              (here.0 (items, e), (export_items_total roots profile rest).0 (others, es))
          | inr (y, bad) ↦ absurd (cc (rw (e, bad) at r.1))
        ]
        | inr (y, bad) ↦ absurd (cc (rw bad at r.1))
      ],
      λ h.
          let (items, e) = here.1 h.0 in
          let (others, es) = (export_items_total roots profile rest).1 h.1 in
          (items ++ others, rw (e, es) refl),
    )

-- `build_report` returns exactly when every root export has a kind, and every export of a module has
-- one or an access error; in particular a root export that the inventory records with an access
-- error, and so without a kind, makes it raise.
pub build_report_iff :
    (profile : Profile) (inventory : Inventory) (sources : List Source)
    → ((r : Report) × (build_report profile inventory sources ≡ ok r))
      ↔ (All IsTyped inventory.root_exports × All IsReportedModule inventory.modules)
unfolding build_report
build_report_iff profile inventory sources =
    let roots =
      each_item_total (root_item profile) IsTyped (root_item_total profile)
        inventory.root_exports in
    let exports =
      export_items_total (by_name inventory.root_exports []) profile inventory.modules in
    (
      λ r. elim (Result-cases (each_item (root_item profile) inventory.root_exports)) [
        | inl (items, e) ↦
            elim (Result-cases
              (export_items (by_name inventory.root_exports []) profile inventory.modules)) [
                | inl (others, es) ↦ (roots.0 (items, e), exports.0 (others, es))
                | inr (y, bad) ↦ absurd (cc (rw (e, bad) at r.1))
              ]
        | inr (y, bad) ↦ absurd (cc (rw bad at r.1))
      ],
      λ h. let (items, e) = roots.1 h.0 in let (others, es) = exports.1 h.1 in rw (e, es) (_, refl),
    )
