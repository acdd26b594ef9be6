-- ===== src/Tests/Reports.antt =====
-- The theorems on the classification at an inventory of one module.
use fortsym.Base.{[], ◌∷◌, All, none, some, true, false, ok, ◌≡◌, ◌↔◌, refl}
use fortsym.Base.Text.{codes}
use fortsym.Classification.{Profile, Export, Inventory, Report, by_name, build_report}
use fortsym.Classification.Coverage.{IsTyped, IsReportedModule, build_report_iff}
use fortsym.Classification.Rows.{Rows, IsRootRow, IsExportRow, all_exports, build_report-Rows}

abbrev sin : Export
sin = record {
  name = codes "sin";
  kind = some (some (codes "class"));
  home = some (codes "sympy.functions");
  qualname = some (codes "sin");
  class_id = some (codes "sympy.functions.sin");
  access_error = false;
}

abbrev broken : Export
broken = record {
  name = codes "broken";
  kind = none;
  home = none;
  qualname = none;
  class_id = none;
  access_error = true;
}

abbrev profile : Profile
profile = record { supported = codes "sin" ∷ []; refused_names = []; methods = codes "diff" ∷ [] }

abbrev inventory : Inventory
inventory = record {
  root_exports = sin ∷ [];
  modules = record { name = codes "sympy"; exports = sin ∷ broken ∷ [] } ∷ [];
  classes = [];
}

build_report_iff_example :
    ((r : Report) × (build_report profile inventory [] ≡ ok r))
    ↔ (All IsTyped (sin ∷ []) × All IsReportedModule inventory.modules)
build_report_iff_example = build_report_iff profile inventory []

abbrev made : (r : Report) × (build_report profile inventory [] ≡ ok r)
made = (build_report_iff profile inventory []).1 ((refl, tt), ((refl, (refl, tt)), tt))

build_report-Rows_example :
    Rows (IsRootRow profile) (sin ∷ []) made.0.root_exports
    × Rows
        (IsExportRow (by_name (sin ∷ []) []) profile)
        (all_exports inventory.modules)
        made.0.module_exports
build_report-Rows_example = build_report-Rows profile inventory [] made.0 made.1
