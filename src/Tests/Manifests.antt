-- ===== src/Tests/Manifests.antt =====
-- The theorems on the comparison of manifests at concrete lists.
use fortsym.Base.{ℕ, ◌≡◌, ◌↔◌, false, [], ◌∷◌, ok, nat_eq, ◌/◌}
use fortsym.Base.Int.{int_eq}
use fortsym.Base.Order.{nat_order}
use fortsym.ApiDiff.{Changes, compare, is_changed}
use fortsym.ApiDiff.Laws.{IsUnrepeated, record_of, compare_iff}

abbrev by_tens : ℕ → ℕ
by_tens n = n / 10

compare_iff_example :
    (((c : Changes ℕ ℕ) × (compare (15 ∷ 27 ∷ []) (29 ∷ 31 ∷ []) by_tens ≡ ok c))
      ↔ (IsUnrepeated by_tens [] (15 ∷ 27 ∷ []) × IsUnrepeated by_tens [] (29 ∷ 31 ∷ [])))
    × ((c : Changes ℕ ℕ)
        → compare (15 ∷ 27 ∷ []) (29 ∷ 31 ∷ []) by_tens ≡ ok c
        → (is_changed c ≡ false)
          ↔ ((k : ℕ) → record_of by_tens k (15 ∷ 27 ∷ []) ≡ record_of by_tens k (29 ∷ 31 ∷ [])))
compare_iff_example = compare_iff (15 ∷ 27 ∷ []) (29 ∷ 31 ∷ []) by_tens
