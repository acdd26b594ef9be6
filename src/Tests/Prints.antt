-- ===== src/Tests/Prints.antt =====
-- The theorems on the printing of sums at one.
use fortsym.Base.{ℕ, ◌≡◌, List, some, arith}
use fortsym.Base.Text.{Text, codes, join}
use fortsym.Printing.{split_top_level, pretty_expanded}
use fortsym.Printing.Laws.{split_top_level-join}
use fortsym.Printing.Reordering.{occurrences, pretty_expanded-occurrences}

split_top_level-join_example :
    (pieces : List Text) × (split_top_level (codes "x**2*(a*b)*3") (codes "*") ≡ some pieces)
    × (join (codes "*") pieces ≡ codes "x**2*(a*b)*3")
split_top_level-join_example = split_top_level-join (codes "x**2*(a*b)*3") (codes "*") (omega arith)

pretty_expanded-occurrences_example :
    (shown : Text) × (pretty_expanded (codes "x*2 + y*3*z") ≡ some shown)
    × ((c : ℕ) → occurrences c shown ≡ occurrences c (codes "x*2 + y*3*z"))
pretty_expanded-occurrences_example = pretty_expanded-occurrences (codes "x*2 + y*3*z")
