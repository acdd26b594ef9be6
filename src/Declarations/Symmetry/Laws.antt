-- ===== src/Declarations/Symmetry/Laws.antt =====
-- What `_normalize_symmetries` returns, and when it raises.
use fortsym.Base.{
  ℕ, ◌<◌, ◌≢◌, nat_eq, list_eq, sym, ap, ◌∙◌, ◌↔◌, ◌≡◌, refl, ◌⊎◌, Bool, true, ◌&&◌, List, [], ◌∷◌,
  map, All, arith, ok, ◌==◌, ◌/=◌, pair_eq, if◌then◌else◌, Bool-cases, Result-cases, inl, inr,
  Option, none, some,
}
use fortsym.Base.Int.{ℤ, pos, negsuc, ltb_ℤ, leb_ℤ, int_eq, int_beq_iff}
use fortsym.Base.Dict.{insert, lookup, All-insert}
use fortsym.Base.Text.{Text, codes, lower}
use fortsym.Declarations.Symmetry.{
  absent, KindInput, kind_names, name, number, check_kind, named_kind, symmetry_kind, Item, triple,
  malformed, Declared, items, mapping, in_rank, sorted_pair, Symmetries, record_kind,
  normalize_items, normalize_symmetries, of_mapping,
}

-- An entry of the result: two slots of the rank in strict order, and a sign.
abbrev pub IsEntry : ℤ → (ℤ × ℤ) × ℤ → Type 0
IsEntry rank ((a, b), kind) =
    (ltb_ℤ a b ≡ true)
    × (in_rank rank a ≡ true)
    × (in_rank rank b ≡ true)
    × ((kind ≡ pos 1) ⊎ (kind ≡ negsuc 0))

pub insert-IsEntry :
    (rank : ℤ) (p : ℤ × ℤ) (kind : ℤ) (d : Symmetries)
    → IsEntry rank (p, kind)
    → All (IsEntry rank) d
    → All (IsEntry rank) (insert p kind d)
unfolding insert
insert-IsEntry rank p kind [] e h = (e, tt)
insert-IsEntry rank p kind (((a, b), w) ∷ d) e h =
    ground (arith, insert-IsEntry rank p kind d e h.1)

IsEntry-record :
    (rank a b kind : ℤ) (d : Symmetries)
    → (in_rank rank a && in_rank rank b) ≡ true
    → (a /= b) ≡ true
    → (kind ≡ pos 0) ⊎ ((kind ≡ pos 1) ⊎ (kind ≡ negsuc 0))
    → All (IsEntry rank) d
    → All (IsEntry rank) (record_kind a b kind d)
IsEntry-record rank a b kind d slots distinct sign h =
    ground (arith, insert-IsEntry rank (sorted_pair a b) kind d)

abbrev IsSign : ℤ → Type 0
IsSign v = (v ≡ pos 0) ⊎ ((v ≡ pos 1) ⊎ (v ≡ negsuc 0))

check_kind-IsSign : (u v : ℤ) → check_kind u ≡ ok v → IsSign v
unfolding check_kind
check_kind-IsSign u v h =
    ground (arith, int_beq_iff u (pos 0), int_beq_iff u (pos 1), int_beq_iff u (negsuc 0))

named_kind-IsSign : (o : Option ℤ) (v : ℤ) → named_kind o ≡ ok v → IsSign v
unfolding named_kind
named_kind-IsSign none v h = cc
named_kind-IsSign (some u) v h = check_kind-IsSign u v h

symmetry_kind-IsSign : (k : KindInput) (v : ℤ) → symmetry_kind k ≡ ok v → IsSign v
unfolding symmetry_kind
symmetry_kind-IsSign (name s) v h = named_kind-IsSign (lookup (lower s) kind_names) v h
symmetry_kind-IsSign (number u) v h = check_kind-IsSign u v h

normalize_items-IsEntry :
    (rank : ℤ) (l : List Item) (d d' : Symmetries)
    → All (IsEntry rank) d
    → normalize_items rank l d ≡ ok d'
    → All (IsEntry rank) d'
unfolding normalize_items
normalize_items-IsEntry rank [] d d' h e = ground arith
normalize_items-IsEntry rank (malformed ∷ l) d d' h e = cc
normalize_items-IsEntry rank (triple a b k ∷ l) d d' h e = elim (Result-cases (symmetry_kind k)) [
  | inl (v, kv) ↦ ground (
    arith,
    symmetry_kind-IsSign k v kv,
    IsEntry-record rank a b v d,
    normalize_items-IsEntry rank l (record_kind a b v d) d',
  )
  | inr (x, kx) ↦ ground arith
]

abbrev pub declared_items : Declared → List Item
declared_items absent = []
declared_items (mapping d) = map of_mapping d
declared_items (items l) = l

normalize_symmetries-items :
    (rank : ℤ) (given : Declared)
    → normalize_symmetries rank given ≡ normalize_items rank (declared_items given) []
unfolding normalize_symmetries
normalize_symmetries-items rank absent = refl
normalize_symmetries-items rank (mapping d) = refl
normalize_symmetries-items rank (items l) = refl

-- Whatever is declared, every entry of a returned table has two different slots of the rank, the
-- smaller one first, and the kind 1 or -1.
pub normalize_symmetries-IsEntry :
    (rank : ℤ) (given : Declared) (table : Symmetries)
    → normalize_symmetries rank given ≡ ok table
    → All (IsEntry rank) table
normalize_symmetries-IsEntry rank given table h =
    normalize_items-IsEntry rank (declared_items given) [] table tt
      (sym (normalize_symmetries-items rank given) ∙ h)

-- A slot of the rank: a number from 0 to the rank's predecessor.
abbrev pub IsSlot : ℤ → ℤ → Type 0
IsSlot rank slot = (m : ℕ) × (r : ℕ) × (slot ≡ pos m) × (rank ≡ pos r) × (m < r)

-- What a declared kind means: the names in any case, and the numbers 0, 1 and -1.
abbrev pub IsKind : KindInput → ℤ → Type 0
IsKind (name s) v =
    ((lower s ≡ codes "none") × (v ≡ pos 0))
    ⊎ (((lower s ≡ codes "symmetric") × (v ≡ pos 1))
        ⊎ (((lower s ≡ codes "sym") × (v ≡ pos 1))
            ⊎ (((lower s ≡ codes "antisymmetric") × (v ≡ negsuc 0))
                ⊎ ((lower s ≡ codes "antisym") × (v ≡ negsuc 0)))))
IsKind (number u) v = (u ≡ v) × ((v ≡ pos 0) ⊎ ((v ≡ pos 1) ⊎ (v ≡ negsuc 0)))

pub in_rank_iff : (rank slot : ℤ) → (in_rank rank slot ≡ true) ↔ IsSlot rank slot
in_rank_iff (pos r) (pos m) =
    (λ h. (m, r, refl, refl, ground arith), λ (a, b, p, q, l). ground arith)
in_rank_iff (negsuc r) (pos m) = (λ h. absurd (ground arith), λ (a, b, p, q, l). absurd (cc))
in_rank_iff (pos r) (negsuc m) = (λ h. absurd (ground arith), λ (a, b, p, q, l). absurd (cc))
in_rank_iff (negsuc r) (negsuc m) = (λ h. absurd (ground arith), λ (a, b, p, q, l). absurd (cc))

pub differ_iff : (a b : ℤ) → ((a /= b) ≡ true) ↔ (a ≢ b)
differ_iff a b = (
  λ h q. ground (arith, int_beq_iff a b),
  λ n. elim (Bool-cases (a == b)) [
    | inl same ↦ absurd (n ((int_beq_iff a b).0 same))
    | inr other ↦ rw other refl
  ],
)

number_iff : (u v : ℤ) → (symmetry_kind (number u) ≡ ok v) ↔ IsKind (number u) v
unfolding symmetry_kind
number_iff u v = (
  λ h. ground (arith, int_beq_iff u (pos 0), int_beq_iff u (pos 1), int_beq_iff u (negsuc 0)),
  λ (same, sign).
      ground (arith, int_beq_iff u (pos 0), int_beq_iff u (pos 1), int_beq_iff u (negsuc 0)),
)

known_name : (s : Text) (v : ℤ) → IsKind (name s) v → symmetry_kind (name s) ≡ ok v
unfolding symmetry_kind
known_name s v (inl (e, q)) = rw (e, q) refl
known_name s v (inr (inl (e, q))) = rw (e, q) refl
known_name s v (inr (inr (inl (e, q)))) = rw (e, q) refl
known_name s v (inr (inr (inr (inl (e, q))))) = rw (e, q) refl
known_name s v (inr (inr (inr (inr (e, q))))) = rw (e, q) refl

name_known : (s : Text) (v : ℤ) → symmetry_kind (name s) ≡ ok v → IsKind (name s) v
unfolding symmetry_kind
name_known s v h = elim (Bool-cases (codes "none" == lower s)) [
  | inl at0 ↦ inl (sym ((list_eq.beq_iff (codes "none") (lower s)).0 at0), cc (rw (at0) at h))
  | inr no0 ↦ elim (Bool-cases (codes "symmetric" == lower s)) [
    | inl at1 ↦
        inr (
          inl
            (sym ((list_eq.beq_iff (codes "symmetric") (lower s)).0 at1), cc (rw (no0, at1) at h)))
    | inr no1 ↦ elim (Bool-cases (codes "sym" == lower s)) [
      | inl at2 ↦ inr (
          inr (
            inl (
              sym ((list_eq.beq_iff (codes "sym") (lower s)).0 at2),
              cc (rw (no0, no1, at2) at h),
            )))
      | inr no2 ↦ elim (Bool-cases (codes "antisymmetric" == lower s)) [
        | inl at3 ↦ inr (
            inr (
              inr (
                inl (
                  sym ((list_eq.beq_iff (codes "antisymmetric") (lower s)).0 at3),
                  cc (rw (no0, no1, no2, at3) at h),
                ))))
        | inr no3 ↦ elim (Bool-cases (codes "antisym" == lower s)) [
          | inl at4 ↦ inr (
              inr (
                inr (
                  inr (
                    sym ((list_eq.beq_iff (codes "antisym") (lower s)).0 at4),
                    cc (rw (no0, no1, no2, no3, at4) at h),
                  ))))
          | inr no4 ↦ absurd (cc (rw (no0, no1, no2, no3, no4) at h))
        ]
      ]
    ]
  ]
]

name_iff : (s : Text) (v : ℤ) → (symmetry_kind (name s) ≡ ok v) ↔ IsKind (name s) v
name_iff s v = (name_known s v, known_name s v)

pub symmetry_kind_iff : (k : KindInput) (v : ℤ) → (symmetry_kind k ≡ ok v) ↔ IsKind k v
symmetry_kind_iff (name s) v = name_iff s v
symmetry_kind_iff (number u) v = number_iff u v

-- An item that is accepted.
abbrev pub IsAccepted : ℤ → Item → Type 0
IsAccepted rank malformed = ⊥
IsAccepted rank (triple a b k) = ((v : ℤ) × IsKind k v) × IsSlot rank a × IsSlot rank b × (a ≢ b)

-- An item declares the entry: it has the two slots, in one order or the other, and the kind.
abbrev pub IsDeclaredBy : (ℤ × ℤ) × ℤ → Item → Type 0
IsDeclaredBy entry malformed = ⊥
IsDeclaredBy ((first, second), kind) (triple a b k) =
    (((a ≡ first) × (b ≡ second)) ⊎ ((a ≡ second) × (b ≡ first))) × IsKind k kind

-- One of the items declares the entry.
abbrev pub IsDeclared : List Item → (ℤ × ℤ) × ℤ → Type 0
IsDeclared [] entry = ⊥
IsDeclared (item ∷ l) entry = IsDeclaredBy entry item ⊎ IsDeclared l entry

normalize_items_accepts :
    (rank : ℤ) (l : List Item) (d : Symmetries)
    → All (IsAccepted rank) l
    → (d' : Symmetries) × (normalize_items rank l d ≡ ok d')
unfolding normalize_items
normalize_items_accepts rank [] d h = (d, refl)
normalize_items_accepts rank (malformed ∷ l) d h = absurd h.0
normalize_items_accepts rank (triple a b k ∷ l) d (((v, kv), first, second, distinct), h) =
    rw
      (
        (symmetry_kind_iff k v).1 kv,
        (in_rank_iff rank a).1 first,
        (in_rank_iff rank b).1 second,
        (differ_iff a b).1 distinct,
      )
      (normalize_items_accepts rank l (record_kind a b v d) h)

-- Where an item is accepted, the rest of the loop goes on behind its entry.
normalize_items_step :
    (rank a b : ℤ) (k : KindInput) (l : List Item) (d d' : Symmetries)
    → normalize_items rank (triple a b k ∷ l) d ≡ ok d'
    → (v : ℤ) × IsKind k v
      × IsAccepted rank (triple a b k)
      × (normalize_items rank l (record_kind a b v d) ≡ ok d')
unfolding normalize_items
normalize_items_step rank a b k l d d' h = elim (Result-cases (symmetry_kind k)) [
  | inl (v, kv) ↦ elim (Bool-cases (in_rank rank a && in_rank rank b)) [
    | inl slots ↦ elim (Bool-cases (a /= b)) [
      | inl distinct ↦
          let is_kind = (symmetry_kind_iff k v).0 kv in
          (
            v,
            is_kind,
            (
              (v, is_kind),
              (in_rank_iff rank a).0 (ground arith),
              (in_rank_iff rank b).0 (ground arith),
              (differ_iff a b).0 distinct,
            ),
            rw (kv, slots, distinct) at h,
          )
      | inr same ↦ absurd (cc (rw (kv, slots, same) at h))
    ]
    | inr outside ↦ absurd (cc (rw (kv, outside) at h))
  ]
  | inr (x, kx) ↦ absurd (cc (rw kx at h))
]

sorted_pair-IsDeclaredBy :
    (a b v : ℤ) (k : KindInput) → IsKind k v → IsDeclaredBy (sorted_pair a b, v) (triple a b k)
sorted_pair-IsDeclaredBy a b v k kind = elim (Bool-cases (leb_ℤ a b)) [
  | inl ordered ↦ rw ordered (inl (refl, refl), kind)
  | inr reversed ↦ rw reversed (inr (refl, refl), kind)
]

record_kind-All :
    (P : (ℤ × ℤ) × ℤ → Type 0) (a b v : ℤ) (d : Symmetries)
    → P (sorted_pair a b, v)
    → All P d
    → All P (record_kind a b v d)
record_kind-All P a b v d here h = elim (Bool-cases (v == pos 0)) [
  | inl nothing ↦ rw nothing h
  | inr kept ↦ rw kept (All-insert P (sorted_pair a b) v d here h)
]

normalize_items_declares :
    (rank : ℤ) (l : List Item) (d d' : Symmetries) (P : (ℤ × ℤ) × ℤ → Type 0)
    → normalize_items rank l d ≡ ok d'
    → All P d
    → ((entry : (ℤ × ℤ) × ℤ) → IsDeclared l entry → P entry)
    → All P d' × All (IsAccepted rank) l
unfolding normalize_items
normalize_items_declares rank [] d d' P h before each =
    let same : d ≡ d' = cc in (rw (← same) before, tt)
normalize_items_declares rank (malformed ∷ l) d d' P h before each = absurd (cc)
normalize_items_declares rank (triple a b k ∷ l) d d' P h before each =
    let (v, kind, accepted, later) = normalize_items_step rank a b k l d d' h in
    let here = each (sorted_pair a b, v) (inl (sorted_pair-IsDeclaredBy a b v k kind)) in
    let (all_declared, rest) =
      normalize_items_declares rank l (record_kind a b v d) d' P later
        (record_kind-All P a b v d here before) (λ entry m. each entry (inr m)) in
    (all_declared, (accepted, rest))

-- The declarations are accepted exactly when each item has three parts, a known kind, two slots of
-- the rank, and the slots differ; every entry of the table then has the two slots and the kind of one
-- of the items.
pub normalize_symmetries_iff :
    (rank : ℤ) (given : Declared)
    → ((table : Symmetries) × (normalize_symmetries rank given ≡ ok table)
        × All (IsDeclared (declared_items given)) table)
      ↔ All (IsAccepted rank) (declared_items given)
normalize_symmetries_iff rank given =
    let l = declared_items given in
    rw (normalize_symmetries-items rank given) (
      λ (table, made, declared).
          (normalize_items_declares rank l [] table (IsDeclared l) made tt (λ entry m. m)).1,
      λ h.
          let (table, made) = normalize_items_accepts rank l [] h in
          (
            table,
            made,
            (normalize_items_declares rank l [] table (IsDeclared l) made tt (λ entry m. m)).0,
          ),
    )

-- The item with its two slots exchanged.
abbrev pub exchange : Item → Item
exchange malformed = malformed
exchange (triple a b k) = triple b a k

sorted_pair_comm : (a b : ℤ) → sorted_pair a b ≡ sorted_pair b a
sorted_pair_comm a b = ground arith

record_kind_comm : (a b v : ℤ) (d : Symmetries) → record_kind a b v d ≡ record_kind b a v d
record_kind_comm a b v d =
    ap (λ (p : ℤ × ℤ). if v == pos 0 then d else insert p v d) (sorted_pair_comm a b)

in_rank_comm : (p q : Bool) → (p && q) ≡ (q && p)
in_rank_comm p q = ground arith

ne_comm : (a b : ℤ) → (a /= b) ≡ (b /= a)
ne_comm a b = ground arith

-- The order of the two slots of an item is immaterial: exchanging them in every item gives the
-- same table, or the same exception.
pub normalize_items-exchange :
    (rank : ℤ) (l : List Item) (d : Symmetries)
    → normalize_items rank (map exchange l) d ≡ normalize_items rank l d
unfolding normalize_items
normalize_items-exchange rank [] d = refl
normalize_items-exchange rank (malformed ∷ l) d = refl
normalize_items-exchange rank (triple a b k ∷ l) d = elim (Result-cases (symmetry_kind k)) [
  | inl (v, kv) ↦ rw (
    kv,
    in_rank_comm (in_rank rank b) (in_rank rank a),
    ne_comm b a,
    record_kind_comm b a v d,
    normalize_items-exchange rank l (record_kind a b v d),
  )
  | inr (x, kx) ↦ rw kx
]
