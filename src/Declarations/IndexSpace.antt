-- ===== src/Declarations/IndexSpace.antt =====
-- `_index_variance`, `IndexType` and `Index` of python/fortsym/__init__.py.
use fortsym.Base.{
  ◌≤◌, String, ◌≡◌, ◌⊎◌, inl, inr, Bool, true, false, ◌&&◌, ◌||◌, [], ◌∷◌, arith, Option, none,
  some, Result, ok, err, value_error, index_error, ◌>>=◌, ◌>>◌, guard, ◌==◌, Eq, nat_eq, list_eq,
  string_eq, contains, length, leb, if◌then◌else◌, Result-cases,
}
use fortsym.Base.Int.{ℤ, pos, negsuc, int_eq, ltb_ℤ, leb_ℤ, opposite}
use fortsym.Base.Text.{Text, strip}

abbrev pub index_tangent : ℤ
index_tangent = pos 1

abbrev pub index_user : ℤ
index_user = pos 5

pub data Variance : Type 0 where
  number : ℤ → Variance
  name : String → Variance

-- `_index_variance`
unfoldable pub index_variance : Variance → Result ℤ
index_variance (number v) =
    if v == pos 1 then ok (pos 1) else if v == negsuc 0 then ok (negsuc 0) else err value_error
index_variance (name s) =
    if contains s ("upper" ∷ "up" ∷ "contravariant" ∷ [])
    then ok (pos 1)
    else if contains s ("lower" ∷ "down" ∷ "covariant" ∷ [])
    then ok (negsuc 0)
    else err value_error

pub record IndexType : Type 0 where
  pub name : Text
  pub dimension : ℤ
  pub category : ℤ

-- `IndexType(name, dimension, category)`
unfoldable pub index_type : Text → ℤ → ℤ → Result IndexType
index_type title dimension category =
    let stripped = strip title in
    do
      guard (leb 1 (length stripped) && leb (length stripped) 64) value_error
      guard (leb_ℤ (pos 1) dimension) value_error
      guard (leb_ℤ index_tangent category && leb_ℤ category index_user) value_error
      ok (record { name = stripped; dimension = dimension; category = category })

pub record Index : Type 0 where
  pub space : IndexType
  pub slot : ℤ
  pub variance : ℤ
  pub label : Text
  pub dummy : Bool

abbrev pub in_space : IndexType → ℤ → Bool
in_space space slot = leb_ℤ (pos 0) slot && ltb_ℤ slot space.dimension

-- `Index(space, slot, variance, label, dummy)`
unfoldable pub make_index : IndexType → ℤ → Variance → Text → Bool → Result Index
make_index space slot variance label dummy = do
  sign ← index_variance variance
  guard (in_space space slot) index_error
  guard (leb (length (strip label)) 64) value_error
  ok (record { space = space; slot = slot; variance = sign; label = strip label; dummy = dummy })

-- `"" if label is None else str(label).strip()`
abbrev pub label_text : Option Text → Text
label_text none = []
label_text (some label) = strip label

-- `IndexType.index`
unfoldable pub index : IndexType → ℤ → Variance → Option Text → Bool → Result Index
unfolding make_index
index space slot variance label dummy = do
  guard (in_space space slot) index_error
  guard (leb (length (label_text label)) 64) value_error
  make_index space slot variance (label_text label) dummy

-- `Index.compatible`
unfoldable pub compatible : Index → Index → Bool
compatible a b =
    a.space.name == b.space.name
    && a.space.dimension == b.space.dimension
    && a.space.category == b.space.category
    && a.variance == opposite b.variance
    && (length a.label == 0 || length b.label == 0 || a.label == b.label)

-- What every accepted index satisfies.
pub record IsValid (i : Index) : Type 0 where
  pub slot_low : leb_ℤ (pos 0) i.slot ≡ true
  pub slot_high : ltb_ℤ i.slot i.space.dimension ≡ true
  pub sign : (i.variance ≡ pos 1) ⊎ (i.variance ≡ negsuc 0)
  pub label_fits : length i.label ≤ 64

index_variance-sign :
    (v : Variance) (s : ℤ) → index_variance v ≡ ok s → (s ≡ pos 1) ⊎ (s ≡ negsuc 0)
unfolding index_variance
index_variance-sign (number v) s h = ground arith
index_variance-sign (name v) s h = ground arith

-- An index that `IndexType.index` returns is in the space that made it, at the slot asked for; its
-- slot is below the dimension, its variance 1 or -1, and its label at most 64 characters long.
pub index-IsValid :
    (space : IndexType) (slot : ℤ) (v : Variance) (label : Option Text) (dummy : Bool) (i : Index)
    → index space slot v label dummy ≡ ok i
    → (i.space ≡ space) × (i.slot ≡ slot) × IsValid i
unfolding index
index-IsValid space slot v label dummy i h = elim (Result-cases (index_variance v)) [
  | inl (s, e) ↦ ground (arith, index_variance-sign v s e)
  | inr (x, e) ↦ ground arith
]

beq_comm {ℓ} : {A : Type ℓ} ⦃e : Eq A⦄ (a b : A) → e.beq a b ≡ e.beq b a
beq_comm ⦃e⦄ a b = ground (arith, e.beq_iff a b, e.beq_iff b a)

compatible_comm : (i j : Index) → compatible i j ≡ compatible j i
unfolding compatible
compatible_comm i j = ground (arith, beq_comm i.space.name j.space.name, beq_comm i.label j.label)

-- A contraction needs one upper and one lower slot.
compatible_irrefl : (i : Index) → IsValid i → compatible i i ≡ false
unfolding compatible
compatible_irrefl i h = ground arith

-- Compatibility of indices is symmetric, and no index that is valid is compatible with itself.
pub compatible_laws :
    (i j : Index) → IsValid i → (compatible i j ≡ compatible j i) × (compatible i i ≡ false)
compatible_laws i j h = (compatible_comm i j, compatible_irrefl i h)
