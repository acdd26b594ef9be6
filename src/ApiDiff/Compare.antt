-- ===== src/ApiDiff/Compare.antt =====
-- `unique_records`, `keyed`, `compare` and `diff`.
use fortsym.Base.{
  Bool, false, not, ◌||◌, List, [], ◌∷◌, keep, length, Option, none, some, Result, ok, err,
  value_error, key_error, ◌>>=◌, ◌>>◌, guard, Eq, ◌==◌, ◌/=◌, nat_eq, contains, if◌then◌else◌,
}
use fortsym.Base.Dict.{Dict, keys, lookup, insert}
use fortsym.Base.Order.{Order, sorted}

-- The rows of a comparison; `changed` holds the key, the old record and the new one.
pub record Changes (K R : Type 0) : Type 0 where
  pub added : List R
  pub removed : List R
  pub changed : List (K × R × R)

-- `any(group["counts"][field] for field in ("added", "removed", "changed"))`
abbrev pub is_changed : {K R : Type 0} → Changes K R → Bool
is_changed c = length c.added /= 0 || length c.removed /= 0 || length c.changed /= 0

-- `distribution` is the key `package` of a manifest.
-- The parts of a manifest that `diff` compares.
pub record Manifest (K R : Type 0) : Type 0 where
  pub distribution : K
  pub version : K
  pub modules : List R
  pub root_exports : List R
  pub module_exports : List R
  pub classes : List R

pub record Report (K R : Type 0) : Type 0 where
  pub distribution : K
  pub base_version : K
  pub candidate_version : K
  pub clean : Bool
  pub modules : Changes K R
  pub root_exports : Changes K R
  pub module_exports : Changes K R
  pub classes : Changes K R

-- `item["name"]`, `f"{item['export_module']}.{item['name']}"` and `item["id"]`.
pub record Labels (K R : Type 0) : Type 0 where
  pub name : R → K
  pub export_name : R → K
  pub ident : R → K

abbrev pub prepend {ℓ} : {R : Type ℓ} → Option R → Result (List R) → Result (List R)
prepend none rest = err key_error
prepend (some x) rest = do xs ← rest; ok (x ∷ xs)

abbrev pub conflicts {ℓ} : {R : Type ℓ} ⦃r : Eq R⦄ → Option R → R → Bool
conflicts none x = false
conflicts (some y) x = y /= x

module _ {K R : Type 0} ⦃e : Eq K⦄ ⦃o : Order K⦄ ⦃r : Eq R⦄ where
  -- `[d[name] for name in names]`
  unfoldable pub gather : Dict K R → List K → Result (List R)
  unfolding lookup
  gather d [] = ok []
  gather d (k ∷ ks) = prepend (lookup k d) (gather d ks)

  -- `{key(item): item for item in items}`
  unfoldable pub build : (R → K) → List R → Dict K R → Dict K R
  unfolding insert
  build key [] d = d
  build key (x ∷ xs) d = build key xs (insert (key x) x d)

  -- `keyed`
  unfoldable pub keyed : (R → K) → List R → Result (Dict K R)
  unfolding build
  keyed key items =
      let d = build key items [] in if length d == length items then ok d else err value_error

  abbrev pub is_key : Dict K R → K → Bool
  is_key d k = contains k (keys d)

  abbrev pub changed_row :
      K → Option R → Option R → Result (List (K × R × R)) → Result (List (K × R × R))
  changed_row k (some a) (some b) rest = do
    rows ← rest
    ok (if a /= b then (k, a, b) ∷ rows else rows)
  changed_row k none b rest = err key_error
  changed_row k (some a) none rest = err key_error

  unfoldable pub changed_rows : Dict K R → Dict K R → List K → Result (List (K × R × R))
  unfolding lookup
  changed_rows old new [] = ok []
  changed_rows old new (k ∷ ks) =
      changed_row k (lookup k old) (lookup k new) (changed_rows old new ks)

  -- The rest of `compare`, behind the two tables.
  unfoldable pub compare_tables : Dict K R → Dict K R → Result (Changes K R)
  unfolding gather changed_rows sorted
  compare_tables old new = do
    added ← gather new (sorted (keep (λ k. not (is_key old k)) (keys new)))
    removed ← gather old (sorted (keep (λ k. not (is_key new k)) (keys old)))
    changed ← changed_rows old new (sorted (keep (is_key new) (keys old)))
    ok (record { added = added; removed = removed; changed = changed })

  -- `compare`
  unfoldable pub compare : List R → List R → (R → K) → Result (Changes K R)
  unfolding keyed compare_tables
  compare before after key = do
    old ← keyed key before
    new ← keyed key after
    compare_tables old new

  -- The loop of `unique_records`, on the table of the records so far.
  unfoldable pub unique_from : (R → K) → List R → Dict K R → Result (Dict K R)
  unfolding lookup insert
  unique_from key [] unique = ok unique
  unique_from key (x ∷ xs) unique = do
    guard (not (conflicts (lookup (key x) unique) x)) value_error
    unique_from key xs (insert (key x) x unique)

  -- `unique_records`
  unfoldable pub unique_records : (R → K) → List R → Result (List R)
  unfolding unique_from gather sorted
  unique_records key records = do
    unique ← unique_from key records []
    gather unique (sorted (keys unique))

  -- `diff`, without the two paths that it copies into the report.
  unfoldable pub diff : Labels K R → Manifest K R → Manifest K R → Result (Report K R)
  unfolding compare
  diff labels before after = do
    modules ← compare before.modules after.modules labels.name
    root_exports ← compare before.root_exports after.root_exports labels.name
    module_exports ← compare before.module_exports after.module_exports labels.export_name
    classes ← compare before.classes after.classes labels.ident
    ok (record {
      distribution = after.distribution;
      base_version = before.version;
      candidate_version = after.version;
      clean = not (
          is_changed modules
          || is_changed root_exports
          || is_changed module_exports
          || is_changed classes);
      modules = modules;
      root_exports = root_exports;
      module_exports = module_exports;
      classes = classes;
    })
