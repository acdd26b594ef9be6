-- ===== src/ApiDiff/Laws.antt =====
-- When a comparison raises, and when it finds no change.
use fortsym.Base.{
  contains-no_length, no_length, nat_beq, suc, ◌+◌, ◌≤◌, ◌≡◌, value_error, refl, sym, ap, ◌∙◌, ◌↔◌,
  ◌⊎◌, inl, inr, true, false, not, ◌&&◌, List, [], ◌∷◌, keep, length, Option, none, some, Result,
  ok, err, Eq, ◌==◌, ◌/=◌, contains, arith, Bool-cases, Option-cases, Result-cases, if◌then◌else◌,
  beq_refl, nat_eq, is_some, contains-keep, empty_of_contains, All,
}
use fortsym.Base.Dict.{Dict, keys, lookup, insert, lookup-insert}
use fortsym.Base.Order.{Order, sorted, contains-sorted}
use fortsym.ApiDiff.Compare.{
  Changes, is_changed, gather, keyed, build, is_key, changed_row, changed_rows, compare_tables,
  compare,
}

module _ {K R : Type 0} ⦃e : Eq K⦄ ⦃o : Order K⦄ ⦃r : Eq R⦄ where
  is_key-lookup : (d : Dict K R) (k : K) → is_key d k ≡ is_some (lookup k d)
  unfolding lookup
  is_key-lookup [] k = refl
  is_key-lookup ((j, x) ∷ d) k = ground (arith, e.beq_iff k j, e.beq_iff j k, is_key-lookup d k)

  length-gather :
      (d : Dict K R) (ks : List K) (xs : List R) → gather d ks ≡ ok xs → length xs ≡ length ks
  unfolding gather
  length-gather d [] xs h = ground arith
  length-gather d (k ∷ ks) xs h = elim (Option-cases (lookup k d)) [
    | inl missing ↦ absurd (cc (rw missing at h))
    | inr (x, found) ↦ elim (Result-cases (gather d ks)) [
      | inl (ys, rest) ↦ ground (arith, length-gather d ks ys rest)
      | inr (x', failed) ↦ ground arith
    ]
  ]

  -- The three facts that say that two tables agree.
  record Agree (old new : Dict K R) : Type 0 where
    none_added : (k : K) → (not (is_key old k) && is_key new k) ≡ false
    none_removed : (k : K) → (not (is_key new k) && is_key old k) ≡ false
    none_changed : (k : K) (a b : R) → lookup k old ≡ some a → lookup k new ≡ some b → a == b ≡ true

  Agree-lookup : (old new : Dict K R) → Agree old new → (k : K) → lookup k old ≡ lookup k new
  Agree-lookup old new h k = elim (Option-cases (lookup k old)) [
    | inl out ↦ elim (Option-cases (lookup k new)) [
      | inl out' ↦ out ∙ sym out'
      | inr (b, at_new) ↦
          absurd (ground (arith, h.none_added k, is_key-lookup old k, is_key-lookup new k))
    ]
    | inr (a, at_old) ↦ elim (Option-cases (lookup k new)) [
      | inl out' ↦
          absurd (ground (arith, h.none_removed k, is_key-lookup old k, is_key-lookup new k))
      | inr (b, at_new) ↦
          at_old ∙ ap some ((r.beq_iff a b).0 (h.none_changed k a b at_old at_new)) ∙ sym at_new
    ]
  ]

  lookup-Agree : (old new : Dict K R) → ((k : K) → lookup k old ≡ lookup k new) → Agree old new
  lookup-Agree old new h = record {
    none_added = λ k. rw (is_key-lookup old k, is_key-lookup new k, h k) (ground arith);
    none_removed = λ k. rw (is_key-lookup old k, is_key-lookup new k, h k) (ground arith);
    none_changed = λ k a b p q. (r.beq_iff a b).1 (cc (h k));
  }

  -- A row that writes nothing has equal records, and so has every row behind it.
  changed_row-empty :
      (k : K) (x y : Option R) (rest : Result (List (K × R × R)))
      → changed_row k x y rest ≡ ok []
      → (rest ≡ ok []) × ((a b : R) → x ≡ some a → y ≡ some b → a == b ≡ true)
  changed_row-empty k none y rest h = absurd (cc)
  changed_row-empty k (some a) none rest h = absurd (cc)
  changed_row-empty k (some a) (some b) (err x) h = absurd (cc)
  changed_row-empty k (some a) (some b) (ok rows) h = elim (Bool-cases (a == b)) [
    | inl same ↦ (rw same at h, λ a' b' p q. ground (arith, r.beq_iff a b, r.beq_iff a' b'))
    | inr differ ↦ absurd (cc (rw differ at h))
  ]

  changed_rows-empty :
      (old new : Dict K R) (ks : List K)
      → changed_rows old new ks ≡ ok []
      → (k : K) (a b : R) → contains k ks ≡ true
      → lookup k old ≡ some a
      → lookup k new ≡ some b
      → a == b ≡ true
  unfolding changed_rows
  changed_rows-empty old new [] h k a b m p q = absurd (cc)
  changed_rows-empty old new (j ∷ ks) h k a b m p q =
      let (rest, here) =
        changed_row-empty j (lookup j old) (lookup j new) (changed_rows old new ks) h in
      elim (Bool-cases (k == j)) [
        | inl same ↦
            let at_j : k ≡ j = (e.beq_iff k j).0 same in here a b (rw (← at_j) p) (rw (← at_j) q)
        | inr other ↦ changed_rows-empty old new ks rest k a b (rw other at m) p q
      ]

  empty-changed_rows :
      (old new : Dict K R) (ks : List K)
      → ((k : K) → lookup k old ≡ lookup k new)
      → All (λ k. is_some (lookup k old) ≡ true) ks
      → changed_rows old new ks ≡ ok []
  unfolding changed_rows
  empty-changed_rows old new [] h m = refl
  empty-changed_rows old new (j ∷ ks) h m = elim (Option-cases (lookup j old)) [
    | inl out ↦ absurd (cc (rw out at m.0))
    | inr (a, at_old) ↦
        rw (← h j, at_old, empty-changed_rows old new ks h m.1) (ground (arith, r.beq_iff a a))
  ]

  members_some :
      (d : Dict K R) (ks : List K)
      → ((k : K) → contains k ks ≡ true → is_key d k ≡ true)
      → All (λ k. is_some (lookup k d) ≡ true) ks
  members_some d [] h = tt
  members_some d (j ∷ ks) h = (
    sym (is_key-lookup d j) ∙ h j (ground (arith, beq_refl j)),
    members_some d ks (λ k m. h k (ground arith)),
  )

  -- The names of a difference of two tables are all in the table that they are looked up in.
  gather_total :
      (d : Dict K R) (ks : List K)
      → All (λ k. is_some (lookup k d) ≡ true) ks
      → (xs : List R) × (gather d ks ≡ ok xs)
  unfolding gather
  gather_total d [] h = ([], refl)
  gather_total d (k ∷ ks) h = elim (Option-cases (lookup k d)) [
    | inl out ↦ absurd (cc (rw out at h.0))
    | inr (x, found) ↦ let (xs, rest) = gather_total d ks h.1 in (x ∷ xs, rw (found, rest))
  ]

  changed_rows_total :
      (old new : Dict K R) (ks : List K)
      → All (λ k. is_some (lookup k old) ≡ true) ks
      → All (λ k. is_some (lookup k new) ≡ true) ks
      → (rows : List (K × R × R)) × (changed_rows old new ks ≡ ok rows)
  unfolding changed_rows
  changed_rows_total old new [] h g = ([], refl)
  changed_rows_total old new (k ∷ ks) h g = elim (Option-cases (lookup k old)) [
    | inl out ↦ absurd (cc (rw out at h.0))
    | inr (a, at_old) ↦ elim (Option-cases (lookup k new)) [
      | inl out ↦ absurd (cc (rw out at g.0))
      | inr (b, at_new) ↦
          let (rows, rest) = changed_rows_total old new ks h.1 g.1 in
          (if a /= b then (k, a, b) ∷ rows else rows, rw (at_old, at_new, rest))
    ]
  ]

  abbrev added_names : Dict K R → Dict K R → List K
  added_names old new = sorted (keep (λ k. not (is_key old k)) (keys new))

  abbrev common_names : Dict K R → Dict K R → List K
  common_names old new = sorted (keep (is_key new) (keys old))

  contains-added :
      (old new : Dict K R) (k : K)
      → contains k (added_names old new) ≡ (not (is_key old k) && is_key new k)
  contains-added old new k =
      contains-sorted k (keep (λ j. not (is_key old j)) (keys new))
      ∙ contains-keep k (λ j. not (is_key old j)) (keys new)

  contains-common :
      (old new : Dict K R) (k : K)
      → contains k (common_names old new) ≡ (is_key new k && is_key old k)
  contains-common old new k =
      contains-sorted k (keep (is_key new) (keys old)) ∙ contains-keep k (is_key new) (keys old)

  -- Two tables without a repeated key are always compared.
  compare_tables_total : (old new : Dict K R) → (c : Changes K R) × (compare_tables old new ≡ ok c)
  unfolding compare_tables
  compare_tables_total old new =
      let (added, a) = gather_total new (added_names old new) (
        members_some new (added_names old new) (λ k m. ground (arith, contains-added old new k))) in
      let (removed, d) = gather_total old (added_names new old) (
        members_some old (added_names new old) (λ k m. ground (arith, contains-added new old k))) in
      let (rows, c) =
        changed_rows_total old new (common_names old new)
          (members_some old (common_names old new)
            (λ k m. ground (arith, contains-common old new k)))
          (members_some new (common_names old new)
            (λ k m. ground (arith, contains-common old new k))) in
      (record { added = added; removed = removed; changed = rows }, rw (a, d, c))

  module _ (old new : Dict K R) (added removed : List R) (rows : List (K × R × R))
      (a : gather new (added_names old new) ≡ ok added)
      (d : gather old (added_names new old) ≡ ok removed)
      (c : changed_rows old new (common_names old new) ≡ ok rows) where
    Agree-of_unchanged :
        is_changed (record { added = added; removed = removed; changed = rows }) ≡ false
        → Agree old new
    Agree-of_unchanged h =
        let no_rows : rows ≡ [] = no_length rows (ground arith) in
        let none_in : length added ≡ 0 = ground arith in
        let none_out : length removed ≡ 0 = ground arith in
        record {
          none_added = λ k.
              sym (contains-added old new k)
              ∙ contains-no_length k (added_names old new)
                  (sym (length-gather new (added_names old new) added a) ∙ none_in);
          none_removed = λ k.
              sym (contains-added new old k)
              ∙ contains-no_length k (added_names new old)
                  (sym (length-gather old (added_names new old) removed d) ∙ none_out);
          none_changed = λ k x y p q.
              changed_rows-empty old new (common_names old new) (c ∙ ap ok no_rows) k x y
                (ground
                  (arith, contains-common old new k, is_key-lookup old k, is_key-lookup new k))
                p q;
        }

    unchanged_of_Agree :
        Agree old new
        → is_changed (record { added = added; removed = removed; changed = rows }) ≡ false
    unchanged_of_Agree h =
        let no_in : added_names old new ≡ [] =
          empty_of_contains (added_names old new)
            (λ k. contains-added old new k ∙ h.none_added k) in
        let no_out : added_names new old ≡ [] =
          empty_of_contains (added_names new old)
            (λ k. contains-added new old k ∙ h.none_removed k) in
        let no_rows : ok rows ≡ ok [] =
          sym c
          ∙ empty-changed_rows old new (common_names old new) (Agree-lookup old new h) (
              members_some old (common_names old new)
                (λ k m. ground (arith, contains-common old new k))) in
        ground (
          arith,
          ap length no_in ∙ refl,
          length-gather new (added_names old new) added a,
          length-gather old (added_names new old) removed d,
          ap length no_in,
          ap length no_out,
          no_rows,
        )

    unchanged_iff :
        (c : Changes K R)
        → compare_tables old new ≡ ok c
        → (is_changed c ≡ false) ↔ ((k : K) → lookup k old ≡ lookup k new)
    unfolding compare_tables
    unchanged_iff c' h =
        let whole : Changes K R = record { added = added; removed = removed; changed = rows } in
        let same : whole ≡ c' = cc (rw (a, d, c) at h) in
        rw (← same) (
          λ u. Agree-lookup old new (Agree-of_unchanged u),
          λ u. unchanged_of_Agree (lookup-Agree old new u),
        )

  added_some : (old new : Dict K R) → All (λ k. is_some (lookup k new) ≡ true) (added_names old new)
  added_some old new =
      members_some new (added_names old new) (λ k m. ground (arith, contains-added old new k))

  tables_unchanged :
      (old new : Dict K R) (c : Changes K R)
      → compare_tables old new ≡ ok c
      → (is_changed c ≡ false) ↔ ((k : K) → lookup k old ≡ lookup k new)
  tables_unchanged old new c h =
      let (added, a) = gather_total new (added_names old new) (added_some old new) in
      let (removed, d) = gather_total old (added_names new old) (added_some new old) in
      let (rows, r') =
        changed_rows_total old new (common_names old new)
          (members_some old (common_names old new)
            (λ k m. ground (arith, contains-common old new k)))
          (members_some new (common_names old new)
            (λ k m. ground (arith, contains-common old new k))) in
      unchanged_iff old new added removed rows a d r' c h

  -- No record has the key of one before it, or one of the keys seen before the list.
  abbrev pub IsUnrepeated : (R → K) → List K → List R → Type 0
  IsUnrepeated key seen [] = Unit
  IsUnrepeated key seen (x ∷ xs) =
      (contains (key x) seen ≡ false) × IsUnrepeated key (key x ∷ seen) xs

  -- The last record of a list that has the key.
  abbrev pub record_of : (R → K) → K → List R → Option R
  record_of key k [] = none
  record_of key k (x ∷ xs) =
      let later = record_of key k xs in
      if is_some later then later else if key x == k then some x else none

  lookup-build :
      (key : R → K) (k : K) (xs : List R) (d : Dict K R)
      → lookup k (build key xs d)
        ≡ (if is_some (record_of key k xs) then record_of key k xs else lookup k d)
  unfolding build
  lookup-build key k [] d = refl
  lookup-build key k (x ∷ xs) d =
      ground (arith, lookup-build key k xs (insert (key x) x d), lookup-insert (key x) k x d)

  length-insert :
      (k : K) (x : R) (d : Dict K R)
      → length (insert k x d) ≡ (if is_some (lookup k d) then length d else suc (length d))
  unfolding insert lookup
  length-insert k x [] = refl
  length-insert k x ((j, y) ∷ d) = ground (arith, length-insert k x d)

  length-build_bound :
      (key : R → K) (xs : List R) (d : Dict K R) → length (build key xs d) ≤ length xs + length d
  unfolding build
  length-build_bound key [] d = omega arith
  length-build_bound key (x ∷ xs) d =
      ground (arith, length-build_bound key xs (insert (key x) x d), length-insert (key x) x d)

  -- The keys seen are those of the table.
  abbrev IsSeen : List K → Dict K R → Type 0
  IsSeen seen d = (k : K) → contains k seen ≡ is_some (lookup k d)

  IsSeen-insert :
      (k : K) (x : R) (seen : List K) (d : Dict K R)
      → IsSeen seen d
      → IsSeen (k ∷ seen) (insert k x d)
  IsSeen-insert k x seen d h j =
      ground (arith, h j, lookup-insert k j x d, e.beq_iff k j, e.beq_iff j k)

  length-build-IsUnrepeated :
      (key : R → K) (xs : List R) (seen : List K) (d : Dict K R)
      → IsSeen seen d
      → (length (build key xs d) ≡ length xs + length d) ↔ IsUnrepeated key seen xs
  unfolding build
  length-build-IsUnrepeated key [] seen d h = (λ u. tt, λ u. omega arith)
  length-build-IsUnrepeated key (x ∷ xs) seen d h =
      let (from, into) =
        length-build-IsUnrepeated key xs (key x ∷ seen) (insert (key x) x d)
          (IsSeen-insert (key x) x seen d h) in
      elim (Bool-cases (is_some (lookup (key x) d))) [
        | inl at ↦ (
          λ u. absurd (
              ground
                (arith, length-build_bound key xs (insert (key x) x d), length-insert (key x) x d)),
          λ u. absurd (ground (arith, h (key x), u.0)),
        )
        | inr out ↦ (
          λ u. (h (key x) ∙ out, from (ground (arith, length-insert (key x) x d))),
          λ u. let rest = into u.1 in ground (arith, length-insert (key x) x d),
        )
      ]

  keyed-cases :
      (key : R → K) (items : List R)
      → (IsUnrepeated key [] items × (keyed key items ≡ ok (build key items [])))
        ⊎ (¬ IsUnrepeated key [] items × (keyed key items ≡ err value_error))
  unfolding keyed lookup
  keyed-cases key items =
      let (from, into) = length-build-IsUnrepeated key items [] [] (λ k. refl) in
      elim (Bool-cases (nat_beq (length (build key items [])) (length items))) [
        | inl same ↦ inl (from (ground arith), rw same refl)
        | inr other ↦ inr (λ u. absurd (let n = into u in ground arith), rw other refl)
      ]

  record_of-build :
      (key : R → K) (k : K) (items : List R) → lookup k (build key items []) ≡ record_of key k items
  unfolding lookup
  record_of-build key k items = ground (arith, lookup-build key k items [])

  -- `compare` succeeds exactly when neither list has two records of one key; and then it reports no
  -- added, removed or changed record exactly when the lists have the same record for every key.
  pub compare_iff :
      (before after : List R) (key : R → K)
      → (((c : Changes K R) × (compare before after key ≡ ok c))
          ↔ (IsUnrepeated key [] before × IsUnrepeated key [] after))
        × ((c : Changes K R)
            → compare before after key ≡ ok c
            → (is_changed c ≡ false) ↔ ((k : K) → record_of key k before ≡ record_of key k after))
  unfolding compare
  compare_iff before after key = elim (keyed-cases key before) [
    | inr (n, f) ↦
        ((λ u. absurd (cc (rw f at u.1)), λ u. absurd (n u.0)), λ c h. absurd (cc (rw f at h)))
    | inl (b, g) ↦ elim (keyed-cases key after) [
      | inr (n, f) ↦ (
        (λ u. absurd (cc (rw (g, f) at u.1)), λ u. absurd (n u.1)),
        λ c h. absurd (cc (rw (g, f) at h)),
      )
      | inl (b', g') ↦ (
        (
          λ u. (b, b'),
          λ u. rw (g, g') (compare_tables_total (build key before []) (build key after [])),
        ),
        λ c h.
            let (from, into) =
              tables_unchanged (build key before []) (build key after []) c (rw (g, g') at h) in
            (
              λ u k. sym (record_of-build key k before) ∙ from u k ∙ record_of-build key k after,
              λ u.
                  into
                    (λ k. record_of-build key k before ∙ u k ∙ sym (record_of-build key k after)),
            ),
      )
    ]
  ]
