-- ===== src/Privacy/Mapping/Valid.antt =====
-- What a table that `MappingTable` of src/mr_hide/privacy/mapping.py accepts is known to satisfy.
use mr_hide.Prelude.{
  Bool-cases, length, any, keep, All, length-map, Text, text_eq_iff, suc, ◌≤◌, ◌≡◌, refl, ap, subst,
  ◌∙◌, ◌⊎◌, inl, inr, Bool, false, not, List, [], ◌∷◌, map, arith, text_eq,
}
use mr_hide.Prelude.Sorting.{Ordered, Ordered-of_map}
use mr_hide.Errors.{ok}
use mr_hide.Privacy.Unicode.{Unicode}
use mr_hide.Privacy.Models.{is_empty}
use mr_hide.Privacy.Mapping.{
  MappingRecord, MappingTable, to_set, is_invalid, nests, check_items, check_records, mapping_table,
}
use mr_hide.Privacy.Normalization.{normalize_entity}

-- The constructor accepts the records.
abbrev pub IsValid : Unicode → List MappingRecord → Type 0
IsValid u records = check_records u records ≡ ok tt

-- The constructor of a table keeps the records, and accepted them.
pub mapping_table_lem :
    (u : Unicode) (records : List MappingRecord) (table : MappingTable)
    → mapping_table u records ≡ ok table
    → (table ≡ record { records = records }) × IsValid u records
unfolding mapping_table
mapping_table_lem u records table h = (ground arith, ground arith)

module _ {A : Type 0} (same : A → A → Bool) where
  length-to_set-le : (xs : List A) → length (to_set same xs) ≤ length xs
  unfolding to_set
  length-to_set-le [] = omega arith
  length-to_set-le (x ∷ xs) = ground (arith, length-to_set-le xs)

  head_is_new :
      (x : A) (xs : List A)
      → length (to_set same (x ∷ xs)) ≡ suc (length xs)
      → (length (to_set same xs) ≡ length xs) × (any (same x) (to_set same xs) ≡ false)
  unfolding to_set
  head_is_new x xs h = (ground (arith, length-to_set-le xs), ground (arith, length-to_set-le xs))

  to_set_new :
      (x : A) (xs : List A)
      → any (same x) (to_set same xs) ≡ false
      → to_set same (x ∷ xs) ≡ x ∷ to_set same xs
  unfolding to_set
  to_set_new x xs fresh = rw fresh

  pub to_set-eq : (xs : List A) → length (to_set same xs) ≡ length xs → to_set same xs ≡ xs
  unfolding to_set
  to_set-eq [] h = refl
  to_set-eq (x ∷ xs) h =
      let (k, fresh) = head_is_new x xs h in to_set_new x xs fresh ∙ ap (◌∷◌ x) (to_set-eq xs k)

  none_same : (x : A) (xs : List A) → any (same x) xs ≡ false → All (λ y. same x y ≡ false) xs
  none_same x [] h = tt
  none_same x (y ∷ ys) h = (ground arith, none_same x ys (ground arith))

  -- A set as large as the list has no two elements that are the same.
  pub Ordered-of_set :
      (xs : List A) → length (to_set same xs) ≡ length xs → Ordered (λ a b. same a b ≡ false) xs
  Ordered-of_set [] h = tt
  Ordered-of_set (x ∷ xs) h =
      let (k, fresh) = head_is_new x xs h in
      (none_same x xs (rw (to_set-eq xs k) at fresh), Ordered-of_set xs k)

-- what the loop over the items leaves for one of them
abbrev pub IsSeparate : List Text → MappingRecord → Type 0
IsSeparate substitutes r =
    (is_empty r.substitute ≡ false)
    × All (λ s. (s ≡ r.substitute) ⊎ (nests r s ≡ false)) substitutes

others_do_not_nest :
    (r : MappingRecord) (xs : List Text)
    → any (nests r) (keep (λ s. not (text_eq s r.substitute)) xs) ≡ false
    → All (λ s. (s ≡ r.substitute) ⊎ (nests r s ≡ false)) xs
others_do_not_nest r [] h = tt
others_do_not_nest r (x ∷ xs) h = elim (Bool-cases (text_eq x r.substitute)) [
  | inl e ↦ (inl ((text_eq_iff x r.substitute).0 e), others_do_not_nest r xs (ground arith))
  | inr e ↦ (inr (ground arith), others_do_not_nest r xs (ground arith))
]

check_items-IsSeparate :
    (u : Unicode) (substitutes : List Text) (items : List MappingRecord)
    → check_items u substitutes items ≡ ok tt
    → All (IsSeparate substitutes) items
unfolding check_items
check_items-IsSeparate u substitutes [] h = tt
check_items-IsSeparate u substitutes (r ∷ items) h = (
  ((unfold is_invalid in ground arith), others_do_not_nest r substitutes (ground arith)),
  check_items-IsSeparate u substitutes items (ground arith),
)

pub record IsConsistent (records : List MappingRecord) : Type 0 where
  pub distinct : Ordered (λ a b. text_eq a.substitute b.substitute ≡ false) records
  pub separate : All (IsSeparate (map (λ r. r.substitute) records)) records

-- An accepted table has no substitute twice, no empty one, and none that contains another, lies in
-- another, or lies in an original.
pub IsValid-IsConsistent :
    (u : Unicode) (records : List MappingRecord) → IsValid u records → IsConsistent records
unfolding check_records
IsValid-IsConsistent u records h = record {
  distinct =
      Ordered-of_map (λ r. r.substitute) (λ a b. text_eq a b ≡ false) records
        (Ordered-of_set text_eq substitutes size);
  separate =
      subst (λ s. All (IsSeparate s) records) (to_set-eq text_eq substitutes size)
        (check_items-IsSeparate u (to_set text_eq substitutes) records (ground arith));
}
  where
    substitutes : List Text
    substitutes = map (λ r. r.substitute) records

    size : length (to_set text_eq substitutes) ≡ length substitutes
    size = ground (arith, length-map (λ (r : MappingRecord). r.substitute) records)

check_items-keyed :
    (u : Unicode) (substitutes : List Text) (items : List MappingRecord)
    → check_items u substitutes items ≡ ok tt
    → All (λ r. normalize_entity u r.original r.entity_type ≡ r.normalized) items
unfolding check_items is_invalid
check_items-keyed u substitutes [] h = tt
check_items-keyed u substitutes (r ∷ items) h = (
  (text_eq_iff (normalize_entity u r.original r.entity_type) r.normalized).0 (ground arith),
  check_items-keyed u substitutes items (ground arith),
)

-- In an accepted table each record's key is the normal form of its original.
pub IsValid-keyed :
    (u : Unicode) (records : List MappingRecord)
    → IsValid u records
    → All (λ r. normalize_entity u r.original r.entity_type ≡ r.normalized) records
unfolding check_records
IsValid-keyed u records h =
    check_items-keyed u (to_set text_eq (map (λ r. r.substitute) records)) records (ground arith)
