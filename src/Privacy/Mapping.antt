-- ===== src/Privacy/Mapping.antt =====
-- src/mr_hide/privacy/mapping.py: the mapping table and what its constructor checks. The substitutes
-- are in `Substitutes`, `transform_text` in `Transform`, `restore_text` in `Restore`.
pub mod Substitutes
pub mod Transform
pub mod Restore
pub mod Valid
pub mod Fresh
pub mod Splice
pub mod Scan
pub mod Progress
pub mod Roundtrip
pub mod Growth
pub mod Parts
mod Examples
use mr_hide.Prelude.{
  ltb, ◌==◌, if◌then◌else◌, length, any, keep, Text, text_eq, contains, Bool, not, ◌&&◌, ◌||◌,
  Option, none, some, List, [], ◌∷◌, map,
}
use mr_hide.Errors.{
  ambiguous_mapping_state, mixed_mapping_modes, invalid_mapping_state, nested_mapping_state,
  privacy, Result, ok, ◌>>◌, raise_if,
}
use mr_hide.Policy.{SubstitutionMode, same_mode}
use mr_hide.Privacy.Unicode.{Unicode}
use mr_hide.Privacy.Models.{is_empty}
use mr_hide.Privacy.Normalization.{normalize_entity}

pub record MappingRecord : Type 0 where
  pub entity_type : Text
  pub normalized : Text
  pub original : Text
  pub substitute : Text
  pub mode : SubstitutionMode

pub record MappingTable : Type 0 where
  pub records : List MappingRecord

-- `MappingTable()`
abbrev pub empty_table : MappingTable
empty_table = record { records = [] }

-- `{x for x in xs}`, in the order of the last occurrences
unfoldable pub to_set : {A : Type 0} → (A → A → Bool) → List A → List A
to_set same [] = []
to_set same (x ∷ xs) = let rest = to_set same xs in if any (same x) rest then rest else x ∷ rest

-- `(item.entity_type, item.normalized)`
abbrev pub record_key : MappingRecord → Text × Text
record_key r = (r.entity_type, r.normalized)

abbrev pub same_key : Text × Text → Text × Text → Bool
same_key a b = text_eq a.0 b.0 && text_eq a.1 b.1

-- the first test of the loop of `__post_init__`
unfoldable pub is_invalid : Unicode → MappingRecord → Bool
is_invalid u item =
    is_empty item.original
    || (is_empty item.normalized
        || (is_empty item.substitute
            || (not (text_eq item.entity_type (u.upper item.entity_type))
                || (not
                      (text_eq (normalize_entity u item.original item.entity_type) item.normalized)
                    || text_eq item.original item.substitute))))

-- the second one, for one of the other substitutes
unfoldable pub nests : MappingRecord → Text → Bool
nests item other =
    contains other item.substitute
    || (contains other item.original || contains item.substitute other)

unfoldable pub check_items : Unicode → List Text → List MappingRecord → Result (Unit {0})
check_items u substitutes [] = ok tt
check_items u substitutes (item ∷ rest) = do
  raise_if (is_invalid u item) (privacy invalid_mapping_state)
  raise_if (any (nests item) (keep (λ s. not (text_eq s item.substitute)) substitutes))
      (privacy nested_mapping_state)
  check_items u substitutes rest

-- `MappingTable.__post_init__`
unfoldable pub check_records : Unicode → List MappingRecord → Result (Unit {0})
check_records u records = do
  let keys = to_set same_key (map record_key records)
  let substitutes = to_set text_eq (map (λ r. r.substitute) records)
  raise_if (not (length keys == length records) || not (length substitutes == length records))
      (privacy ambiguous_mapping_state)
  raise_if (ltb 1 (length (to_set same_mode (map (λ r. r.mode) records))))
      (privacy mixed_mapping_modes)
  check_items u substitutes records

-- `MappingTable(records)`
unfoldable pub mapping_table : Unicode → List MappingRecord → Result MappingTable
mapping_table u records = do check_records u records; ok (record { records = records })

unfoldable pub find_record : Text → Text → List MappingRecord → Option MappingRecord
find_record entity_type normalized [] = none
find_record entity_type normalized (item ∷ records) =
    if text_eq item.entity_type entity_type && text_eq item.normalized normalized
    then some item
    else find_record entity_type normalized records

-- the method `find`
abbrev pub find : MappingTable → Text → Text → Option MappingRecord
find table entity_type normalized = find_record entity_type normalized table.records
