-- ===== src/State/Codec/Written.antt =====
-- The documents of src/mr_hide/state/codec.py, as they are read when they were written.
use mr_hide.Prelude.{◌≡◌, refl, true, List, [], ◌∷◌, map, text, text_le, text_eq}
use mr_hide.Json.{
  Json, boolean, int, string, array, object, Items, Fields, end, field, get_field, put_field,
  field_keys, to_items, unique_onto, hooked, hooked_items, sort_keys, sort_items, has_unique_keys,
  items_have_unique_keys,
}
use mr_hide.Errors.{vault_state_invalid, ok}
use mr_hide.Privacy.Mapping.{MappingRecord}
use mr_hide.State.Leaves.{
  CodecLibrary, state_keys, mapping_keys, mode_value, parse_mode, unique_hooks, require_keys,
  timestamp,
}
use mr_hide.State.Codec.{
  mapping_document, state_document, mapping_of_fields, parse_mapping, parse_mappings,
}
use mr_hide.State.Models.{ConversationState}
use mr_hide.Policy.{SubstitutionMode, alias, compatibility}

abbrev sorted_mapping : MappingRecord → Json
unfolding text
sorted_mapping item = object (
    field (text "entity_type") (string item.entity_type) (
      field (text "mode") (string (mode_value item.mode)) (
        field (text "normalized") (string item.normalized) (
          field (text "original") (string item.original)
            (field (text "substitute") (string item.substitute) end)))))

documents : List MappingRecord → Items
documents records = to_items (map mapping_document records)

pub sorted_documents : List MappingRecord → Items
sorted_documents records = to_items (map sorted_mapping records)

unfoldable pub json_engine : Unit {0}
unfolding text text_eq text_le hooked sort_keys has_unique_keys get_field put_field field_keys
    unique_onto unique_hooks require_keys
json_engine = tt

mapping_document-read :
    (r : MappingRecord)
    → hooked unique_hooks (sort_keys (mapping_document r)) ≡ ok (sorted_mapping r)
unfolding json_engine mapping_document
mapping_document-read r = refl

documents-read :
    (records : List MappingRecord)
    → hooked_items unique_hooks (sort_items (documents records)) ≡ ok (sorted_documents records)
unfolding documents sorted_documents hooked_items sort_items
documents-read [] = refl
documents-read (r ∷ records) = rw (mapping_document-read r, documents-read records) refl

documents_unique :
    (records : List MappingRecord) → items_have_unique_keys (documents records) ≡ true
unfolding documents json_engine mapping_document
documents_unique [] = refl
documents_unique (r ∷ records) = documents_unique records

abbrev pub sorted_state : CodecLibrary → ConversationState → Fields
unfolding text
sorted_state l state = field (text "bypassed") (boolean state.bypassed) (
    field (text "conversation_id") (string (l.uuids.write state.conversation_id)) (
      field (text "created_at") (string (timestamp l state.created_at)) (
        field (text "last_activity") (string (timestamp l state.last_activity)) (
          field (text "mappings") (array (sorted_documents state.mappings.records)) (
            field (text "mode") (string (mode_value state.mode)) (
              field (text "revision") (int state.revision)
                (field (text "schema_version") (int state.schema_version) end)))))))

pub state_document-read :
    (l : CodecLibrary) (s : ConversationState)
    → hooked unique_hooks (sort_keys (state_document l s)) ≡ ok (object (sorted_state l s))
unfolding json_engine state_document documents
state_document-read l s = rw (documents-read s.mappings.records) refl

pub state_document_unique :
    (l : CodecLibrary) (s : ConversationState) → has_unique_keys (state_document l s) ≡ true
unfolding json_engine state_document documents
state_document_unique l s = rw (documents_unique s.mappings.records) refl

pub sorted_state-keys :
    (l : CodecLibrary) (s : ConversationState)
    → require_keys state_keys vault_state_invalid (object (sorted_state l s))
      ≡ ok (sorted_state l s)
unfolding json_engine state_keys
sorted_state-keys l s = refl

pub parse_mode-value : (m : SubstitutionMode) → parse_mode (string (mode_value m)) ≡ ok m
unfolding parse_mode mode_value json_engine
parse_mode-value alias = refl
parse_mode-value compatibility = refl

parse_mapping-sorted : (r : MappingRecord) → parse_mapping (sorted_mapping r) ≡ ok r
unfolding parse_mapping mapping_keys mapping_of_fields json_engine
parse_mapping-sorted r = rw (parse_mode-value r.mode) refl

pub parse_mappings-sorted :
    (records : List MappingRecord) → parse_mappings (sorted_documents records) ≡ ok records
unfolding parse_mappings sorted_documents
parse_mappings-sorted [] = refl
parse_mappings-sorted (r ∷ records) =
    rw (parse_mapping-sorted r, parse_mappings-sorted records) refl
