-- ===== src/State/Codec.antt =====
-- src/mr_hide/state/codec.py: the documents, and the class `VaultCodec`.
pub mod Laws
pub mod Times
pub mod Written
pub mod Parts
pub mod Roundtrip
pub mod Safety
pub mod Stored
mod Examples
use mr_hide.Prelude.{
  ltb, ◌==◌, if◌then◌else◌, length, Text, ℕ, Bool, not, Option, none, some, List, [], ◌∷◌, map,
  text,
}
use mr_hide.Json.{
  Json, boolean, int, string, array, object, Items, nil, cons, Fields, end, field, get_or_null,
  to_items,
}
use mr_hide.Errors.{
  unsupported_state_schema, invalid_state_revision, vault_too_large, vault_authentication_failed,
  vault_envelope_invalid, vault_identity_mismatch, vault_state_invalid, nonce_generation_failed,
  vault, malformed, builtin, Result, err, ok, ◌>>=◌, ◌>>◌, raise_if,
}
use mr_hide.Policy.{SubstitutionMode}
use mr_hide.Privacy.Mapping.{MappingRecord, MappingTable, mapping_table}
use mr_hide.State.Models.{
  Moment, require_utc, schema_version_number, ConversationState, conversation_state,
}
use mr_hide.State.Store.{Bytes}
use mr_hide.State.Repository.{Codec}
use mr_hide.State.Leaves.{
  CodecLibrary, nonce_bytes, max_envelope_bytes, outer_keys, state_keys, mapping_keys, as_vault,
  unless_malformed, mode_value, parse_mode, derive_conversation_key, required, required_int,
  required_bool, aad, canonical_json, require_keys, load_object, decode_field, timestamp,
  required_timestamp, equals_version, equals_id,
}

unfoldable pub mapping_document : MappingRecord → Json
unfolding text
mapping_document item = object (
    field (text "entity_type") (string item.entity_type) (
      field (text "normalized") (string item.normalized) (
        field (text "original") (string item.original) (
          field (text "substitute") (string item.substitute)
            (field (text "mode") (string (mode_value item.mode)) end)))))

unfoldable pub state_document : CodecLibrary → ConversationState → Json
unfolding text
state_document l state = object (
    field (text "schema_version") (int state.schema_version) (
      field (text "conversation_id") (string (l.uuids.write state.conversation_id)) (
        field (text "revision") (int state.revision) (
          field (text "created_at") (string (timestamp l state.created_at)) (
            field (text "last_activity") (string (timestamp l state.last_activity)) (
              field (text "mode") (string (mode_value state.mode)) (
                field (text "bypassed") (boolean state.bypassed) (
                  field (text "mappings")
                    (array (to_items (map mapping_document state.mappings.records))) end))))))))

-- `fields[key]`, which has to be a string
abbrev required_string : Text → Fields → Result Text
required_string k fs = do v ← required k fs; elim v [ string t ↦ ok t | _ ↦ err malformed ]

-- the body of `_parse_mapping` under `try`
unfoldable pub mapping_of_fields : Fields → Result MappingRecord
unfolding text
mapping_of_fields fs = do
  entity_type ← required_string (text "entity_type") fs
  normalized ← required_string (text "normalized") fs
  original ← required_string (text "original") fs
  substitute ← required_string (text "substitute") fs
  mode_text ← required_string (text "mode") fs
  mode ← parse_mode (string mode_text)
  ok (record {
    entity_type = entity_type;
    normalized = normalized;
    original = original;
    substitute = substitute;
    mode = mode;
  })

-- what `except (KeyError, ValueError)` of `_parse_mapping` does with an exception of the body
abbrev unless_missing : {A : Type 0} → Result A → Result A
unless_missing (err builtin) = err (vault vault_state_invalid)
unless_missing (err malformed) = err (vault vault_state_invalid)
unless_missing r = r

unfoldable pub parse_mapping : Json → Result MappingRecord
parse_mapping value = do
  fs ← require_keys mapping_keys vault_state_invalid value
  unless_missing (mapping_of_fields fs)

unfoldable pub parse_mappings : Items → Result (List MappingRecord)
parse_mappings nil = ok []
parse_mappings (cons v vs) = do item ← parse_mapping v; items ← parse_mappings vs; ok (item ∷ items)

-- `raw_mappings`, which has to be a list
abbrev pub raw_mappings : Json → Result Items
raw_mappings (array vs) = ok vs
raw_mappings _ = err malformed

-- The constructor's tests of the revision and of the times, which are not in UTC yet.
unfoldable pub normalized_state :
    CodecLibrary
    → ℕ
    → Option ℕ
    → Moment
    → Moment
    → SubstitutionMode
    → Bool
    → MappingTable
    → Result ConversationState
normalized_state l n none created activity mode bypassed mappings =
    err (vault invalid_state_revision)
normalized_state l n (some revision) created activity mode bypassed mappings = do
  created_at ← require_utc created
  last_activity ← require_utc activity
  conversation_state (record {
    conversation_id = n;
    revision = revision;
    created_at = created_at;
    last_activity = last_activity;
    mode = mode;
    bypassed = bypassed;
    mappings = mappings;
    schema_version = schema_version_number;
  })

-- the body of `_parse_state` under `try`
unfoldable pub state_of_fields : CodecLibrary → ℕ → Fields → Result ConversationState
unfolding text
state_of_fields l n fs = do
  listed ← required (text "mappings") fs
  raw ← raw_mappings listed
  records ← parse_mappings raw
  mappings ← mapping_table l.unicode records
  revision ← required (text "revision") fs >>= required_int
  created ← required (text "created_at") fs >>= required_timestamp l
  activity ← required (text "last_activity") fs >>= required_timestamp l
  mode ← required (text "mode") fs >>= parse_mode
  bypassed ← required (text "bypassed") fs >>= required_bool
  normalized_state l n revision created activity mode bypassed mappings

unfoldable pub parse_state : CodecLibrary → ℕ → Fields → Result ConversationState
unfolding text
parse_state l n fs = do
  raise_if (not (equals_id l n (get_or_null (text "conversation_id") fs)))
      (vault vault_identity_mismatch)
  raise_if (not (equals_version l (get_or_null (text "schema_version") fs)))
      (vault unsupported_state_schema)
  as_vault vault_state_invalid (state_of_fields l n fs)

-- `except Exception` around the nonce factory, and the test of what it returns
unfoldable pub checked_nonce : Result Bytes → Result Bytes
checked_nonce (ok nonce) =
    if length nonce == nonce_bytes then ok nonce else err (vault nonce_generation_failed)
checked_nonce (err e) = err (vault nonce_generation_failed)

unfoldable pub envelope_document : CodecLibrary → ℕ → Bytes → Bytes → Json
unfolding text
envelope_document l n nonce ciphertext = object (
    field (text "schema_version") (int schema_version_number) (
      field (text "conversation_id") (string (l.uuids.write n)) (
        field (text "nonce") (string (l.b64_encode nonce))
          (field (text "ciphertext") (string (l.b64_encode ciphertext)) end))))

unfoldable pub encrypt : CodecLibrary → Result Bytes → ConversationState → Bytes → Result Bytes
encrypt l made state master_key = do
  key ← derive_conversation_key l master_key state.conversation_id
  nonce ← checked_nonce made
  plaintext ← canonical_json l (state_document l state)
  ciphertext ← l.seal key nonce plaintext (aad l state.conversation_id)
  canonical_json l (envelope_document l state.conversation_id nonce ciphertext)

-- `decrypt` behind the size of the payload
unfoldable pub open_envelope : CodecLibrary → Bytes → ℕ → Fields → Result ConversationState
unfolding text
open_envelope l master_key n envelope = do
  raise_if (not (equals_version l (get_or_null (text "schema_version") envelope)))
      (vault unsupported_state_schema)
  raise_if (not (equals_id l n (get_or_null (text "conversation_id") envelope)))
      (vault vault_identity_mismatch)
  nonce ← decode_field l (get_or_null (text "nonce") envelope) vault_envelope_invalid
  ciphertext ← decode_field l (get_or_null (text "ciphertext") envelope) vault_envelope_invalid
  raise_if (not (length nonce == nonce_bytes)) (vault vault_envelope_invalid)
  key ← derive_conversation_key l master_key n
  plaintext ← unless_malformed vault_authentication_failed (l.unseal key nonce ciphertext (aad l n))
  document ← load_object l plaintext state_keys vault_state_invalid
  parse_state l n document

unfoldable pub decrypt : CodecLibrary → Bytes → Bytes → ℕ → Result ConversationState
decrypt l payload master_key n = do
  raise_if (ltb max_envelope_bytes (length payload)) (vault vault_too_large)
  envelope ← load_object l payload outer_keys vault_envelope_invalid
  open_envelope l master_key n envelope

-- `VaultCodec`, as the repository uses it
abbrev pub vault_codec : CodecLibrary → Codec
vault_codec l = record { encrypt = encrypt l; decrypt = decrypt l }
