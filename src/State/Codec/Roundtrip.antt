-- ===== src/State/Codec/Roundtrip.antt =====
-- What `encrypt` of src/mr_hide/state/codec.py wrote, `decrypt` reads.
-- A state that its constructor accepts, with a table that its own accepts, and with times that a
-- `datetime` can hold.
use mr_hide.State.Models.{
  aware, require_utc, schema_version_number, ConversationState, check_state, conversation_state,
  IsState,
}
use mr_hide.Errors.{
  Reason, vault_envelope_invalid, vault_state_invalid, privacy, vault, runtime, responses, messages,
  malformed, builtin, Result, err, ok,
}
use mr_hide.Prelude.{
  ltb, ◌==◌, ==_iff, length, Text, text_eq_refl, ◌≤◌, ◌<◌, ◌≡◌, refl, sym, ap, ◌∙◌, true, false,
  some, List, arith, text,
}
use mr_hide.Json.{Json, int, string, object, Fields, end, field, hooked, sort_keys, has_unique_keys}
use mr_hide.State.Codec.{
  state_document, normalized_state, state_of_fields, parse_state, envelope_document, encrypt,
  open_envelope, decrypt, vault_codec,
}
use mr_hide.State.Leaves.{
  CodecLibrary, nonce_bytes, max_envelope_bytes, outer_keys, state_keys, unless_malformed,
  derive_conversation_key, required_int, required_bool, aad, canonical_json, unique_hooks,
  require_keys, load_object, decode_field,
}
use mr_hide.Privacy.Mapping.{mapping_table}
use mr_hide.Privacy.Mapping.Valid.{IsValid}
use mr_hide.State.Codec.Laws.{instants, IsFaithful}
use mr_hide.State.Codec.Times.{required_timestamp-timestamp}
use mr_hide.State.Store.{Bytes, max_vault_bytes}
use mr_hide.State.Codec.Written.{
  json_engine, sorted_state, state_document-read, state_document_unique, sorted_state-keys,
  parse_mode-value, parse_mappings-sorted,
}
use mr_hide.State.Repository.Races.{IsReversible}
use mr_hide.State.Codec.Parts.{encrypt-parts}

abbrev pub IsStorable : CodecLibrary → ConversationState → Type 0
IsStorable l s =
    IsState s
    × IsValid l.unicode s.mappings.records
    × (s.created_at < instants)
    × (s.last_activity < instants)

unless_malformed-ok :
    {A : Type 0} (reason : Reason) (r : Result A) {a : A}
    → unless_malformed reason r ≡ ok a
    → r ≡ ok a
unless_malformed-ok reason (ok a) h = h
unless_malformed-ok reason (err malformed) h = cc
unless_malformed-ok reason (err builtin) h = cc
unless_malformed-ok reason (err (privacy r)) h = cc
unless_malformed-ok reason (err (vault r)) h = cc
unless_malformed-ok reason (err (runtime r)) h = cc
unless_malformed-ok reason (err (responses r)) h = cc
unless_malformed-ok reason (err (messages r)) h = cc

module _ (l : CodecLibrary) (faithful : IsFaithful l) where
  load_object-written :
      (document : Json) (payload : Bytes) (fs : Fields) (keys : List Text) (reason : Reason)
      → has_unique_keys document ≡ true
      → canonical_json l document ≡ ok payload
      → hooked unique_hooks (sort_keys document) ≡ ok (object fs)
      → require_keys keys reason (object fs) ≡ ok fs
      → load_object l payload keys reason ≡ ok fs
  unfolding load_object canonical_json
  load_object-written document payload fs keys reason unique written read complete =
      rw
        (faithful.read_again unique_hooks document payload unique
            (unless_malformed-ok vault_state_invalid (l.json.dumps_sorted document) written)
          ∙ read)
        complete

  module _ (s : ConversationState) (storable : IsStorable l s) where
    accepted_again : conversation_state s ≡ ok s
    unfolding conversation_state
    accepted_again = rw (storable.0) refl

    version : s.schema_version ≡ schema_version_number
    version = let accepted = storable.0 in unfold check_state in ground arith

    normalized_state-stored :
        normalized_state l s.conversation_id
          (some s.revision)
          (aware s.created_at)
          (aware s.last_activity)
          s.mode
          s.bypassed
          s.mappings
        ≡ ok s
    unfolding normalized_state require_utc
    normalized_state-stored =
        ap (λ v. conversation_state (record s { schema_version = v })) (sym version)
        ∙ accepted_again

    state_of_fields-stored : state_of_fields l s.conversation_id (sorted_state l s) ≡ ok s
    unfolding state_of_fields json_engine mapping_table required_int required_bool
    state_of_fields-stored =
        rw
          (
            parse_mappings-sorted s.mappings.records,
            storable.1,
            required_timestamp-timestamp l faithful s.created_at storable.2,
            required_timestamp-timestamp l faithful s.last_activity storable.3,
            parse_mode-value s.mode,
          )
          normalized_state-stored

    parse_state-stored : parse_state l s.conversation_id (sorted_state l s) ≡ ok s
    unfolding parse_state json_engine
    parse_state-stored =
        rw
          (
            text_eq_refl (l.uuids.write s.conversation_id),
            (==_iff s.schema_version schema_version_number).1 version,
            state_of_fields-stored,
          )
          refl

    sorted_envelope : Bytes → Bytes → Fields
    unfolding text
    sorted_envelope nonce ciphertext =
        field (text "ciphertext") (string (l.b64_encode ciphertext)) (
          field (text "conversation_id") (string (l.uuids.write s.conversation_id)) (
            field (text "nonce") (string (l.b64_encode nonce))
              (field (text "schema_version") (int schema_version_number) end)))

    envelope-loaded :
        (nonce ciphertext payload : Bytes)
        → canonical_json l (envelope_document l s.conversation_id nonce ciphertext) ≡ ok payload
        → load_object l payload outer_keys vault_envelope_invalid
          ≡ ok (sorted_envelope nonce ciphertext)
    unfolding json_engine envelope_document sorted_envelope outer_keys
    envelope-loaded nonce ciphertext payload written =
        load_object-written (envelope_document l s.conversation_id nonce ciphertext) payload
          (sorted_envelope nonce ciphertext) outer_keys vault_envelope_invalid refl written refl
          refl

    module _ (nonce plaintext ciphertext key master_key : Bytes)
        (sized : (length nonce == nonce_bytes) ≡ true)
        (written : canonical_json l (state_document l s) ≡ ok plaintext)
        (derived : derive_conversation_key l master_key s.conversation_id ≡ ok key)
        (sealed : l.seal key nonce plaintext (aad l s.conversation_id) ≡ ok ciphertext) where
      open_envelope-sealed :
          open_envelope l master_key s.conversation_id (sorted_envelope nonce ciphertext) ≡ ok s
      unfolding open_envelope json_engine sorted_envelope decode_field
      open_envelope-sealed =
          rw
            (
              text_eq_refl (l.uuids.write s.conversation_id),
              faithful.b64_again nonce,
              faithful.b64_again ciphertext,
              sized,
              derived,
              faithful.unsealed key nonce plaintext (aad l s.conversation_id) ciphertext sealed,
              load_object-written (state_document l s) plaintext (sorted_state l s) state_keys
                  vault_state_invalid (state_document_unique l s) written (state_document-read l s)
                  (sorted_state-keys l s),
            )
            parse_state-stored

    -- If the libraries keep what they document: what `encrypt` returns for a state that can be stored,
    -- if it is not too large for a vault file, `decrypt` gives back for the same key and the identifier
    -- of the state.
    pub decrypt-encrypt :
        (made : Result Bytes) (master_key payload : Bytes)
        → length payload ≤ max_vault_bytes
        → encrypt l made s master_key ≡ ok payload
        → decrypt l payload master_key s.conversation_id ≡ ok s
    unfolding decrypt
    decrypt-encrypt made master_key payload small h =
        let (key, nonce, plaintext, ciphertext, derived, sized, written, sealed, enveloped) =
          encrypt-parts l s made master_key payload h in
        let fits : ltb max_envelope_bytes (length payload) ≡ false = ground (arith, small) in
        rw (fits, envelope-loaded nonce ciphertext payload enveloped)
          (open_envelope-sealed nonce plaintext ciphertext key master_key sized written derived
            sealed)

-- If the libraries keep what they document, the codec decrypts what it encrypted of every storable
-- state, in an envelope that a vault file can hold.
pub vault_codec-IsReversible :
    (l : CodecLibrary) → IsFaithful l → IsReversible (IsStorable l) (vault_codec l)
vault_codec-IsReversible l faithful made key payload s storable small h =
    decrypt-encrypt l faithful s storable made key payload small h
