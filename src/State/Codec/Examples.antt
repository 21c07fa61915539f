-- ===== src/State/Codec/Examples.antt =====
-- The theorems about src/mr_hide/state/codec.py at one state, with libraries that keep no secret.
use mr_hide.Fixtures.{alone, quiet, library, key_bytes}
use mr_hide.Prelude.{
  ◌==◌, leb→le, length, any, ℕ, ◌+◌, ◌-◌, ◌≤◌, ◌<◌, ◌≡◌, refl, sym, ap, subst, false, [], ◌∷◌,
  arith, text, text_le, text_eq, is_prefix, contains,
}
use mr_hide.Errors.{Result, err, ok, ok-injective}
use mr_hide.State.Leaves.{
  outer_keys, state_keys, mapping_keys, replace_text, mode_value, parse_mode,
  derive_conversation_key, required_int, required_bool, aad, canonical_json, unique_hooks,
  require_keys, load_object, decode_field, timestamp, required_timestamp,
}
use mr_hide.State.Codec.Laws.{IsRead, IsFaithful}
use mr_hide.State.Codec.Roundtrip.{IsStorable, decrypt-encrypt}
use mr_hide.State.Store.{
  Bytes, Files, lookup, replace, Env, max_vault_bytes, locked, read_unlocked, write_unlocked,
}
use mr_hide.State.Models.{aware, require_utc, ConversationState, check_state, conversation_state}
use mr_hide.State.Codec.{
  mapping_document, state_document, mapping_of_fields, parse_mapping, parse_mappings,
  normalized_state, state_of_fields, parse_state, checked_nonce, envelope_document, encrypt,
  open_envelope, decrypt, vault_codec,
}
use mr_hide.State.Codec.Safety.{IsLoaded, vault_codec-Ends}
use mr_hide.Json.{get_field, put_field, field_keys, unique_onto, hooked, sort_keys}
use mr_hide.Json.Postfix.{run, push, postfix, postfix-loads}
use mr_hide.Privacy.Mapping.{to_set, is_invalid, nests, check_items, check_records, mapping_table}
use mr_hide.Policy.{alias}
use mr_hide.Privacy.Normalization.{normalize_entity, entity_family}
use mr_hide.Prelude.Dict.{get, put_all}
use mr_hide.Errors.Raises.{Ends, is_vault}
use mr_hide.State.Repository.{
  load_unlocked, encrypted, write_state, load, save_over, save_unlocked, save,
}
use mr_hide.State.Codec.Stored.{vault_codec-load}

no_low_character : (n c : ℕ) → c < 100 → any (λ d. d == c) ((n + 100) ∷ []) ≡ false
no_low_character n c h = ground (arith, h)

postfix-IsRead : IsRead postfix
postfix-IsRead h document payload unique written =
    subst (λ p. postfix.loads h p ≡ hooked h (sort_keys document)) (ok-injective written)
      (postfix-loads h (sort_keys document))

less_hundred : (n : ℕ) → n + 100 - 100 ≡ n
less_hundred n = omega arith

library-IsFaithful : IsFaithful library
unfolding text library
library-IsFaithful = record {
  read_again = postfix-IsRead;
  unsealed = λ key nonce plaintext context ciphertext sealed. ap ok (sym (ok-injective sealed));
  b64_again = λ b. refl;
  local_time = λ n. (n + 100) ∷ [];
  local_time-IsLocal =
      λ n small. (no_low_character n b'+' (omega arith), no_low_character n b'Z' (omega arith));
  in_utc = λ n small. refl;
  iso_again = λ n small. ap (λ k. ok (aware k)) (less_hundred n);
}

abbrev nonce_of_twelve : Bytes
nonce_of_twelve = 1 ∷ 2 ∷ 3 ∷ 4 ∷ 5 ∷ 6 ∷ 7 ∷ 8 ∷ 9 ∷ 10 ∷ 11 ∷ 12 ∷ []

-- A state with the mapping of a name.
abbrev kept_state : ConversationState
unfolding text
kept_state = record alone {
  mappings = record {
    records =
        record {
          entity_type = text "PERSON";
          normalized = text "Ada";
          original = text "Ada";
          substitute = text "<P0>";
          mode = alias;
        }
        ∷ [];
  };
}

repository_engine : Unit {0}
unfolding locked lookup replace read_unlocked write_unlocked load_unlocked encrypted write_state
    load save_over save_unlocked save
repository_engine = tt

codec_engine : Unit {0}
unfolding text text_eq text_le is_prefix contains hooked sort_keys get_field put_field field_keys
    unique_onto unique_hooks require_keys outer_keys state_keys mapping_keys replace_text mode_value
    parse_mode derive_conversation_key required_int required_bool aad canonical_json load_object
    decode_field timestamp required_timestamp mapping_document state_document mapping_of_fields
    parse_mapping parse_mappings normalized_state state_of_fields parse_state checked_nonce
    envelope_document encrypt open_envelope decrypt check_state conversation_state require_utc run
    push to_set is_invalid nests check_items check_records normalize_entity entity_family get
    put_all mapping_table
codec_engine = tt

kept_state-IsStorable : IsStorable library kept_state
unfolding codec_engine library
kept_state-IsStorable = (refl, refl, omega arith, omega arith)

abbrev kept_bytes : Result Bytes
kept_bytes = encrypt library (ok nonce_of_twelve) kept_state key_bytes

abbrev payload_of : Result Bytes → Bytes
payload_of (ok p) = p
payload_of (err e) = []

kept_payload : Bytes
kept_payload = payload_of kept_bytes

kept_payload-made : kept_bytes ≡ ok kept_payload
unfolding codec_engine kept_payload kept_state library
kept_payload-made = refl

kept_payload-short : length kept_payload ≤ max_vault_bytes
unfolding codec_engine kept_payload kept_state library
kept_payload-short = leb→le (length kept_payload) max_vault_bytes refl

decrypt-encrypt_example :
    decrypt library kept_payload key_bytes kept_state.conversation_id ≡ ok kept_state
decrypt-encrypt_example =
    decrypt-encrypt library library-IsFaithful kept_state kept_state-IsStorable (ok nonce_of_twelve)
      key_bytes kept_payload kept_payload-short kept_payload-made

abbrev keyed : Env
keyed = record quiet { load_existing = ok key_bytes; nonce = ok nonce_of_twelve }

abbrev followed : ConversationState
followed = record kept_state { revision = 5; last_activity = 600 }

abbrev kept_files : Files
kept_files = (7, kept_payload) ∷ []

followed-IsStorable : IsStorable library followed
unfolding codec_engine library kept_state
followed-IsStorable = (refl, refl, omega arith, omega arith)

followed_saved : (save (vault_codec library) keyed followed 4 kept_files).1 ≡ ok tt
unfolding codec_engine kept_payload kept_state library repository_engine
followed_saved = refl

vault_codec-load_example :
    (load
      (vault_codec library)
      keyed
      7
      (save (vault_codec library) keyed followed 4 kept_files).0).1
    ≡ ok followed
unfolding kept_state
vault_codec-load_example =
    vault_codec-load library library-IsFaithful keyed keyed followed key_bytes followed-IsStorable
      refl refl (λ files. refl) 4 kept_files followed_saved refl refl

vault_codec-Ends_example :
    Ends is_vault (IsLoaded library 7) (load (vault_codec library) keyed 7 kept_files).1
vault_codec-Ends_example = vault_codec-Ends library keyed 7 kept_files
