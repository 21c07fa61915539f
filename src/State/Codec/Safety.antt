-- ===== src/State/Codec/Safety.antt =====
-- How `decrypt` of src/mr_hide/state/codec.py ends, whatever the payload is.
-- A state of the conversation that its constructor accepts, with a table that its own accepts.
use mr_hide.State.Models.{
  Moment, require_utc, schema_version_number, ConversationState, check_state, conversation_state,
  IsState,
}
use mr_hide.Errors.{
  Reason, unsupported_state_schema, vault_too_large, vault_authentication_failed,
  vault_envelope_invalid, vault_identity_mismatch, vault_state_invalid, Error, privacy, vault,
  runtime, responses, messages, malformed, builtin, Result, err, ok, ◌>>=◌, ◌>>◌, raise_if,
}
use mr_hide.Prelude.{
  ltb, ◌==◌, length, Text, ℕ, ◌≡◌, refl, sym, subst, Bool, not, Option, none, some, List, text,
}
use mr_hide.State.Codec.{
  parse_mappings, raw_mappings, normalized_state, state_of_fields, parse_state, open_envelope,
  decrypt, vault_codec,
}
use mr_hide.State.Leaves.{
  CodecLibrary, nonce_bytes, max_envelope_bytes, outer_keys, state_keys, as_vault, unless_malformed,
  parse_mode, derive_conversation_key, required, required_int, required_bool, aad, load_object,
  decode_field, required_timestamp, equals_version, equals_id,
}
use mr_hide.State.Store.{
  Bytes, Files, LockReply, acquired, refused, unreleased, Env, Io, as_vault_error, locked,
  read_unlocked,
}
use mr_hide.State.Repository.{load_unlocked, load}
use mr_hide.Errors.Raises.{Ends, is_vault, >>=-Ends, guard-Ends, any_error, Ends-of_ok, >>=-any}
use mr_hide.Json.{Json, Fields, get_or_null}
use mr_hide.Policy.{SubstitutionMode}
use mr_hide.Privacy.Mapping.{MappingRecord, MappingTable, mapping_table}
use mr_hide.Privacy.Mapping.Valid.{IsValid, mapping_table_lem}

abbrev pub IsLoaded : CodecLibrary → ℕ → ConversationState → Type 0
IsLoaded l n s = (s.conversation_id ≡ n) × IsState s × IsValid l.unicode s.mappings.records

normalized_state-Ends :
    (l : CodecLibrary) (n : ℕ) (revision : Option ℕ) (created activity : Moment)
    (mode : SubstitutionMode) (bypassed : Bool) (mappings : MappingTable)
    → IsValid l.unicode mappings.records
    → Ends any_error
        (IsLoaded l n)
        (normalized_state l n revision created activity mode bypassed mappings)
unfolding normalized_state conversation_state
normalized_state-Ends l n none created activity mode bypassed mappings valid = refl
normalized_state-Ends l n (some revision) created activity mode bypassed mappings valid =
    >>=-any _ (require_utc created) _ (λ created_at.
      >>=-any _ (require_utc activity) _ (λ last_activity.
        >>=-Ends any_error (λ done. IsState (made created_at last_activity)) _
          (check_state (made created_at last_activity)) _
          (Ends-of_ok _ (check_state (made created_at last_activity)) (λ done same. same))
          (λ done accepted. (refl, accepted, valid))))
  where
    made : ℕ → ℕ → ConversationState
    made created_at last_activity = record {
      conversation_id = n;
      revision = revision;
      created_at = created_at;
      last_activity = last_activity;
      mode = mode;
      bypassed = bypassed;
      mappings = mappings;
      schema_version = schema_version_number;
    }

state_of_fields-Ends :
    (l : CodecLibrary) (n : ℕ) (fs : Fields)
    → Ends any_error (IsLoaded l n) (state_of_fields l n fs)
unfolding state_of_fields text
state_of_fields-Ends l n fs = >>=-any _ (required (text "mappings") fs) _ (λ listed.
    >>=-any _ (raw_mappings listed) _ (λ raw. >>=-any _ (parse_mappings raw) _ (λ records.
      >>=-Ends any_error (λ m. IsValid l.unicode m.records) _ (mapping_table l.unicode records) _
        (Ends-of_ok _ (mapping_table l.unicode records) (valid records))
        (λ mappings accepted.
          >>=-any _ (required (text "revision") fs >>= required_int) _ (λ revision.
            >>=-any _ (required (text "created_at") fs >>= required_timestamp l) _ (λ created.
              >>=-any _ (required (text "last_activity") fs >>= required_timestamp l) _ (λ activity.
                >>=-any _ (required (text "mode") fs >>= parse_mode) _ (λ mode.
                  >>=-any _ (required (text "bypassed") fs >>= required_bool) _ (λ bypassed.
                    normalized_state-Ends l n revision created activity mode bypassed mappings
                      accepted)))))))))
  where
    valid :
        (records : List MappingRecord) (m : MappingTable)
        → mapping_table l.unicode records ≡ ok m
        → IsValid l.unicode m.records
    valid records m h =
        let (same, accepted) = mapping_table_lem l.unicode records m h in
        subst (λ x. IsValid l.unicode x.records) (sym same) accepted

guard-any :
    {A : Type 0} (R : A → Type 0) (b : Bool) (e : Error) (next : Result A)
    → Ends any_error R next
    → Ends any_error R (raise_if b e >> next)
guard-any R b e next h = >>=-any R (raise_if b e) (λ done. next) (λ done. h)

as_vault-Ends :
    {A : Type 0} (Q : A → Type 0) (reason : Reason) (r : Result A)
    → Ends any_error Q r
    → Ends is_vault Q (as_vault reason r)
as_vault-Ends Q reason (ok a) h = h
as_vault-Ends Q reason (err malformed) h = refl
as_vault-Ends Q reason (err builtin) h = refl
as_vault-Ends Q reason (err (vault r)) h = refl
as_vault-Ends Q reason (err (privacy r)) h = refl
as_vault-Ends Q reason (err (runtime r)) h = refl
as_vault-Ends Q reason (err (responses r)) h = refl
as_vault-Ends Q reason (err (messages r)) h = refl

parse_state-Ends :
    (l : CodecLibrary) (n : ℕ) (fs : Fields) → Ends is_vault (IsLoaded l n) (parse_state l n fs)
unfolding parse_state text
parse_state-Ends l n fs =
    guard-Ends is_vault _ (not (equals_id l n (get_or_null (text "conversation_id") fs)))
      (vault vault_identity_mismatch) _ refl
      (guard-Ends is_vault _ (not (equals_version l (get_or_null (text "schema_version") fs)))
        (vault unsupported_state_schema) _ refl
        (as_vault-Ends _ vault_state_invalid (state_of_fields l n fs)
          (state_of_fields-Ends l n fs)))

Ends-weaken : {A : Type 0} (Q : A → Type 0) (r : Result A) → Ends is_vault Q r → Ends any_error Q r
Ends-weaken Q (ok a) h = h
Ends-weaken Q (err e) h = refl

module _ (l : CodecLibrary) where
  open_envelope-Ends :
      (key : Bytes) (n : ℕ) (envelope : Fields)
      → Ends any_error (IsLoaded l n) (open_envelope l key n envelope)
  unfolding open_envelope text
  open_envelope-Ends key n envelope =
      guard-any _ (not (equals_version l (part (text "schema_version"))))
        (vault unsupported_state_schema) _
        (guard-any _ (not (equals_id l n (part (text "conversation_id"))))
          (vault vault_identity_mismatch) _
          (>>=-any _ (decode_field l (part (text "nonce")) vault_envelope_invalid) _ (λ nonce.
            >>=-any _ (decode_field l (part (text "ciphertext")) vault_envelope_invalid) _
              (λ ciphertext.
                guard-any _ (not (length nonce == nonce_bytes)) (vault vault_envelope_invalid) _ (
                  >>=-any _ (derive_conversation_key l key n) _ (λ derived.
                    >>=-any _
                      (unless_malformed vault_authentication_failed
                        (l.unseal derived nonce ciphertext (aad l n)))
                      _
                      (λ plaintext.
                        >>=-any _ (load_object l plaintext state_keys vault_state_invalid) _
                          (λ document.
                            Ends-weaken (IsLoaded l n) (parse_state l n document)
                              (parse_state-Ends l n document)))))))))
    where
      part : Text → Json
      part k = get_or_null k envelope

  -- Whatever the payload, the key and the libraries' answers are, a state that `decrypt` returns is
  -- one of the expected conversation, which its constructor accepts and whose table its own accepts.
  pub decrypt-Ends :
      (payload key : Bytes) (n : ℕ) → Ends any_error (IsLoaded l n) (decrypt l payload key n)
  unfolding decrypt
  decrypt-Ends payload key n =
      guard-any _ (ltb max_envelope_bytes (length payload)) (vault vault_too_large) _ (
        >>=-any _ (load_object l payload outer_keys vault_envelope_invalid) _
          (λ envelope. open_envelope-Ends key n envelope))

  load_unlocked-Ends :
      (env : Env) (n : ℕ) (files : Files)
      → Ends any_error (IsLoaded l n) (load_unlocked (vault_codec l) env n files)
  unfolding load_unlocked
  load_unlocked-Ends env n files =
      >>=-any _ (read_unlocked env n files) _
        (λ payload. >>=-any _ env.load_existing _ (λ key. decrypt-Ends payload key n))

as_vault_error-Ends :
    {A : Type 0} (Q : A → Type 0) (r : Result A)
    → Ends any_error Q r
    → Ends is_vault Q (as_vault_error r)
as_vault_error-Ends Q (ok a) h = h
as_vault_error-Ends Q (err malformed) h = refl
as_vault_error-Ends Q (err builtin) h = refl
as_vault_error-Ends Q (err (vault r)) h = refl
as_vault_error-Ends Q (err (privacy r)) h = refl
as_vault_error-Ends Q (err (runtime r)) h = refl
as_vault_error-Ends Q (err (responses r)) h = refl
as_vault_error-Ends Q (err (messages r)) h = refl

locked-Ends :
    {A : Type 0} (Q : A → Type 0) (env : Env) (body : Io A) (files : Files) (reply : LockReply)
    → env.lock ≡ reply
    → Ends any_error Q (body (env.others files)).1
    → Ends is_vault Q (locked env body files).1
unfolding locked
locked-Ends Q env body files refused e h = rw e refl
locked-Ends Q env body files acquired e h =
    rw e (as_vault_error-Ends Q (body (env.others files)).1 h)
locked-Ends Q env body files unreleased e h = rw e refl

-- Whatever the files, the operating system's and the libraries' answers are: a load with the vault's
-- codec ends with a state of the conversation that it was asked for, which its constructor accepts
-- and whose table its own accepts, or it raises a `VaultError`.
pub vault_codec-Ends :
    (l : CodecLibrary) (env : Env) (n : ℕ) (files : Files)
    → Ends is_vault (IsLoaded l n) (load (vault_codec l) env n files).1
unfolding load
vault_codec-Ends l env n files =
    locked-Ends (IsLoaded l n) env (λ found. (found, load_unlocked (vault_codec l) env n found))
      files env.lock refl (load_unlocked-Ends l env n (env.others files))
