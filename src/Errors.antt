-- ===== src/Errors.antt =====
-- The exceptions: `PrivacyProcessingError` (src/mr_hide/privacy/models.py), `VaultError`
-- (src/mr_hide/state/models.py), `PrivacyRuntimeError` (src/mr_hide/runtime/privacy.py),
-- `ResponsesTransformError` and `MessagesTransformError` (src/mr_hide/protocols), each with its
-- reason code, and the exceptions of Python itself that the code can meet.
pub mod Raises
use mr_hide.Prelude.{◌≡◌, refl, ◌≢◌, ◌⊎◌, inl, inr, Bool, true, false, none, some}

-- The reason codes, with `_` for `-`, and without the prefixes `responses-` and `messages-`.
pub data Reason : Type 0 where
  invalid_detection_span invalid_detection_score invalid_entity_type : Reason
  invalid_detection_metadata detection_outside_text detection_failed : Reason
  detection_unavailable unsupported_detection_language : Reason
  ambiguous_mapping_state mixed_mapping_modes invalid_mapping_state nested_mapping_state : Reason
  substitute_space_exhausted token_scoring_failed ambiguous_existing_substitute : Reason
  empty_normalized_entity mapping_mode_mismatch unknown_substitute : Reason
  invalid_conversation_id invalid_state_timestamp unsupported_state_schema : Reason
  invalid_state_revision invalid_state_policy invalid_initial_revision : Reason
  vault_already_exists invalid_expected_revision invalid_next_revision stale_vault_write : Reason
  vault_lock_failed vault_list_failed vault_list_too_large vault_too_large vault_missing : Reason
  vault_read_failed vault_write_invalid vault_write_failed vault_delete_failed : Reason
  master_key_missing vault_authentication_failed : Reason
  missing expired bypass_warning_not_accepted policy_mode_mismatch : Reason
  vault_document_duplicate_key vault_envelope_invalid vault_identity_mismatch : Reason
  vault_state_invalid nonce_generation_failed master_key_invalid : Reason
  json_size_invalid json_invalid json_duplicate_key json_too_deep : Reason
  transformed_key_collision text_transform_failed content_invalid event_invalid : Reason
  item_invalid tools_invalid prompt_invalid output_invalid error_invalid : Reason
  tool_output_invalid tool_arguments_invalid input_invalid tool_input_invalid : Reason
  tool_result_invalid sse_json_invalid sse_invalid sse_size_invalid sse_too_large : Reason
  sse_event_invalid sse_event_too_large sse_delta_mismatch sse_incomplete_delta : Reason
  keyring_unavailable keyring_not_approved master_key_read_failed : Reason
  master_key_generation_failed master_key_write_failed master_key_lock_failed : Reason
  vault_directory_unavailable : Reason
  conversation_unavailable transaction_already_committed privacy_processing_failed : Reason

pub data Error : Type 0 where
  privacy : Reason → Error
  vault : Reason → Error
  runtime : Reason → Error
  responses : Reason → Error
  messages : Reason → Error
  -- what a call of a library raises of the exceptions that the handler behind that call names: of
  -- `json.loads` these are `JSONDecodeError`, `UnicodeDecodeError` and `RecursionError`, of writing
  -- and of dates, UUIDs and base64 every `ValueError` and `TypeError`, of the cipher `InvalidTag`
  malformed : Error
  -- any other exception that is none of the package's, such as `OverflowError`, or the plain
  -- `ValueError` of `json.loads` for a number of too many digits, which no handler behind it names
  builtin : Error

pub data Result {ℓ} (T : Type ℓ) : Type ℓ where
  err : Error → Result T
  ok : T → Result T

infixl 5 ◌>>=◌ ◌>>◌
abbrev pub ◌>>=◌ {ℓ ℓ'} : {S : Type ℓ} {T : Type ℓ'} → Result S → (S → Result T) → Result T
err problem >>= next = err problem
ok answer >>= next = next answer

abbrev pub ◌>>◌ {ℓ'} : {T : Type ℓ'} → Result (Unit {0}) → Result T → Result T
first >> second = first >>= λ _. second

-- `if b: raise e`
abbrev pub raise_if : Bool → Error → Result (Unit {0})
raise_if true e = err e
raise_if false e = ok tt

-- What a successful chain is made of.
pub >>=-eq-ok {ℓ ℓ'} :
    {S : Type ℓ} {T : Type ℓ'} (first : Result S) (next : S → Result T) {end : T}
    → (first >>= next) ≡ ok end
    → (answer : S) × (first ≡ ok answer) × (next answer ≡ ok end)
>>=-eq-ok (err problem) next e = cc
>>=-eq-ok (ok answer) next e = (answer, refl, e)

pub raise_if-ok : (b : Bool) (e : Error) → raise_if b e ≡ ok tt → b ≡ false
raise_if-ok true e h = cc
raise_if-ok false e h = refl

-- What follows a guard that did not raise.
pub after_guard {ℓ} :
    {B : Type ℓ} (b : Bool) (e : Error) (k : Result B) {x : B}
    → (raise_if b e >> k) ≡ ok x
    → (b ≡ false) × (k ≡ ok x)
after_guard true e k h = cc
after_guard false e k h = (refl, h)

pub ok-injective {ℓ} : {A : Type ℓ} {a b : A} → ok a ≡ ok b → a ≡ b
ok-injective e = cc

pub err≢ok {ℓ} : {A : Type ℓ} {e : Error} {a : A} → err e ≢ ok a
err≢ok p = cc

pub Result-cases {ℓ} :
    {T : Type ℓ} (outcome : Result T)
    → ((answer : T) × (outcome ≡ ok answer)) ⊎ ((problem : Error) × (outcome ≡ err problem))
Result-cases (ok answer) = inl (answer, refl)
Result-cases (err problem) = inr (problem, refl)

pub none≢some {ℓ} : {T : Type ℓ} {answer : T} → none ≢ some answer
none≢some e = cc
