-- ===== src/State/Codec/Parts.antt =====
-- The steps of `encrypt` of src/mr_hide/state/codec.py.
use mr_hide.State.Models.{ConversationState}
use mr_hide.Errors.{Result, err, ok, ◌>>=◌, >>=-eq-ok}
use mr_hide.Prelude.{◌==◌, length, ◌≡◌, true, arith}
use mr_hide.State.Codec.{state_document, checked_nonce, envelope_document, encrypt}
use mr_hide.State.Leaves.{CodecLibrary, nonce_bytes, derive_conversation_key, aad, canonical_json}
use mr_hide.State.Store.{Bytes}

checked_nonce-size :
    (made : Result Bytes) {nonce : Bytes}
    → checked_nonce made ≡ ok nonce
    → (length nonce == nonce_bytes) ≡ true
unfolding checked_nonce
checked_nonce-size (ok made) h = ground arith
checked_nonce-size (err e) h = cc

module _ (l : CodecLibrary) (s : ConversationState) where
  pub encrypt-parts :
      (made : Result Bytes) (master_key payload : Bytes)
      → encrypt l made s master_key ≡ ok payload
      → (key : Bytes) × (nonce : Bytes) × (plaintext : Bytes) × (ciphertext : Bytes)
        × (derive_conversation_key l master_key s.conversation_id ≡ ok key)
        × ((length nonce == nonce_bytes) ≡ true)
        × (canonical_json l (state_document l s) ≡ ok plaintext)
        × (l.seal key nonce plaintext (aad l s.conversation_id) ≡ ok ciphertext)
        × (canonical_json l (envelope_document l s.conversation_id nonce ciphertext) ≡ ok payload)
  unfolding encrypt
  encrypt-parts made master_key payload h =
      let (key, derived, h1) =
        >>=-eq-ok (derive_conversation_key l master_key s.conversation_id) with_key h in
      let (nonce, checked, h2) = >>=-eq-ok (checked_nonce made) (with_nonce key) h1 in
      let (plaintext, written, h3) =
        >>=-eq-ok (canonical_json l (state_document l s)) (with_text key nonce) h2 in
      let (ciphertext, sealed, h4) =
        >>=-eq-ok (l.seal key nonce plaintext (aad l s.conversation_id)) (enveloped nonce) h3 in
      (
        key,
        nonce,
        plaintext,
        ciphertext,
        derived,
        checked_nonce-size made checked,
        written,
        sealed,
        h4,
      )
    where
      enveloped : Bytes → Bytes → Result Bytes
      enveloped nonce ciphertext =
          canonical_json l (envelope_document l s.conversation_id nonce ciphertext)

      with_text : Bytes → Bytes → Bytes → Result Bytes
      with_text key nonce plaintext =
          l.seal key nonce plaintext (aad l s.conversation_id) >>= enveloped nonce

      with_nonce : Bytes → Bytes → Result Bytes
      with_nonce key nonce = canonical_json l (state_document l s) >>= with_text key nonce

      with_key : Bytes → Result Bytes
      with_key key = checked_nonce made >>= with_nonce key
