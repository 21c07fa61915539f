-- ===== src/State/Codec/Stored.antt =====
-- The repository of src/mr_hide/state/repository.py with the codec of src/mr_hide/state/codec.py.
use mr_hide.Prelude.{ℕ, ◌≡◌, true}
use mr_hide.Errors.{ok}
use mr_hide.State.Leaves.{CodecLibrary}
use mr_hide.State.Codec.Laws.{IsFaithful}
use mr_hide.State.Codec.Roundtrip.{IsStorable, vault_codec-IsReversible}
use mr_hide.State.Store.{Bytes, Files, acquired, Env}
use mr_hide.State.Models.{ConversationState}
use mr_hide.State.Repository.{load, save}
use mr_hide.State.Repository.Races.{IsUndisturbed, load-save}
use mr_hide.State.Codec.{vault_codec}

module _ (l : CodecLibrary) (faithful : IsFaithful l) (first second : Env)
    (state : ConversationState) (key : Bytes) (storable : IsStorable l state)
    (first_key : first.load_existing ≡ ok key) (second_key : second.load_existing ≡ ok key)
    (undisturbed : IsUndisturbed second state.conversation_id) where
  -- If the libraries keep what they document: a state that can be stored and that was saved with the
  -- vault's codec is what the next call loads, if both get the same key, and the second one gets the
  -- lock and can read the file, which no other process has changed.
  pub vault_codec-load :
      (expected_revision : ℕ) (files : Files)
      → (save (vault_codec l) first state expected_revision files).1 ≡ ok tt
      → second.readable ≡ true
      → second.lock ≡ acquired
      → (load
          (vault_codec l)
          second
          state.conversation_id
          (save (vault_codec l) first state expected_revision files).0).1
        ≡ ok state
  vault_codec-load expected_revision files saved readable lock =
      load-save (IsStorable l) (vault_codec l) (vault_codec-IsReversible l faithful) first second
        state key storable second_key undisturbed expected_revision files first_key saved readable
        lock
