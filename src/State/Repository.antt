-- ===== src/State/Repository.antt =====
-- src/mr_hide/state/repository.py. The codec is a port: `Codec` is what the repository calls of it.
pub mod Laws
pub mod Swap
pub mod Races
pub mod Guards
use mr_hide.Prelude.{ltb, ◌==◌, if◌then◌else◌, ℕ, ◌+◌, Bool, false}
use mr_hide.Errors.{
  invalid_initial_revision, vault_already_exists, invalid_next_revision, stale_vault_write, vault,
  Result, err, ok, ◌>>=◌, ◌>>◌,
}
use mr_hide.State.Models.{ConversationState}
use mr_hide.State.Store.{
  Bytes, Files, Env, Io, given, locked, exists_unlocked, read_unlocked, write_unlocked,
  delete_unlocked,
}

pub record Codec : Type 0 where
  -- what the nonce factory answers, the state and the master key
  pub encrypt : Result Bytes → ConversationState → Bytes → Result Bytes
  -- the payload, the master key and the expected identifier
  pub decrypt : Bytes → Bytes → ℕ → Result ConversationState

module _ (codec : Codec) where
  unfoldable pub load_unlocked : Env → ℕ → Files → Result ConversationState
  load_unlocked env n files = do
    payload ← read_unlocked env n files
    master_key ← env.load_existing
    codec.decrypt payload master_key n

  -- `encrypt` with a key of the provider and a new nonce
  unfoldable pub encrypted : Env → Result Bytes → ConversationState → Result Bytes
  encrypted env key state = do master_key ← key; codec.encrypt env.nonce state master_key

  -- `write_unlocked` of what `encrypt` returns
  unfoldable pub write_state : Env → Result Bytes → ConversationState → Io (Unit {0})
  write_state env key state =
      given (encrypted env key state) (λ payload. write_unlocked env state.conversation_id payload)

  unfoldable pub create : Env → ConversationState → Io (Unit {0})
  create env state files =
      if state.revision == 0
      then locked env
          (λ found.
            if exists_unlocked state.conversation_id found
            then (found, err (vault vault_already_exists))
            else write_state env env.get_or_create state found)
          files
      else (files, err (vault invalid_initial_revision))

  unfoldable pub load : Env → ℕ → Io ConversationState
  load env n = locked env (λ found. (found, load_unlocked env n found))

  -- the body of `delete_if_inactive` behind the loading of the state
  unfoldable pub delete_inactive : Env → ℕ → ℕ → ConversationState → Io Bool
  delete_inactive env n cutoff current found =
      if ltb cutoff current.last_activity then (found, ok false) else delete_unlocked env n found

  unfoldable pub delete_if_inactive : Env → ℕ → ℕ → Io Bool
  delete_if_inactive env n cutoff = locked env (λ found.
      if exists_unlocked n found
      then given (load_unlocked env n found) (delete_inactive env n cutoff) found
      else (found, ok false))

  -- the body of `save` behind the loading of the state
  unfoldable pub save_over : Env → ConversationState → ℕ → ConversationState → Io (Unit {0})
  save_over env state expected_revision current found =
      if current.revision == expected_revision
      then write_state env env.load_existing state found
      else (found, err (vault stale_vault_write))

  unfoldable pub save_unlocked : Env → ConversationState → ℕ → Io (Unit {0})
  save_unlocked env state expected_revision found =
      given (load_unlocked env state.conversation_id found) (save_over env state expected_revision)
        found

  unfoldable pub save : Env → ConversationState → ℕ → Io (Unit {0})
  save env state expected_revision files =
      if state.revision == expected_revision + 1
      then locked env (save_unlocked env state expected_revision) files
      else (files, err (vault invalid_next_revision))
