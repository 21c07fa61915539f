-- ===== src/State/Lifecycle.antt =====
-- src/mr_hide/state/lifecycle.py. The calls of the repository that one operation can make are
-- numbered, and so are its readings of the clock; `World` has the answers.
pub mod Process
pub mod Release
pub mod Silent
pub mod Safety
pub mod Retention
mod Examples
use mr_hide.Prelude.{
  ltb, leb, if◌then◌else◌, Text, ℕ, ◌+◌, ◌-◌, ◌*◌, Bool, true, false, ◌&&◌, Option, none, some,
  List, [], ◌∷◌,
}
use mr_hide.Errors.{
  Reason, vault_missing, missing, expired, bypass_warning_not_accepted, vault, builtin, Result, err,
  ok, raise_if,
}
use mr_hide.Policy.{WarningCode, conversation_bypass_active}
use mr_hide.Privacy.Mapping.{MappingTable}
use mr_hide.State.Models.{
  Moment, aware, require_utc, UuidLibrary, Identifier, parse_conversation_id, ConversationState,
  or_else, next_revision,
}
use mr_hide.State.Store.{Files, Env, Io, given, and_then, pure, conversation_ids}
use mr_hide.State.Repository.{Codec, create, load, delete_if_inactive, save}

pub data ConversationStatus : Type 0 where
  protected_status bypassed_status blocked_status missing_status expired_status : ConversationStatus

pub record ConversationResult : Type 0 where
  pub status : ConversationStatus
  pub conversation_id : ℕ
  pub text : Option Text
  pub reason : Option Reason
  pub warning_code : Option WarningCode

abbrev pub is_blocked : ConversationStatus → Bool
is_blocked blocked_status = true
is_blocked _ = false

abbrev pub is_some : Option Text → Bool
is_some none = false
is_some (some t) = true

-- `__post_init__`
unfoldable pub check_result : ConversationResult → Result (Unit {0})
check_result r = raise_if (is_blocked r.status && is_some r.text) builtin

abbrev pub stopped_result : ConversationStatus → ℕ → Reason → ConversationResult
stopped_result status n reason = record {
  status = status;
  conversation_id = n;
  text = none;
  reason = some reason;
  warning_code = none;
}

abbrev pub silent_result : ConversationStatus → ℕ → Option WarningCode → ConversationResult
silent_result status n warning_code = record {
  status = status;
  conversation_id = n;
  text = none;
  reason = none;
  warning_code = warning_code;
}

abbrev pub blocked : ℕ → Reason → ConversationResult
blocked = stopped_result blocked_status

-- `ConversationState | ConversationResult`
pub data Loaded : Type 0 where
  active : ConversationState → Loaded
  stopped : ConversationResult → Loaded

pub record World : Type 0 where
  pub env : ℕ → Env
  pub clock : ℕ → Moment

-- 30 days
abbrev pub retention_period : ℕ
retention_period = 30 * 24 * 60 * 60 * 1000000

-- the method `_now`
abbrev pub now_at : World → ℕ → Result ℕ
now_at world i = require_utc (world.clock i)

unfoldable pub is_expired : ConversationState → ℕ → Bool
is_expired state now = leb (state.last_activity + retention_period) now

-- `now - RETENTION_PERIOD`, which raises `OverflowError` before the year 1
unfoldable pub retention_cutoff : ℕ → Result ℕ
retention_cutoff now = if ltb now retention_period then err builtin else ok (now - retention_period)

-- `except VaultError as error: return ConversationResult(BLOCKED, …)`
abbrev pub or_blocked : ℕ → Files × Result ConversationResult → Files × Result ConversationResult
or_blocked n (files, err (vault reason)) = (files, ok (blocked n reason))
or_blocked n (files, reply) = (files, reply)

-- the handler of `_load_or_status`
abbrev pub status_of : ℕ → Files × Result ConversationState → Files × Result Loaded
status_of n (files, ok state) = (files, ok (active state))
status_of n (files, err (vault vault_missing)) =
    (files, ok (stopped (stopped_result missing_status n missing)))
status_of n (files, err (vault reason)) = (files, ok (stopped (blocked n reason)))
status_of n (files, err e) = (files, err e)

module _ (codec : Codec) (world : World) where
  abbrev pub load_or_status : ℕ → ℕ → Io Loaded
  load_or_status i n files = status_of n (load codec (world.env i) n files)

  -- what `_load_active` does with the reply of `delete_if_inactive`
  unfoldable pub deleted_or_reloaded : ℕ → Files × Result Bool → Files × Result Loaded
  deleted_or_reloaded n (files, ok true) =
      (files, ok (stopped (stopped_result expired_status n expired)))
  deleted_or_reloaded n (files, ok false) = load_or_status 2 n files
  deleted_or_reloaded n (files, err (vault reason)) = (files, ok (stopped (blocked n reason)))
  deleted_or_reloaded n (files, err e) = (files, err e)

  unfoldable pub discard : ℕ → ℕ → Io Loaded
  discard n now = given (retention_cutoff now) (λ cutoff files.
      deleted_or_reloaded n (delete_if_inactive codec (world.env 1) n cutoff files))

  unfoldable pub unless_expired : ℕ → Loaded → Io Loaded
  unless_expired n (stopped r) = pure (stopped r)
  unless_expired n (active state) =
      given (now_at world 0)
        (λ now. if is_expired state now then discard n now else pure (active state))

  -- `_load_active`: the calls 0, 1, and 2, and the reading 0 of the clock
  unfoldable pub load_active : ℕ → Io Loaded
  load_active n = and_then (load_or_status 0 n) (unless_expired n)

  -- the `try` that saves the next revision: call 3, and the reading `i` of the clock
  unfoldable pub save_next :
      ℕ
      → ConversationState
      → Option MappingTable
      → Option Bool
      → ConversationResult
      → Io ConversationResult
  save_next i state mappings bypassed answer = given (now_at world i) (λ now.
      given (next_revision state mappings bypassed (some (aware now)))
        (λ updated. and_then (save codec (world.env 3) updated state.revision) (λ _. pure answer)))

  unfoldable pub commit_text :
      ConversationState
      → Text
      → Option MappingTable
      → ConversationStatus
      → Option WarningCode
      → Io ConversationResult
  commit_text state t mappings status warning_code files = or_blocked state.conversation_id (
      save_next 1 state (some (or_else state.mappings mappings)) none
        (record {
          status = status;
          conversation_id = state.conversation_id;
          text = some t;
          reason = none;
          warning_code = warning_code;
        })
        files)

  unfoldable pub create_conversation : ConversationState → Io ConversationResult
  create_conversation state files = or_blocked state.conversation_id (
      and_then (create codec (world.env 0) state)
        (λ _. pure (silent_result protected_status state.conversation_id none)) files)

  -- the last part of `resume`
  unfoldable pub renew : ℕ → ConversationState → ℕ → Io ConversationResult
  renew n state now files = or_blocked n (
      given (next_revision state none none (some (aware now)))
        (λ updated. and_then (save codec (world.env 3) updated state.revision) (λ _. pure (
          if updated.bypassed
          then silent_result bypassed_status n (some conversation_bypass_active)
          else silent_result protected_status n none)))
        files)

  renew_loaded : ℕ → ℕ → Loaded → Io ConversationResult
  renew_loaded n now (stopped r) = pure r
  renew_loaded n now (active state) = renew n state now

  -- `resume` behind the refused deletion, or behind the one that was made
  resume_expired : ℕ → ℕ → Bool → Io ConversationResult
  resume_expired n now true = pure (stopped_result expired_status n expired)
  resume_expired n now false = and_then (load_or_status 2 n) (renew_loaded n now)

  unfoldable pub resume_loaded : ℕ → Loaded → Io ConversationResult
  unfolding renew_loaded resume_expired
  resume_loaded n (stopped r) = pure r
  resume_loaded n (active state) = given (now_at world 0) (λ now.
      if is_expired state now
      then given (retention_cutoff now) (λ cutoff.
        and_then (delete_if_inactive codec (world.env 1) n cutoff) (resume_expired n now))
      else renew n state now)

  unfoldable pub resume : UuidLibrary → Identifier → Io ConversationResult
  resume library identifier =
      given (parse_conversation_id library identifier)
        (λ n. and_then (load_or_status 0 n) (resume_loaded n))

  unfoldable pub bypass_loaded : ℕ → Loaded → Io ConversationResult
  bypass_loaded n (stopped r) files = (files, ok r)
  bypass_loaded n (active state) files = or_blocked n (
      save_next 1 state none (some true)
        (silent_result bypassed_status n (some conversation_bypass_active)) files)

  unfoldable pub accept_bypass : UuidLibrary → Identifier → Bool → Io ConversationResult
  accept_bypass library identifier warning_accepted =
      given (parse_conversation_id library identifier) (λ n.
        if warning_accepted
        then and_then (load_active n) (bypass_loaded n)
        else pure (blocked n bypass_warning_not_accepted))

  -- the loop of `cleanup_expired`, whose calls are numbered from 1
  unfoldable pub cleanup_loop : ℕ → ℕ → List ℕ → ℕ → Io ℕ
  cleanup_loop i cutoff [] deleted = pure deleted
  cleanup_loop i cutoff (n ∷ ids) deleted =
      and_then (delete_if_inactive codec (world.env i) n cutoff)
        (λ gone. cleanup_loop (i + 1) cutoff ids (if gone then deleted + 1 else deleted))

  unfoldable pub cleanup_expired : Io ℕ
  cleanup_expired = given (now_at world 0) (λ now.
      given (retention_cutoff now)
        (λ cutoff. and_then (conversation_ids (world.env 0)) (λ ids. cleanup_loop 1 cutoff ids 0)))
