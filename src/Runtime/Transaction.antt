-- ===== src/Runtime/Transaction.antt =====
-- `PrivacyTransaction` of src/mr_hide/runtime/privacy.py. The detector is a port: a text's spans, or
-- the exception that it raises. A method returns the object's new state with its result.
pub mod Laws
pub mod Course
pub mod Commit
pub mod Begin
pub mod Session
mod Examples
use mr_hide.Prelude.{
  if◌then◌else◌, Text, ℕ, Bool, true, false, not, Option, none, some, List, [], ◌∷◌, text,
}
use mr_hide.Errors.{
  expired, policy_mode_mismatch, transaction_already_committed, privacy_processing_failed, privacy,
  vault, runtime, Result, err, ok, ◌>>=◌, ◌>>◌, raise_if,
}
use mr_hide.Policy.{
  SubstitutionMode, ToolPolicy, Direction, ContentKind, PolicyAction, protect, restore_known,
  pass_through, WarningCode, PolicyDecision, same_mode, decide_policy,
}
use mr_hide.Privacy.Unicode.{Unicode}
use mr_hide.Privacy.Models.{DetectedSpan}
use mr_hide.Privacy.Scoring.{character_scorer}
use mr_hide.Privacy.Mapping.{MappingTable}
use mr_hide.Privacy.Mapping.Transform.{TransformationResult, transform_text}
use mr_hide.Privacy.Mapping.Restore.{restore_text}
use mr_hide.State.Models.{Moment, aware, require_utc, ConversationState, next_revision}
use mr_hide.State.Store.{Files, Env, Io, given}
use mr_hide.State.Repository.{Codec, load, save}
use mr_hide.State.Lifecycle.{is_expired}

pub record Transaction : Type 0 where
  pub state : ConversationState
  pub policy : ToolPolicy
  pub direction : Direction
  pub now : ℕ
  pub mappings : MappingTable
  pub committed : Bool
  pub warning_codes : List WarningCode

-- `__init__`
abbrev pub transaction : ConversationState → ToolPolicy → Direction → ℕ → Transaction
transaction state policy direction now = record {
  state = state;
  policy = policy;
  direction = direction;
  now = now;
  mappings = state.mappings;
  committed = false;
  warning_codes = [];
}

-- the `except` clauses of `transform`
abbrev pub as_runtime_error : {A : Type 0} → Result A → Result A
as_runtime_error (ok a) = ok a
as_runtime_error (err (privacy reason)) = err (runtime reason)
as_runtime_error (err (runtime reason)) = err (runtime reason)
as_runtime_error (err e) = err (runtime privacy_processing_failed)

-- `self.warning_codes.add(…)`, where the order and the number of additions do not matter
abbrev pub warned : Transaction → Option WarningCode → Transaction
warned x none = x
warned x (some code) = record x { warning_codes = code ∷ x.warning_codes }

module _ (u : Unicode) (ipv6 : ℕ → Text) (detect : Text → Result (List DetectedSpan)) where
  -- the detection and the transformation
  unfoldable pub protected_text :
      Transaction → Text → SubstitutionMode → Result TransformationResult
  protected_text x t mode = do
    raise_if (not (same_mode mode x.state.mode)) (runtime policy_mode_mismatch)
    detections ← detect t
    transform_text u ipv6 character_scorer mode x.mappings t detections

  -- the mappings and the text of a transformation
  abbrev pub with_result : Transaction → Result TransformationResult → Transaction × Result Text
  with_result x (ok result) = (record x { mappings = result.mappings }, ok result.text)
  with_result x (err e) = (x, as_runtime_error (err e))

  -- the body of the `try`, for the action of the decision
  unfoldable pub apply_action :
      Transaction → Text → PolicyAction → SubstitutionMode → Transaction × Result Text
  apply_action x t pass_through mode = (x, ok t)
  apply_action x t restore_known mode = (x, as_runtime_error (restore_text t x.mappings))
  apply_action x t protect mode = with_result x (protected_text x t mode)

  unfoldable pub decided : Transaction → Text → PolicyDecision → Transaction × Result Text
  decided x t decision =
      apply_action (warned x decision.warning_code) t decision.action decision.substitution_mode

  unfoldable pub transform : Transaction → Text → ContentKind → Transaction × Result Text
  transform x t kind =
      if x.committed
      then (x, err (runtime transaction_already_committed))
      else if x.state.bypassed
      then (x, ok t)
      else decided x t (decide_policy x.policy x.direction kind)

-- `except VaultError`
abbrev pub vault_as_runtime : {A : Type 0} → Result A → Result A
vault_as_runtime (ok a) = ok a
vault_as_runtime (err (vault reason)) = err (runtime reason)
vault_as_runtime (err e) = err e

module _ (codec : Codec) (env : Env) where
  -- the `try` of `commit`
  unfoldable pub save_updated : Transaction → Io (Unit {0})
  save_updated x =
      given (next_revision x.state (some x.mappings) none (some (aware x.now)))
        (λ updated. save codec env updated x.state.revision)

  -- `self._committed = True`, if nothing was raised
  abbrev pub finished :
      Transaction → Files × Result (Unit {0}) → Files × (Transaction × Result (Unit {0}))
  finished x (files, ok _) = (files, (record x { committed = true }, ok tt))
  finished x (files, err e) = (files, (x, vault_as_runtime (err e)))

  unfoldable pub commit : Transaction → Files → Files × (Transaction × Result (Unit {0}))
  commit x files =
      if x.committed
      then (files, (x, err (runtime transaction_already_committed)))
      else finished x (save_updated x files)

-- The method `transaction` of `PrivacyRuntime`: a transaction on what is loaded, unless that is
-- expired.
unfoldable pub unless_stale : ConversationState → ToolPolicy → Direction → ℕ → Result Transaction
unless_stale state policy direction now =
    if is_expired state now
    then err (runtime expired)
    else ok (transaction state policy direction now)

unfoldable pub begun_with :
    Result ConversationState → Moment → ToolPolicy → Direction → Result Transaction
begun_with reply moment policy direction =
    vault_as_runtime
      (do state ← reply; now ← require_utc moment; unless_stale state policy direction now)

abbrev pub begin : Codec → Env → Moment → ℕ → ToolPolicy → Direction → Io Transaction
begin codec env moment n policy direction files =
    let (files', reply) = load codec env n files in
    (files', begun_with reply moment policy direction)
