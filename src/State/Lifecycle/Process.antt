-- ===== src/State/Lifecycle/Process.antt =====
-- `process` of src/mr_hide/state/lifecycle.py.
use mr_hide.Prelude.{if◌then◌else◌, Text, ℕ, Bool, true, false, not, ◌&&◌, Option, none, some, List}
use mr_hide.Errors.{policy_mode_mismatch, privacy, Result, err, ok, ◌>>=◌}
use mr_hide.Policy.{
  SubstitutionMode, PolicyAction, protect, restore_known, pass_through, WarningCode,
  conversation_bypass_active, PolicyDecision, same_mode,
}
use mr_hide.Privacy.Unicode.{Unicode}
use mr_hide.Privacy.Models.{DetectedSpan}
use mr_hide.Privacy.Scoring.{character_scorer}
use mr_hide.Privacy.Mapping.{MappingTable}
use mr_hide.Privacy.Mapping.Transform.{transform_text}
use mr_hide.Privacy.Mapping.Restore.{restore_text}
use mr_hide.State.Models.{UuidLibrary, Identifier, parse_conversation_id, ConversationState}
use mr_hide.State.Store.{Io, given, and_then, pure}
use mr_hide.State.Repository.{Codec}
use mr_hide.State.Lifecycle.{
  protected_status, bypassed_status, ConversationResult, blocked, Loaded, active, stopped, World,
  load_active, commit_text,
}

abbrev pub is_protect : PolicyAction → Bool
is_protect protect = true
is_protect _ = false

module _ (u : Unicode) (ipv6 : ℕ → Text) where
  -- the text and the mappings that the `try` leaves
  unfoldable pub rewritten :
      ConversationState
      → Text
      → List DetectedSpan
      → PolicyAction
      → SubstitutionMode
      → Result (Text × MappingTable)
  rewritten state t detections protect mode = do
    transformed ← transform_text u ipv6 character_scorer mode state.mappings t detections
    ok (transformed.text, transformed.mappings)
  rewritten state t detections restore_known mode = do
    output ← restore_text t state.mappings
    ok (output, state.mappings)
  rewritten state t detections pass_through mode = ok (t, state.mappings)

module _ (u : Unicode) (ipv6 : ℕ → Text) (codec : Codec) (world : World) where
  -- `except PrivacyProcessingError`, or the commit
  unfoldable pub commit_rewritten :
      ConversationState
      → ℕ
      → Option WarningCode
      → Result (Text × MappingTable)
      → Io ConversationResult
  commit_rewritten state n warning_code (ok (output, mappings)) files =
      commit_text codec world state output (some mappings) protected_status warning_code files
  commit_rewritten state n warning_code (err (privacy reason)) files =
      (files, ok (blocked n reason))
  commit_rewritten state n warning_code (err e) files = (files, err e)

  unfoldable pub process_state :
      ℕ → Text → List DetectedSpan → PolicyDecision → ConversationState → Io ConversationResult
  process_state n t detections decision state =
      if state.bypassed
      then commit_text codec world state t none bypassed_status (some conversation_bypass_active)
      else if is_protect decision.action && not (same_mode decision.substitution_mode state.mode)
      then pure (blocked n policy_mode_mismatch)
      else commit_rewritten state n decision.warning_code
          (rewritten u ipv6 state t detections decision.action decision.substitution_mode)

  unfoldable pub process_loaded :
      ℕ → Text → List DetectedSpan → PolicyDecision → Loaded → Io ConversationResult
  process_loaded n t detections decision (stopped r) = pure r
  process_loaded n t detections decision (active state) =
      process_state n t detections decision state

  unfoldable pub process :
      UuidLibrary → Identifier → Text → List DetectedSpan → PolicyDecision → Io ConversationResult
  process library identifier t detections decision =
      given (parse_conversation_id library identifier)
        (λ n. and_then (load_active codec world n) (process_loaded n t detections decision))
