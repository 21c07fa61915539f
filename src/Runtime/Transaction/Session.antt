-- ===== src/Runtime/Transaction/Session.antt =====
-- A transaction of src/mr_hide/runtime/privacy.py from its beginning to its commit.
-- For a transaction that is begun, used for any number of calls of `transform`, those that raise
-- included, and committed with success: the state that it began with was loaded, and its last activity
-- is less than 30 days before the time that the clock showed; and over its revision the next one has
-- been saved, of the same conversation, with its mode and its bypass, accepted by the constructor, whose
-- table is the transaction's: all the records that the loaded state had, where they were, and behind
-- them new ones of the conversation's mode.
use mr_hide.Prelude.{Text, ℕ, ◌+◌, ◌<◌, ◌≡◌, sym, ap, subst, ◌∙◌, none, some, List}
use mr_hide.Runtime.Transaction.{Transaction, commit, begin}
use mr_hide.Runtime.Transaction.Begin.{begin_lem}
use mr_hide.Runtime.Transaction.Commit.{commit-Closed}
use mr_hide.Runtime.Transaction.Course.{Run, Run-Extends}
use mr_hide.State.Models.{Moment, aware, require_utc, ConversationState, IsState}
use mr_hide.State.Models.Laws.{next_revision_lem}
use mr_hide.State.Store.{Files, Env}
use mr_hide.State.Repository.{Codec, load}
use mr_hide.State.Repository.Swap.{Swapped}
use mr_hide.State.Lifecycle.{retention_period}
use mr_hide.Policy.{ToolPolicy, Direction}
use mr_hide.Errors.{Result, ok}
use mr_hide.Privacy.Unicode.{Unicode}
use mr_hide.Privacy.Models.{DetectedSpan}
use mr_hide.Privacy.Mapping.Growth.{Grows}

-- For a transaction that is begun, used for any number of calls of transform, those that raise
-- included, and committed with success: the state that it began with was loaded, and its last
-- activity is less than 30 days before the time that the clock showed; and over its revision the
-- next one has been saved, of the same conversation, with its mode and its bypass, accepted by the
-- constructor, whose table is the transaction's: all the records that the loaded state had, where
-- they were, and behind them new ones of the conversation's mode.
pub commit-Run-begin :
    (codec : Codec) (env later : Env) (moment : Moment) (n : ℕ) (policy : ToolPolicy)
    (direction : Direction) (files more : Files) (u : Unicode) (ipv6 : ℕ → Text)
    (detect : Text → Result (List DetectedSpan)) {x y : Transaction}
    → (begin codec env moment n policy direction files).1 ≡ ok x
    → Run u ipv6 detect x y
    → (commit codec later y more).1.1 ≡ ok tt
    → (state : ConversationState) × (saved : ConversationState) × (now : ℕ) × ((load codec env n
          files).1
        ≡ ok state)
      × (require_utc moment ≡ ok now)
      × (now < state.last_activity + retention_period)
      × (saved.revision ≡ state.revision + 1)
      × (saved.conversation_id ≡ state.conversation_id)
      × (saved.mode ≡ state.mode)
      × (saved.bypassed ≡ state.bypassed)
      × (saved.mappings ≡ y.mappings)
      × Grows state.mode state.mappings saved.mappings
      × IsState saved
      × Swapped codec later saved state.revision more (commit codec later y more).0
commit-Run-begin codec env later moment n policy direction files more u ipv6 detect {x} {y} h run
      k =
    let (state, now, loaded, clock, fresh, same) =
      begin_lem codec env moment n policy direction files h in
    let extended = Run-Extends u ipv6 detect run in
    let closed = commit-Closed codec later y more k in
    let kept : y.state ≡ state = extended.same_state ∙ ap (λ z. z.state) (sym same) in
    let (revision, identity, mode, _, _, mappings, bypassed, accepted) =
      next_revision_lem y.state closed.updated (some y.mappings) none (some (aware y.now))
        closed.next in
    let grown : Grows state.mode state.mappings y.mappings =
      subst (λ z. Grows z.state.mode z.mappings y.mappings) (sym same) extended.grown in
    (
      state,
      closed.updated,
      now,
      loaded,
      clock,
      fresh,
      revision ∙ ap (λ s. s.revision + 1) kept,
      identity ∙ ap (λ s. s.conversation_id) kept,
      mode ∙ ap (λ s. s.mode) kept,
      bypassed ∙ ap (λ s. s.bypassed) kept,
      mappings,
      subst (Grows state.mode state.mappings) (sym mappings) grown,
      accepted,
      subst (λ s. Swapped codec later closed.updated s.revision more (commit codec later y more).0)
          kept closed.swapped,
    )
