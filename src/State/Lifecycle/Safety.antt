-- ===== src/State/Lifecycle/Safety.antt =====
-- What `process` of src/mr_hide/state/lifecycle.py promises about the text that it returns.
use mr_hide.Prelude.{
  Bool-cases, Text, ℕ, ◌≡◌, refl, sym, ap, subst, ◌∙◌, ◌≢◌, ◌⊎◌, inl, inr, true, false, not, ◌&&◌,
  none, some, List, arith,
}
use mr_hide.Errors.{
  policy_mode_mismatch, privacy, vault, runtime, responses, messages, malformed, builtin, Result,
  err, ok, >>=-eq-ok, ok-injective, err≢ok, none≢some,
}
use mr_hide.Policy.{
  SubstitutionMode, PolicyAction, protect, restore_known, pass_through, conversation_bypass_active,
  PolicyDecision, same_mode,
}
use mr_hide.Privacy.Unicode.{Unicode}
use mr_hide.Privacy.Models.{DetectedSpan}
use mr_hide.Privacy.Mapping.{MappingTable}
use mr_hide.State.Models.{UuidLibrary, Identifier, parse_conversation_id, ConversationState}
use mr_hide.State.Store.{Files, and_then}
use mr_hide.State.Repository.{Codec}
use mr_hide.State.Lifecycle.{
  protected_status, bypassed_status, ConversationResult, blocked, Loaded, active, stopped, World,
  load_active, commit_text,
}
use mr_hide.State.Lifecycle.Process.{
  is_protect, rewritten, commit_rewritten, process_state, process_loaded, process,
}
use mr_hide.State.Lifecycle.Release.{continue-ok, Committed, commit_text-text}
use mr_hide.State.Lifecycle.Silent.{load_active-IsSilent}
use mr_hide.Privacy.Mapping.Transform.{TransformationResult, transform_text}
use mr_hide.Privacy.Mapping.Restore.{restore_text}
use mr_hide.Privacy.Scoring.{character_scorer}

module _ (u : Unicode) (ipv6 : ℕ → Text) (state : ConversationState) (t : Text)
    (detections : List DetectedSpan) (mode : SubstitutionMode) where
  -- What each action makes of the given text with the conversation's mappings: to protect is
  -- `transform_text`, to restore is `restore_text`, and to pass on changes nothing.
  abbrev pub Made : Text → MappingTable → PolicyAction → Type 0
  Made x mappings protect =
      (result : TransformationResult) × (transform_text u ipv6 character_scorer mode state.mappings
          t detections
        ≡ ok result)
      × (x ≡ result.text)
      × (mappings ≡ result.mappings)
  Made x mappings restore_known =
      (restore_text t state.mappings ≡ ok x) × (mappings ≡ state.mappings)
  Made x mappings pass_through = (x ≡ t) × (mappings ≡ state.mappings)

  rewritten-Made :
      (action : PolicyAction) {x : Text} {mappings : MappingTable}
      → rewritten u ipv6 state t detections action mode ≡ ok (x, mappings)
      → Made x mappings action
  unfolding rewritten
  rewritten-Made protect h =
      let (result, made, same) =
        >>=-eq-ok (transform_text u ipv6 character_scorer mode state.mappings t detections)
          (λ r. ok (r.text, r.mappings)) h in
      (
        result,
        made,
        ap (λ p. p.0) (ok-injective (sym same)),
        ap (λ p. p.1) (ok-injective (sym same)),
      )
  rewritten-Made restore_known {x} h =
      let (output, made, same) =
        >>=-eq-ok (restore_text t state.mappings) (λ output. ok (output, state.mappings)) h in
      (
        subst (λ y. restore_text t state.mappings ≡ ok y) (ap (λ p. p.0) (ok-injective same)) made,
        ap (λ p. p.1) (ok-injective (sym same)),
      )
  rewritten-Made pass_through h =
      (ap (λ p. p.0) (ok-injective (sym h)), ap (λ p. p.1) (ok-injective (sym h)))

module _ (u : Unicode) (ipv6 : ℕ → Text) (codec : Codec) (world : World) where
  -- The text that is returned is what the policy's action makes of the given text with the
  -- conversation's mappings, or the given text itself if the conversation is bypassed; and the next
  -- revision of the conversation, with all that this mapped, has been saved before.
  pub record Released (n : ℕ) (t : Text) (detections : List DetectedSpan)
      (decision : PolicyDecision) (x : Text) (state : ConversationState) (files after : Files)
      : Type 0 where
    pub mappings : MappingTable
    pub made :
        ((state.bypassed ≡ true) × (t ≡ x) × (mappings ≡ state.mappings))
        ⊎ ((state.bypassed ≡ false)
            × Made u ipv6 state t detections decision.substitution_mode x mappings decision.action
            × ((decision.action ≢ protect) ⊎ (decision.substitution_mode ≡ state.mode)))
    pub committed : Committed codec world state mappings files after

  module _ (n : ℕ) (t : Text) (detections : List DetectedSpan) (decision : PolicyDecision) where
    mode_agrees :
        (action : PolicyAction) (a b : SubstitutionMode)
        → (is_protect action && not (same_mode a b)) ≡ false
        → (action ≢ protect) ⊎ (a ≡ b)
    mode_agrees protect a b h = inr (ground arith)
    mode_agrees restore_known a b h = inl (λ e. cc)
    mode_agrees pass_through a b h = inl (λ e. cc)

    commit_rewritten-text :
        (state : ConversationState) (reply : Result (Text × MappingTable)) (files : Files)
        {r : ConversationResult} {x : Text}
        → (commit_rewritten u ipv6 codec world state n decision.warning_code reply files).1 ≡ ok r
        → r.text ≡ some x
        → (mappings : MappingTable) × (reply ≡ ok (x, mappings))
          × Committed codec world state mappings files
              (commit_rewritten u ipv6 codec world state n decision.warning_code reply files).0
    unfolding commit_rewritten
    commit_rewritten-text state (ok (output, mappings)) files h e =
        let (same, committed) =
          commit_text-text codec world state output (some mappings) protected_status
            decision.warning_code files h e in
        (mappings, ap (λ y. ok (y, mappings)) same, committed)
    commit_rewritten-text state (err (privacy reason)) files {r} {x} h e =
        absurd (none≢some (ap (λ q. q.text) (ok-injective h) ∙ e))
    commit_rewritten-text state (err (vault reason)) files h e = absurd (err≢ok h)
    commit_rewritten-text state (err (runtime reason)) files h e = absurd (err≢ok h)
    commit_rewritten-text state (err builtin) files h e = absurd (err≢ok h)
    commit_rewritten-text state (err (responses reason)) files h e = absurd (err≢ok h)
    commit_rewritten-text state (err (messages reason)) files h e = absurd (err≢ok h)
    commit_rewritten-text state (err malformed) files h e = absurd (err≢ok h)

    process_state-split :
        (state : ConversationState) (files : Files)
        → ((state.bypassed ≡ true)
            × (process_state u ipv6 codec world n t detections decision state files
                ≡ commit_text codec world state t none bypassed_status
                    (some conversation_bypass_active)
                    files))
          ⊎ ((process_state u ipv6 codec world n t detections decision state files
                ≡ (files, ok (blocked n policy_mode_mismatch)))
              ⊎ ((state.bypassed ≡ false)
                  × ((decision.action ≢ protect) ⊎ (decision.substitution_mode ≡ state.mode))
                  × (process_state u ipv6 codec world n t detections decision state files
                      ≡ commit_rewritten u ipv6 codec world state n decision.warning_code
                          (rewritten u ipv6 state t detections decision.action
                            decision.substitution_mode)
                          files)))
    unfolding process_state
    process_state-split state files = elim (Bool-cases state.bypassed) [
      | inl b ↦ inl (b, rw b refl)
      | inr b ↦
          inr
            (elim (Bool-cases (
              is_protect decision.action
              && not (same_mode decision.substitution_mode state.mode))) [
                | inl k ↦ inl (rw (b, k) refl)
                | inr k ↦ inr (
                  b,
                  mode_agrees decision.action decision.substitution_mode state.mode k,
                  rw (b, k) refl,
                )
              ])
    ]

    process_state-Released :
        (state : ConversationState) (files : Files) {r : ConversationResult} {x : Text}
        → (process_state u ipv6 codec world n t detections decision state files).1 ≡ ok r
        → r.text ≡ some x
        → Released n t detections decision x state files
            (process_state u ipv6 codec world n t detections decision state files).0
    process_state-Released state files {r} {x} h e = elim (process_state-split state files) [
      | inl (b, q) ↦
          let (same, committed) =
            commit_text-text codec world state t none bypassed_status
              (some conversation_bypass_active) files (sym (ap (λ m. m.1) q) ∙ h) e in
          record {
            mappings = state.mappings;
            made = inl (b, same, refl);
            committed =
                subst (λ m. Committed codec world state state.mappings files m.0) (sym q) committed;
          }
      | inr (inl q) ↦
          absurd (none≢some (ap (λ y. y.text) (ok-injective (sym (ap (λ m. m.1) q) ∙ h)) ∙ e))
      | inr (inr (b, agrees, q)) ↦
          let (mappings, made, committed) =
            commit_rewritten-text state
              (rewritten u ipv6 state t detections decision.action decision.substitution_mode) files
              (sym (ap (λ m. m.1) q) ∙ h) e in
          record {
            mappings = mappings;
            made = inr (
              b,
              rewritten-Made u ipv6 state t detections decision.substitution_mode decision.action
                  made,
              agrees,
            );
            committed =
                subst (λ m. Committed codec world state mappings files m.0) (sym q) committed;
          }
    ]

    -- If process returns text, for an identifier that can be read, then the conversation was
    -- loaded, and either it is bypassed and the text is the given one, or the text is what
    -- transform_text makes of the given text with the conversation's mappings, in its mode, if the
    -- action is to protect, what restore_text makes of it with these mappings if the action is to
    -- restore, and the given text if the action is to pass it on; and the next revision of what
    -- was loaded, with all that was mapped, has been saved in its place.
    pub process-Released :
        (library : UuidLibrary) (identifier : Identifier) (files : Files) {r : ConversationResult}
        {x : Text}
        → parse_conversation_id library identifier ≡ ok n
        → (process u ipv6 codec world library identifier t detections decision files).1 ≡ ok r
        → r.text ≡ some x
        → (state : ConversationState) × (found : Files) × (load_active codec world n files
            ≡ (found, ok (active state)))
          × Released n t detections decision x state found
              (process u ipv6 codec world library identifier t detections decision files).0
    process-Released library identifier files {r} {x} h k e =
        let m = load_active codec world n files in
        let (loaded, p, q) =
          continue-ok m (process_loaded u ipv6 codec world n t detections decision)
            (sym (ap (λ y. y.1) whole) ∙ k) in
        go loaded p (whole ∙ q)
      where
        whole :
            process u ipv6 codec world library identifier t detections decision files
            ≡ and_then
                (load_active codec world n)
                (process_loaded u ipv6 codec world n t detections decision)
                files
        whole = unfold process in (rw h refl)

        found : Files
        found = (load_active codec world n files).0

        outcome : Files × Result ConversationResult
        outcome = process u ipv6 codec world library identifier t detections decision files

        go :
            (loaded : Loaded)
            → (load_active codec world n files).1 ≡ ok loaded
            → outcome ≡ process_loaded u ipv6 codec world n t detections decision loaded found
            → (state : ConversationState) × (before : Files) × (load_active codec world n files
                ≡ (before, ok (active state)))
              × Released n t detections decision x state before outcome.0
        go (stopped a) p q =
            let same : ok a ≡ ok r = unfold process_loaded in (sym (ap (λ y. y.1) q) ∙ k) in
            absurd (
              none≢some (
                sym (load_active-IsSilent codec world n files a p)
                ∙ ap (λ y. y.text) (ok-injective same)
                ∙ e))
        go (active state) p q =
            let call : outcome
                ≡ process_state u ipv6 codec world n t detections decision state found =
              unfold process_loaded in q in
            (
              state,
              found,
              (ap (λ y. ((load_active codec world n files).0, y)) p),
              subst (λ y. Released n t detections decision x state found y.0) (sym call)
                  (process_state-Released state found (sym (ap (λ y. y.1) call) ∙ k) e),
            )
