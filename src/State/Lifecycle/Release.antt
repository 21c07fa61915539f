-- ===== src/State/Lifecycle/Release.antt =====
-- When `process` of src/mr_hide/state/lifecycle.py lets text go.
use mr_hide.Prelude.{Text, ℕ, ◌≡◌, refl, sym, ap, subst, ◌∙◌, true, false, Option, none, some}
use mr_hide.Errors.{
  privacy, vault, runtime, responses, messages, malformed, builtin, Result, err, ok, ok-injective,
  err≢ok,
}
use mr_hide.Policy.{WarningCode}
use mr_hide.Privacy.Mapping.{MappingTable}
use mr_hide.State.Models.{aware, ConversationState, or_else, next_revision}
use mr_hide.State.Store.{Files, Io, continue, given, and_then, pure}
use mr_hide.State.Repository.{Codec, save}
use mr_hide.State.Lifecycle.{
  ConversationStatus, ConversationResult, is_some, World, now_at, or_blocked, save_next,
  commit_text,
}
use mr_hide.State.Repository.Swap.{Swapped, save-ok}

pub continue-ok :
    {A B : Type 0} (m : Files × Result A) (next : A → Io B) {b : B}
    → (continue m next).1 ≡ ok b
    → (a : A) × (m.1 ≡ ok a) × (continue m next ≡ next a m.0)
continue-ok (files, ok a) next h = (a, refl, refl)
continue-ok (files, err e) next h = absurd (err≢ok h)

-- A result with text is not one that a handler made.
or_blocked-text :
    (n : ℕ) (m : Files × Result ConversationResult) {r : ConversationResult} {x : Text}
    → (or_blocked n m).1 ≡ ok r
    → r.text ≡ some x
    → (m.1 ≡ ok r) × ((or_blocked n m).0 ≡ m.0)
or_blocked-text n (files, ok a) h e = (h, refl)
or_blocked-text n (files, err (vault reason)) {r} {x} h e = absurd (no_text (ap is_some silent))
  where
    silent : none ≡ some x
    silent = ap (λ q. q.text) (ok-injective h) ∙ e

    no_text : false ≡ true → ⊥
    no_text q = cc
or_blocked-text n (files, err (privacy reason)) h e = absurd (err≢ok h)
or_blocked-text n (files, err (runtime reason)) h e = absurd (err≢ok h)
or_blocked-text n (files, err builtin) h e = absurd (err≢ok h)
or_blocked-text n (files, err (responses reason)) h e = absurd (err≢ok h)
or_blocked-text n (files, err (messages reason)) h e = absurd (err≢ok h)
or_blocked-text n (files, err malformed) h e = absurd (err≢ok h)

module _ (codec : Codec) (world : World) where
  -- The next revision of the state, with the mappings, is in the place of the one that was loaded.
  pub record Committed (state : ConversationState) (mappings : MappingTable) (files after : Files)
      : Type 0 where
    pub now : ℕ
    pub updated : ConversationState
    pub read_clock : now_at world 1 ≡ ok now
    pub next : next_revision state (some mappings) none (some (aware now)) ≡ ok updated
    pub swapped : Swapped codec (world.env 3) updated state.revision files after

  save_next-ok :
      (state : ConversationState) (mappings : MappingTable) (answer : ConversationResult)
      (files : Files) {r : ConversationResult}
      → (save_next codec world 1 state (some mappings) none answer files).1 ≡ ok r
      → (answer ≡ r)
        × Committed state mappings files
            (save_next codec world 1 state (some mappings) none answer files).0
  unfolding save_next
  save_next-ok state mappings answer files {r} h =
      let (now, clock_read, p) = continue-ok (files, now_at world 1) revise h in
      let (updated, next, q) =
        continue-ok (files, next_revision state (some mappings) none (some (aware now))) saving
          (sym (ap (λ m. m.1) p) ∙ h) in
      let (_, saved, s) =
        continue-ok (save codec (world.env 3) updated state.revision files) (λ _. pure answer)
          (sym (ap (λ m. m.1) (p ∙ q)) ∙ h) in
      (
        ok-injective (sym (ap (λ m. m.1) (p ∙ q ∙ s)) ∙ h),
        record {
          now = now;
          updated = updated;
          read_clock = clock_read;
          next = next;
          swapped =
              subst (Swapped codec (world.env 3) updated state.revision files)
                (sym (ap (λ m. m.0) (p ∙ q ∙ s)))
                (save-ok codec (world.env 3) updated state.revision files saved).0;
        },
      )
    where
      saving : ConversationState → Io ConversationResult
      saving updated = and_then (save codec (world.env 3) updated state.revision) (λ _. pure answer)

      revise : ℕ → Io ConversationResult
      revise now = given (next_revision state (some mappings) none (some (aware now))) saving

  pub commit_text-text :
      (state : ConversationState) (t : Text) (mappings : Option MappingTable)
      (status : ConversationStatus) (warning : Option WarningCode) (files : Files)
      {r : ConversationResult} {x : Text}
      → (commit_text codec world state t mappings status warning files).1 ≡ ok r
      → r.text ≡ some x
      → (t ≡ x)
        × Committed state
            (or_else state.mappings mappings)
            files
            (commit_text codec world state t mappings status warning files).0
  unfolding commit_text
  commit_text-text state t mappings status warning files {r} {x} h e =
      let (replied, same) = or_blocked-text state.conversation_id attempt h e in
      let (answered, committed) =
        save_next-ok state (or_else state.mappings mappings) answer files replied in
      (
        some-injective (ap (λ q. q.text) answered ∙ e),
        subst (Committed state (or_else state.mappings mappings) files) (sym same) committed,
      )
    where
      answer : ConversationResult
      answer = record {
        status = status;
        conversation_id = state.conversation_id;
        text = some t;
        reason = none;
        warning_code = warning;
      }

      attempt : Files × Result ConversationResult
      attempt =
          save_next codec world 1 state (some (or_else state.mappings mappings)) none answer files

      some-injective : some t ≡ some x → t ≡ x
      some-injective q = cc
