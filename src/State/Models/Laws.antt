-- ===== src/State/Models/Laws.antt =====
-- What `next_revision` of src/mr_hide/state/models.py keeps.
use mr_hide.Prelude.{ℕ, ◌+◌, ◌≤◌, ◌≡◌, sym, ap, subst, Bool, Option, arith}
use mr_hide.Errors.{Result, ok, >>=-eq-ok}
use mr_hide.State.Models.{
  Moment, ConversationState, check_state, conversation_state, or_else, activity_of, next_revision,
  IsState,
}
use mr_hide.Privacy.Mapping.{MappingTable}

conversation_state-ok :
    (a b : ConversationState) → conversation_state a ≡ ok b → (a ≡ b) × IsState b
unfolding conversation_state check_state
conversation_state-ok a b h = (ground arith, ground arith)

-- The next revision of a state counts one more, belongs to the same conversation, with its mode and
-- its time of creation, is never less recent than its creation, and is a state that the constructor
-- accepts: every record of its table has the conversation's mode.
pub next_revision_lem :
    (s s' : ConversationState) (mappings : Option MappingTable) (bypassed : Option Bool)
    (moment : Option Moment)
    → next_revision s mappings bypassed moment ≡ ok s'
    → (s'.revision ≡ s.revision + 1)
      × (s'.conversation_id ≡ s.conversation_id)
      × (s'.mode ≡ s.mode)
      × (s'.created_at ≡ s.created_at)
      × (s.created_at ≤ s'.last_activity)
      × (s'.mappings ≡ or_else s.mappings mappings)
      × (s'.bypassed ≡ or_else s.bypassed bypassed)
      × IsState s'
unfolding next_revision
next_revision_lem s s' mappings bypassed moment h =
    let (instant, _, k) = >>=-eq-ok (activity_of s moment) next h in
    let (same, accepted) = conversation_state-ok (revised instant) s' k in
    (
      ap (λ x. x.revision) (sym same),
      ap (λ x. x.conversation_id) (sym same),
      ap (λ x. x.mode) (sym same),
      ap (λ x. x.created_at) (sym same),
      subst (λ x. s.created_at ≤ x.last_activity) same
          (in_order (revised instant) (subst IsState (sym same) accepted)),
      ap (λ x. x.mappings) (sym same),
      ap (λ x. x.bypassed) (sym same),
      accepted,
    )
  where
    revised : ℕ → ConversationState
    revised instant = record s {
      revision = s.revision + 1;
      mappings = or_else s.mappings mappings;
      bypassed = or_else s.bypassed bypassed;
      last_activity = instant;
    }

    next : ℕ → Result ConversationState
    next instant = conversation_state (revised instant)

    in_order : (x : ConversationState) → IsState x → x.created_at ≤ x.last_activity
    in_order x e = unfold check_state in ground arith
