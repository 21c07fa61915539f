-- ===== src/Runtime/Transaction/Examples.antt =====
-- The theorems about src/mr_hide/runtime/privacy.py at one transaction.
use mr_hide.Prelude.{
  Text, ℕ, ◌+◌, ◌<◌, ◌≡◌, refl, List, [], ◌∷◌, text, text_le, text_eq, is_prefix, contains,
}
use mr_hide.Prelude.Decimal.{is_digit, decimal}
use mr_hide.Prelude.Dict.{get, put_all}
use mr_hide.Prelude.Sorting.{sorted}
use mr_hide.Errors.{transaction_already_committed, runtime, Result, err, ok}
use mr_hide.Policy.{alias, default, to_provider, conversation, decide_policy}
use mr_hide.Privacy.Models.{DetectedSpan}
use mr_hide.Privacy.Overlap.{
  default_priority, ranks_before, overlaps, accept, starts_before, resolve_overlaps,
}
use mr_hide.Privacy.Normalization.{normalize_entity, entity_family}
use mr_hide.Privacy.Scoring.{safe_cost, safe_metric, utf8_length, character_scorer}
use mr_hide.Privacy.Mapping.{
  empty_table, to_set, is_invalid, nests, check_items, check_records, mapping_table, find_record,
}
use mr_hide.Privacy.Mapping.Substitutes.{
  candidate_aliases, collides, score_all, cheaper, least, choose, allocate_alias_loop,
  allocate_alias, surrogate_candidate, allocate_surrogate_loop, allocate_surrogate, used_count,
  next_substitute,
}
use mr_hide.Privacy.Mapping.Transform.{
  TransformationResult, add_record, new_record, known_record, replace_span, replace_spans,
  splice_all, total_cost, finish, transform_text,
}
use mr_hide.State.Models.{
  aware, require_utc, ConversationState, check_state, conversation_state, next_revision, IsState,
}
use mr_hide.State.Store.{Files, lookup, replace, locked, read_unlocked, write_unlocked}
use mr_hide.State.Repository.{
  load_unlocked, encrypted, write_state, load, save_over, save_unlocked, save,
}
use mr_hide.Runtime.Transaction.{
  Transaction, transaction, protected_text, apply_action, decided, transform, save_updated, commit,
  unless_stale, begun_with, begin,
}
use mr_hide.Runtime.Transaction.Laws.{transform-conversation}
use mr_hide.Runtime.Transaction.Course.{Extends, Run, idle, call, Run-Extends}
use mr_hide.Runtime.Transaction.Commit.{Closed, commit-Closed, commit_closes}
use mr_hide.Fixtures.{alone, one_codec, quiet, tables, note, name_span}
use mr_hide.State.Lifecycle.{retention_period, is_expired}
use mr_hide.Runtime.Transaction.Session.{commit-Run-begin}
use mr_hide.Privacy.Mapping.Growth.{Grows}
use mr_hide.State.Repository.Swap.{Swapped}

abbrev opening : Transaction
opening = transaction alone default to_provider 600

abbrev finds_name : Text → Result (List DetectedSpan)
finds_name t = ok (name_span ∷ [])

abbrev hidden : Text
unfolding text
hidden = text "I am <P0>"

transaction_engine : Unit {0}
unfolding text text_eq is_prefix contains decimal is_digit get put_all sorted text_le ranks_before
    overlaps accept starts_before default_priority resolve_overlaps normalize_entity entity_family
    utf8_length safe_cost safe_metric to_set is_invalid nests check_items check_records
    mapping_table find_record candidate_aliases collides score_all cheaper least choose
    allocate_alias_loop allocate_alias surrogate_candidate allocate_surrogate_loop
    allocate_surrogate used_count next_substitute add_record new_record known_record replace_span
    replace_spans splice_all total_cost finish transform_text locked lookup replace read_unlocked
    write_unlocked load_unlocked encrypted write_state save_over save_unlocked save check_state
    conversation_state next_revision require_utc decide_policy protected_text apply_action decided
    transform save_updated commit
transaction_engine = tt

transform_run : (transform tables decimal finds_name opening note conversation).1 ≡ ok hidden
unfolding transaction_engine note name_span hidden
transform_run = refl

transform-conversation_example :
    (detections : List DetectedSpan) × (result : TransformationResult) × (finds_name note
      ≡ ok detections)
    × (transform_text tables decimal character_scorer alias empty_table note detections ≡ ok result)
    × (hidden ≡ result.text)
    × ((transform tables decimal finds_name opening note conversation).0
        ≡ record opening { mappings = result.mappings })
transform-conversation_example =
    transform-conversation tables decimal finds_name opening note hidden refl refl transform_run

Run-Extends_example :
    Extends opening (transform tables decimal finds_name opening note conversation).0
Run-Extends_example = Run-Extends tables decimal finds_name (call note conversation idle)

abbrev stored_files : Files
stored_files = (7, 4 ∷ []) ∷ []

commit_run : (commit one_codec quiet opening stored_files).1.1 ≡ ok tt
unfolding transaction_engine
commit_run = refl

commit-Closed_example :
    Closed one_codec quiet opening
      (commit one_codec quiet opening stored_files).1.0
      stored_files
      (commit one_codec quiet opening stored_files).0
commit-Closed_example = commit-Closed one_codec quiet opening stored_files commit_run

commit_closes_example :
    (transform tables decimal finds_name
        (commit one_codec quiet opening stored_files).1.0
        note
        conversation
      ≡ (
        (commit one_codec quiet opening stored_files).1.0,
        err (runtime transaction_already_committed),
      ))
    × (commit one_codec quiet (commit one_codec quiet opening stored_files).1.0 [] ≡ (
      [],
      (
        (commit one_codec quiet opening stored_files).1.0,
        err (runtime transaction_already_committed),
      ),
    ))
commit_closes_example =
    commit_closes one_codec quiet quiet opening stored_files [] tables decimal finds_name note
      conversation commit_run

begin_run : (begin one_codec quiet (aware 600) 7 default to_provider stored_files).1 ≡ ok opening
unfolding transaction_engine load is_expired unless_stale begun_with
begin_run = refl

abbrev used : Transaction
used = (transform tables decimal finds_name opening note conversation).0

used_course : Run tables decimal finds_name opening used
used_course = call note conversation idle

used_run : (commit one_codec quiet used stored_files).1.1 ≡ ok tt
unfolding transaction_engine note name_span
used_run = refl

commit-Run-begin_example :
    (state : ConversationState) × (saved : ConversationState) × (now : ℕ) × ((load one_codec quiet 7
        stored_files).1
      ≡ ok state)
    × (require_utc (aware 600) ≡ ok now)
    × (now < state.last_activity + retention_period)
    × (saved.revision ≡ state.revision + 1)
    × (saved.conversation_id ≡ state.conversation_id)
    × (saved.mode ≡ state.mode)
    × (saved.bypassed ≡ state.bypassed)
    × (saved.mappings ≡ used.mappings)
    × Grows state.mode state.mappings saved.mappings
    × IsState saved
    × Swapped one_codec quiet saved state.revision stored_files
        (commit one_codec quiet used stored_files).0
commit-Run-begin_example =
    commit-Run-begin one_codec quiet quiet (aware 600) 7 default to_provider stored_files
      stored_files tables decimal finds_name begin_run used_course used_run
