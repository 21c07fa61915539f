-- ===== src/State/Lifecycle/Examples.antt =====
-- `process` of src/mr_hide/state/lifecycle.py at one text.
use mr_hide.Prelude.{
  ◌+◌, ◌≡◌, refl, ap, ◌⊎◌, none, some, [], ◌∷◌, text, text_le, text_eq, is_prefix, contains,
}
use mr_hide.Prelude.Decimal.{is_digit, decimal}
use mr_hide.Prelude.Dict.{get, put_all}
use mr_hide.Prelude.Sorting.{sorted}
use mr_hide.Errors.{ok}
use mr_hide.Policy.{alias, protect, PolicyDecision}
use mr_hide.Privacy.Overlap.{
  default_priority, ranks_before, overlaps, accept, starts_before, resolve_overlaps,
}
use mr_hide.Privacy.Normalization.{normalize_entity, entity_family}
use mr_hide.Privacy.Scoring.{safe_cost, safe_metric, utf8_length}
use mr_hide.Privacy.Mapping.{
  to_set, is_invalid, nests, check_items, check_records, mapping_table, find_record,
}
use mr_hide.Privacy.Mapping.Substitutes.{
  candidate_aliases, collides, score_all, cheaper, least, choose, allocate_alias_loop,
  allocate_alias, surrogate_candidate, allocate_surrogate_loop, allocate_surrogate, used_count,
  next_substitute,
}
use mr_hide.Privacy.Mapping.Transform.{
  add_record, new_record, known_record, replace_span, replace_spans, splice_all, total_cost, finish,
  transform_text,
}
use mr_hide.State.Models.{
  aware, require_utc, UuidLibrary, uuid, parse_conversation_id, ConversationState, check_state,
  conversation_state, next_revision,
}
use mr_hide.State.Store.{
  Files, lookup, replace, unlink, locked, read_unlocked, write_unlocked, delete_unlocked,
}
use mr_hide.State.Repository.{
  load_unlocked, encrypted, write_state, load, save_over, save_unlocked, save,
}
use mr_hide.State.Lifecycle.{
  protected_status, ConversationResult, active, World, is_expired, unless_expired, load_active,
  save_next, commit_text,
}
use mr_hide.State.Lifecycle.Process.{
  rewritten, commit_rewritten, process_state, process_loaded, process,
}
use mr_hide.State.Lifecycle.Safety.{Released, process-Released}
use mr_hide.Fixtures.{alone, one_codec, quiet, tables, note, name_span}
use mr_hide.State.Lifecycle.Retention.{IsFresh, IsReloaded, load_active-IsFresh}

abbrev calm : World
calm = record { env = λ i. quiet; clock = λ i. aware (600 + i) }

abbrev uuids : UuidLibrary
uuids = record { read = λ t. none; write = decimal }

abbrev protect_alias : PolicyDecision
protect_alias = record { action = protect; substitution_mode = alias; warning_code = none }

abbrev before : Files
before = (7, 4 ∷ []) ∷ []

abbrev answered : ConversationResult
unfolding text
answered = record {
  status = protected_status;
  conversation_id = 7;
  text = some (text "I am <P0>");
  reason = none;
  warning_code = none;
}

service_engine : Unit {0}
unfolding text text_eq is_prefix contains decimal is_digit get put_all sorted text_le ranks_before
    overlaps accept starts_before default_priority resolve_overlaps normalize_entity entity_family
    utf8_length safe_cost safe_metric to_set is_invalid nests check_items check_records
    mapping_table find_record candidate_aliases collides score_all cheaper least choose
    allocate_alias_loop allocate_alias surrogate_candidate allocate_surrogate_loop
    allocate_surrogate used_count next_substitute add_record new_record known_record replace_span
    replace_spans splice_all total_cost finish transform_text locked lookup replace unlink
    read_unlocked write_unlocked delete_unlocked load_unlocked encrypted write_state load save_over
    save_unlocked save check_state conversation_state next_revision require_utc
    parse_conversation_id is_expired unless_expired load_active save_next commit_text rewritten
    commit_rewritten process_state process_loaded process
service_engine = tt

process_run :
    process tables decimal one_codec calm uuids (uuid 7) note (name_span ∷ []) protect_alias before
    ≡ ((7, 5 ∷ []) ∷ [], ok answered)
unfolding service_engine note name_span answered
process_run = refl

process-Released_example :
    (state : ConversationState) × (found : Files) × (load_active one_codec calm 7 before
      ≡ (found, ok (active state)))
    × Released tables decimal one_codec calm 7 note
        (name_span ∷ [])
        protect_alias
        (text "I am <P0>")
        state
        found
        (process tables decimal one_codec calm uuids
          (uuid 7)
          note
          (name_span ∷ [])
          protect_alias
          before).0
process-Released_example =
    process-Released tables decimal one_codec calm 7 note (name_span ∷ []) protect_alias uuids
      (uuid 7) before parsed (ap (λ m. m.1) process_run) has_text
  where
    parsed : parse_conversation_id uuids (uuid 7) ≡ ok 7
    parsed = unfold service_engine in refl

    has_text : answered.text ≡ some (text "I am <P0>")
    has_text = unfold answered in refl

load_active_run : (load_active one_codec calm 7 before).1 ≡ ok (active alone)
unfolding service_engine
load_active_run = refl

load_active-IsFresh_example :
    IsFresh one_codec calm 7 alone before ⊎ IsReloaded one_codec calm 7 alone before
load_active-IsFresh_example = load_active-IsFresh one_codec calm 7 before alone load_active_run
