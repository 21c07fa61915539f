-- ===== src/State/Models.antt =====
-- src/mr_hide/state/models.py. An instant is a count of microseconds since the year 1, in UTC.
pub mod Laws
use mr_hide.Prelude.{
  ltb, ◌==◌, if◌then◌else◌, any, Text, ℕ, ◌+◌, ◌≡◌, Bool, false, not, Option, none, some, text_eq,
}
use mr_hide.Errors.{
  invalid_conversation_id, invalid_state_timestamp, unsupported_state_schema, invalid_state_policy,
  vault, builtin, Result, err, ok, ◌>>=◌, ◌>>◌, raise_if,
}
use mr_hide.Policy.{SubstitutionMode, same_mode}
use mr_hide.Privacy.Mapping.{MappingTable, empty_table}

-- A `datetime` object: one without a time zone, one with the instant that it stands for, and one
-- whose instant in UTC lies outside the years 1 to 9999.
pub data Moment : Type 0 where
  naive out_of_range : Moment
  aware : ℕ → Moment

unfoldable pub require_utc : Moment → Result ℕ
require_utc naive = err (vault invalid_state_timestamp)
require_utc (aware instant) = ok instant
-- `astimezone` raises `OverflowError`
require_utc out_of_range = err builtin

-- Python's `UUID`, a number of 128 bits: what `UUID(text)` reads, and what `str` writes.
pub record UuidLibrary : Type 0 where
  pub read : Text → Option ℕ
  pub write : ℕ → Text

pub data Identifier : Type 0 where
  uuid : ℕ → Identifier
  text_id : Text → Identifier

unfoldable pub parse_conversation_id : UuidLibrary → Identifier → Result ℕ
parse_conversation_id library (uuid n) = ok n
parse_conversation_id library (text_id value) = elim (library.read value) [
  | none ↦ err (vault invalid_conversation_id)
  | some parsed ↦
      if text_eq value (library.write parsed)
      then ok parsed
      else err (vault invalid_conversation_id)
]

abbrev pub schema_version_number : ℕ
schema_version_number = 1

pub record ConversationState : Type 0 where
  pub conversation_id : ℕ
  pub revision : ℕ
  pub created_at : ℕ
  pub last_activity : ℕ
  pub mode : SubstitutionMode
  pub bypassed : Bool
  pub mappings : MappingTable
  pub schema_version : ℕ

-- `any(record.mode is not self.mode for record in self.mappings.records)`
abbrev pub has_other_mode : ConversationState → Bool
has_other_mode s = any (λ r. not (same_mode r.mode s.mode)) s.mappings.records

-- `__post_init__`; the tests of types hold by typing, and the timestamps are in UTC
unfoldable pub check_state : ConversationState → Result (Unit {0})
check_state s = do
  raise_if (not (s.schema_version == schema_version_number)) (vault unsupported_state_schema)
  raise_if (ltb s.last_activity s.created_at) (vault invalid_state_timestamp)
  raise_if (has_other_mode s) (vault invalid_state_policy)

-- `ConversationState(…)`
unfoldable pub conversation_state : ConversationState → Result ConversationState
conversation_state s = do check_state s; ok s

unfoldable pub new_state :
    UuidLibrary → Identifier → SubstitutionMode → Moment → Result ConversationState
new_state library identifier mode now = do
  timestamp ← require_utc now
  conversation_id ← parse_conversation_id library identifier
  conversation_state (record {
    conversation_id = conversation_id;
    revision = 0;
    created_at = timestamp;
    last_activity = timestamp;
    mode = mode;
    bypassed = false;
    mappings = empty_table;
    schema_version = schema_version_number;
  })

-- `x if y is None else y`
abbrev pub or_else : {A : Type 0} → A → Option A → A
or_else x none = x
or_else x (some y) = y

-- the time of the last activity in the next revision
abbrev pub activity_of : ConversationState → Option Moment → Result ℕ
activity_of s none = ok s.last_activity
activity_of s (some moment) = require_utc moment

unfoldable pub next_revision :
    ConversationState → Option MappingTable → Option Bool → Option Moment → Result ConversationState
next_revision s mappings bypassed last_activity = do
  instant ← activity_of s last_activity
  conversation_state (record s {
    revision = s.revision + 1;
    mappings = or_else s.mappings mappings;
    bypassed = or_else s.bypassed bypassed;
    last_activity = instant;
  })

-- A state that its constructor accepts.
abbrev pub IsState : ConversationState → Type 0
IsState s = check_state s ≡ ok tt
