-- ===== src/State/Examples.antt =====
-- The theorems about src/mr_hide/state at one conversation.
use mr_hide.Prelude.{
  ◌==◌, if◌then◌else◌, ℕ, ◌≡◌, refl, sym, ap, subst, ◌∙◌, ◌≢◌, ◌⊎◌, Bool, true, false, List, [],
  ◌∷◌,
}
use mr_hide.Errors.{builtin, Result, err, ok, ok-injective, err≢ok}
use mr_hide.Policy.{SubstitutionMode, alias, compatibility}
use mr_hide.Privacy.Mapping.{MappingRecord, empty_table}
use mr_hide.State.Models.{
  require_utc, ConversationState, check_state, conversation_state, next_revision, IsState,
}
use mr_hide.State.Store.{
  Bytes, Files, lookup, replace, unlink, acquired, replaced, unlinked, Env, locked, read_unlocked,
  write_unlocked, delete_unlocked,
}
use mr_hide.State.Repository.{
  Codec, load_unlocked, encrypted, write_state, create, load, delete_inactive, delete_if_inactive,
  save_over, save_unlocked, save,
}
use mr_hide.State.Repository.Swap.{Swapped, save-Swapped}
use mr_hide.State.Repository.Races.{IsReversible, load-save, save_stale}
use mr_hide.State.Repository.Guards.{Created, create-Created, Expired, delete_if_inactive-Expired}

-- A directory where everything succeeds, used by nobody else.
abbrev healthy : Env
healthy = record {
  others = λ files. files;
  lock = acquired;
  readable = true;
  write = replaced;
  delete = unlinked;
  listable = true;
  foreign = 0;
  load_existing = ok (5 ∷ []);
  get_or_create = ok (5 ∷ []);
  nonce = ok (9 ∷ []);
}

abbrev begun : ConversationState
begun = record {
  conversation_id = 7;
  revision = 0;
  created_at = 100;
  last_activity = 500;
  mode = alias;
  bypassed = false;
  mappings = empty_table;
  schema_version = 1;
}

abbrev followed : ConversationState
followed = record begun { revision = 1; last_activity = 600 }

-- A codec of states without mappings.
abbrev flag : Bool → ℕ
flag true = 1
flag false = 0

abbrev to_flag : ℕ → Bool
to_flag n = n == 1

abbrev mode_flag : SubstitutionMode → ℕ
mode_flag alias = 0
mode_flag compatibility = 1

abbrev to_mode : ℕ → SubstitutionMode
to_mode n = if n == 1 then compatibility else alias

abbrev numbers : List MappingRecord → ConversationState → Result Bytes
numbers [] s = ok (
    s.conversation_id
    ∷ s.revision
    ∷ s.created_at
    ∷ s.last_activity
    ∷ mode_flag s.mode
    ∷ flag s.bypassed
    ∷ s.schema_version
    ∷ [])
numbers (r ∷ records) s = err builtin

abbrev from_numbers : Bytes → Result ConversationState
from_numbers (n ∷ revision ∷ created ∷ last ∷ mode ∷ bypassed ∷ version ∷ []) = ok (record {
  conversation_id = n;
  revision = revision;
  created_at = created;
  last_activity = last;
  mode = to_mode mode;
  bypassed = to_flag bypassed;
  mappings = empty_table;
  schema_version = version;
})
from_numbers _ = err builtin

abbrev plain_codec : Codec
plain_codec = record {
  encrypt = λ nonce s key. numbers s.mappings.records s;
  decrypt = λ payload key n. from_numbers payload;
}

to_flag-flag : (b : Bool) → to_flag (flag b) ≡ b
to_flag-flag true = refl
to_flag-flag false = refl

to_mode-mode_flag : (m : SubstitutionMode) → to_mode (mode_flag m) ≡ m
to_mode-mode_flag alias = refl
to_mode-mode_flag compatibility = refl

numbers-reversible :
    (records : List MappingRecord) (s : ConversationState) (payload : Bytes)
    → s.mappings.records ≡ records
    → numbers records s ≡ ok payload
    → from_numbers payload ≡ ok s
numbers-reversible [] s payload e h =
    subst (λ p. from_numbers p ≡ ok s) (ok-injective h)
      (ap
          (λ m.
            ok
              (record s { mode = m; bypassed = to_flag (flag s.bypassed); mappings = empty_table }))
          (to_mode-mode_flag s.mode)
        ∙ ap (λ b. ok (record s { bypassed = b; mappings = empty_table })) (to_flag-flag s.bypassed)
        ∙ ap (λ rs. ok (record s { mappings = record { records = rs } })) (sym e))
numbers-reversible (r ∷ records) s payload e h = absurd (err≢ok h)

plain_codec-IsReversible : IsReversible IsState plain_codec
plain_codec-IsReversible nonce key payload s accepted small h =
    numbers-reversible s.mappings.records s payload refl h

abbrev stored : Files
stored = (7, 7 ∷ 0 ∷ 100 ∷ 500 ∷ 0 ∷ 0 ∷ 1 ∷ []) ∷ []

repository_engine : Unit {0}
unfolding locked lookup replace unlink read_unlocked write_unlocked delete_unlocked load_unlocked
    encrypted write_state create load delete_inactive delete_if_inactive save_over save_unlocked
    save check_state conversation_state next_revision require_utc
repository_engine = tt

followed_saved : (save plain_codec healthy followed 0 stored).1 ≡ ok tt
unfolding repository_engine
followed_saved = refl

followed-IsState : IsState followed
unfolding repository_engine
followed-IsState = refl

save-Swapped_example :
    Swapped plain_codec healthy followed 0 stored (save plain_codec healthy followed 0 stored).0
    ⊎ (((save plain_codec healthy followed 0 stored).1 ≢ ok tt)
        × (((save plain_codec healthy followed 0 stored).0 ≡ stored)
            ⊎ ((save plain_codec healthy followed 0 stored).0 ≡ stored)))
save-Swapped_example = save-Swapped plain_codec healthy followed 0 stored

load-save_example :
    (load plain_codec healthy 7 (save plain_codec healthy followed 0 stored).0).1 ≡ ok followed
load-save_example =
    load-save IsState plain_codec plain_codec-IsReversible healthy healthy followed (5 ∷ [])
      followed-IsState refl (λ files. refl) 0 stored refl followed_saved refl refl

save_stale_example :
    (save plain_codec healthy
      (record followed { last_activity = 700 })
      0
      (save plain_codec healthy followed 0 stored).0).1
    ≢ ok tt
save_stale_example =
    save_stale IsState plain_codec plain_codec-IsReversible healthy healthy followed (5 ∷ [])
      followed-IsState refl (λ files. refl) 0 stored refl followed_saved
      (record followed { last_activity = 700 }) refl

create-Created_example :
    Created plain_codec healthy begun [] (create plain_codec healthy begun []).0
    ⊎ (((create plain_codec healthy begun []).1 ≢ ok tt)
        × (((create plain_codec healthy begun []).0 ≡ [])
            ⊎ ((create plain_codec healthy begun []).0 ≡ [])))
create-Created_example = create-Created plain_codec healthy begun []

delete_if_inactive-Expired_example :
    Expired plain_codec healthy 7 500 stored (delete_if_inactive plain_codec healthy 7 500 stored).0
    ⊎ (((delete_if_inactive plain_codec healthy 7 500 stored).1 ≢ ok true)
        × ((delete_if_inactive plain_codec healthy 7 500 stored).0 ≡ stored))
delete_if_inactive-Expired_example = delete_if_inactive-Expired plain_codec healthy 7 500 stored
