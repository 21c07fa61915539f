-- ===== src/Fixtures.antt =====
-- Test data that the examples share: a state, a codec that knows this state only, a directory where
-- everything succeeds, and a text with a name in it.
use mr_hide.Prelude.{leb, ◌==◌, Text, ◌+◌, ◌-◌, true, false, ◌&&◌, none, some, [], ◌∷◌, text}
use mr_hide.Errors.{malformed, err, ok}
use mr_hide.Policy.{alias}
use mr_hide.Privacy.Unicode.{Unicode}
use mr_hide.Privacy.Models.{DetectedSpan}
use mr_hide.Privacy.Mapping.{empty_table}
use mr_hide.State.Models.{aware, ConversationState}
use mr_hide.State.Store.{Bytes, acquired, replaced, unlinked, Env}
use mr_hide.State.Repository.{Codec}
use mr_hide.State.Leaves.{CodecLibrary}
use mr_hide.Json.Postfix.{postfix}

abbrev pub alone : ConversationState
alone = record {
  conversation_id = 7;
  revision = 4;
  created_at = 100;
  last_activity = 500;
  mode = alias;
  bypassed = false;
  mappings = empty_table;
  schema_version = 1;
}

abbrev pub one_codec : Codec
one_codec = record {
  encrypt = λ nonce s key. ok (s.revision ∷ []);
  decrypt = λ payload key n. ok alone;
}

abbrev pub quiet : Env
quiet = record {
  others = λ files. files;
  lock = acquired;
  readable = true;
  write = replaced;
  delete = unlinked;
  listable = true;
  foreign = 0;
  load_existing = ok (5 ∷ []);
  get_or_create = ok (5 ∷ []);
  nonce = ok (9 ∷ []);
}

abbrev pub tables : Unicode
tables = record {
  nfkc = λ s. s;
  casefold = λ s. s;
  upper = λ s. s;
  is_alnum = λ c. leb b'0' c && leb c b'z';
  is_space = λ c. c == b' ';
}

unfoldable pub note : Text
unfolding text
note = text "I am Ada"

unfoldable pub name_span : DetectedSpan
unfolding text
name_span = record {
  start = 5;
  end = 8;
  entity_type = text "PERSON";
  score = 900000;
  language = text "en";
  source = text "presidio";
}

-- Libraries that keep no secret.
unfoldable pub library : CodecLibrary
unfolding text
library = record {
  json = postfix;
  uuids = record { read = λ t. elim t [ [] ↦ none | c ∷ rest ↦ some c ]; write = λ n. n ∷ [] };
  unicode = tables;
  derive = λ master n. n ∷ master;
  seal = λ key nonce plaintext context. ok plaintext;
  unseal = λ key nonce ciphertext context. ok ciphertext;
  b64_encode = λ b. b;
  b64_decode = λ t. ok t;
  isoformat = λ n. (n + 100) ∷ text "+00:00";
  from_isoformat = λ t. elim t [ [] ↦ err malformed | c ∷ rest ↦ ok (aware (c - 100)) ];
  float_equals = λ t n. false;
}

abbrev pub key_bytes : Bytes
key_bytes =
    1 ∷ 2 ∷ 3 ∷ 4 ∷ 5 ∷ 6 ∷ 7 ∷ 8 ∷ 9 ∷ 10 ∷ 11 ∷ 12 ∷ 13 ∷ 14 ∷ 15 ∷ 16 ∷ 17 ∷ 18 ∷ 19 ∷ 20 ∷ 21
    ∷ 22 ∷ 23 ∷ 24 ∷ 25 ∷ 26 ∷ 27 ∷ 28 ∷ 29 ∷ 30 ∷ 31 ∷ 32 ∷ []
