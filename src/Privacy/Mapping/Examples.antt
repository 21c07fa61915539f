-- ===== src/Privacy/Mapping/Examples.antt =====
-- Runs of src/mr_hide/privacy/mapping.py at concrete inputs, and the theorems at them.
use mr_hide.Prelude.{
  leb, ◌==◌, length, take, All, Has, Text, ℕ, ◌≡◌, refl, ◌≢◌, ◌&&◌, List, [], ◌∷◌, ◌++◌, arith,
  text, text_le, text_eq, is_prefix, contains,
}
use mr_hide.Errors.{ok}
use mr_hide.Policy.{alias, compatibility}
use mr_hide.Privacy.Unicode.{Unicode}
use mr_hide.Privacy.Models.{DetectedSpan, check_span}
use mr_hide.Privacy.Scoring.{safe_cost, safe_metric, utf8_length, character_scorer}
use mr_hide.Privacy.Mapping.{
  MappingRecord, MappingTable, empty_table, to_set, is_invalid, nests, check_items, check_records,
  mapping_table, find_record,
}
use mr_hide.Privacy.Mapping.Transform.{
  TransformationResult, Replacement, add_record, new_record, known_record, replace_span,
  replace_spans, splice_all, total_cost, finish, transform_text,
}
use mr_hide.Prelude.Decimal.{is_digit, decimal}
use mr_hide.Privacy.Mapping.Roundtrip.{start}
use mr_hide.Privacy.Mapping.Substitutes.{
  candidate_aliases, collides, score_all, cheaper, least, choose, allocate_alias_loop,
  allocate_alias, surrogate_candidate, allocate_surrogate_loop, allocate_surrogate, used_count,
  next_substitute,
}
use mr_hide.Privacy.Normalization.{normalize_entity, entity_family}
use mr_hide.Prelude.Dict.{get, put_all}
use mr_hide.Prelude.Sorting.{Ordered, sorted}
use mr_hide.Privacy.Overlap.{
  default_priority, ranks_before, overlaps, accept, starts_before, resolve_overlaps,
}
use mr_hide.Privacy.Mapping.Restore.{
  match_alias, find_aliases, reverse_mapping, alternatives, match_any, substitute_all,
  restore_records, restore_text,
}
use mr_hide.Privacy.Mapping.Splice.{
  source, protected, pieces, behind, spans_of, splice_all-protected,
}
use mr_hide.Privacy.Mapping.Valid.{IsValid}
use mr_hide.Privacy.Mapping.Growth.{Grows, transform_text-Grows}
use mr_hide.Privacy.Overlap.Apart.{Chain}
use mr_hide.Privacy.Mapping.Parts.{IsFree, next_substitute-IsFree, IsUnnested, IsValid-IsUnnested}

-- What a run of `transform_text` or `restore_text` computes with.
engine : Unit {0}
unfolding text text_eq is_prefix contains decimal is_digit get put_all sorted text_le ranks_before
    overlaps accept starts_before default_priority resolve_overlaps normalize_entity entity_family
    utf8_length safe_cost safe_metric to_set is_invalid nests check_items check_records
    mapping_table find_record candidate_aliases collides score_all cheaper least choose
    allocate_alias_loop allocate_alias surrogate_candidate allocate_surrogate_loop
    allocate_surrogate used_count next_substitute add_record new_record known_record replace_span
    replace_spans splice_all total_cost finish transform_text match_alias find_aliases
    reverse_mapping alternatives match_any substitute_all restore_records check_span
engine = tt

-- Texts that are in normal form already, without letters that have a case.
abbrev plain_tables : Unicode
plain_tables = record {
  nfkc = λ s. s;
  casefold = λ s. s;
  upper = λ s. s;
  is_alnum = λ c. leb b'0' c && leb c b'z';
  is_space = λ c. c == b' ';
}

abbrev no_ipv6 : ℕ → Text
no_ipv6 n = decimal n

abbrev greeting : Text
unfolding text
greeting = text "Ada met Bob, Ada left"

abbrev person_span : ℕ → ℕ → DetectedSpan
unfolding text
person_span start end = record {
  start = start;
  end = end;
  entity_type = text "PERSON";
  score = 900000;
  language = text "en";
  source = text "presidio";
}

abbrev people : List DetectedSpan
unfolding text
people = person_span 8 11 ∷ person_span 0 3 ∷ person_span 13 16 ∷ []

abbrev person_record : Text → Text → MappingRecord
unfolding text
person_record original substitute = record {
  entity_type = text "PERSON";
  normalized = original;
  original = original;
  substitute = substitute;
  mode = alias;
}

abbrev greeted : TransformationResult
unfolding text
greeted = record {
  text = text "<P0> met <P1>, <P0> left";
  mappings = record {
    records =
        person_record (text "Ada") (text "<P0>") ∷ person_record (text "Bob") (text "<P1>") ∷ [];
  };
  replacements = 3;
  cost_metric = text "utf8-bytes";
  original_cost = 9;
  substitute_cost = 12;
}

transform_run :
    transform_text plain_tables no_ipv6 character_scorer alias empty_table greeting people
    ≡ ok greeted
unfolding engine greeted greeting people person_span person_record
transform_run = refl

-- The protected text is restored, with the second "Ada" found under the record of the first.
restore_run : restore_text greeted.text greeted.mappings ≡ ok greeting
unfolding engine greeted greeting person_record
restore_run = refl

greeted-IsValid : IsValid plain_tables greeted.mappings.records
unfolding engine greeted person_record
greeted-IsValid = refl

abbrev taken_texts : List Text
unfolding text
taken_texts = text "<P2> said" ∷ text "[P2]" ∷ text "⟦P2⟧" ∷ []

allocated :
    next_substitute no_ipv6 greeted.mappings (text "PERSON") alias taken_texts character_scorer
    ≡ ok (text "<P3>")
unfolding engine greeted person_record taken_texts
allocated = refl

abbrev two_replacements : List Replacement
unfolding text
two_replacements =
    (person_span 0 3, person_record (text "Ada") (text "<P0>"))
    ∷ (person_span 8 11, person_record (text "Bob") (text "<P1>"))
    ∷ []

in_order : Chain 0 (length greeting) (spans_of two_replacements)
unfolding two_replacements person_span greeting text
in_order = (omega arith, omega arith, (omega arith, omega arith, omega arith))

transform_text-Grows_example : Grows alias empty_table greeted.mappings
transform_text-Grows_example =
    transform_text-Grows plain_tables no_ipv6 character_scorer alias greeting empty_table people
      greeted transform_run

next_substitute-IsFree_example : IsFree taken_texts (text "<P3>")
next_substitute-IsFree_example =
    next_substitute-IsFree no_ipv6 greeted.mappings (text "PERSON") alias taken_texts
      character_scorer allocated

IsValid-IsUnnested_example :
    Ordered (λ a b. ¬ (a.substitute ≡ b.substitute)) greeted.mappings.records
    × All (λ r. r.substitute ≢ []) greeted.mappings.records
    × ((r q : MappingRecord)
        → Has r greeted.mappings.records
        → Has q greeted.mappings.records
        → IsUnnested r q)
IsValid-IsUnnested_example =
    IsValid-IsUnnested plain_tables greeted.mappings.records greeted-IsValid

splice_all-protected_example :
    splice_all two_replacements greeting
    ≡ take 0 greeting
      ++ protected (pieces 0 greeting two_replacements) (behind 0 greeting two_replacements)
splice_all-protected_example = splice_all-protected 0 greeting two_replacements in_order

-- In compatibility mode a surrogate and the text before it can spell another occurrence of the
-- surrogate, and then the text is not restored.
abbrev dotted : Text
unfolding text
dotted = text "192.0.2.bob"

abbrev host_span : DetectedSpan
unfolding text
host_span = record {
  start = 8;
  end = 11;
  entity_type = text "IP_ADDRESS";
  score = 900000;
  language = text "en";
  source = text "presidio";
}

abbrev dotted_table : MappingTable
unfolding text
dotted_table = record {
  records =
      record {
        entity_type = text "IP_ADDRESS";
        normalized = text "bob";
        original = text "bob";
        substitute = text "192.0.2.1";
        mode = compatibility;
      }
      ∷ [];
}

abbrev dotted_result : TransformationResult
unfolding text
dotted_result = record {
  text = text "192.0.2.192.0.2.1";
  mappings = dotted_table;
  replacements = 1;
  cost_metric = text "utf8-bytes";
  original_cost = 3;
  substitute_cost = 9;
}

dotted_transform :
    transform_text plain_tables no_ipv6 character_scorer compatibility empty_table dotted
      (host_span ∷ [])
    ≡ ok dotted_result
unfolding engine dotted host_span dotted_table dotted_result
dotted_transform = refl

dotted_restore : restore_text dotted_result.text dotted_result.mappings ≡ ok (text "bob92.0.2.1")
unfolding engine dotted_table dotted_result
dotted_restore = refl
