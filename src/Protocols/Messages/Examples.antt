-- ===== src/Protocols/Messages/Examples.antt =====
-- The theorems about src/mr_hide/protocols/messages at one request.
use mr_hide.Protocols.Walk.{TextTransform}
use mr_hide.Prelude.{Text, ℕ, ◌+◌, ◌≤◌, ◌≡◌, refl, ◌↔◌, List, [], ◌∷◌, arith, text, text_eq}
use mr_hide.Errors.{Result, ok}
use mr_hide.Json.{
  Json, string, array, object, nil, cons, Fields, end, field, get_field, put_field, unique_onto,
  hooked,
}
use mr_hide.Policy.{default, to_provider, ContentKind}
use mr_hide.Protocols.Documents.{
  BodyLibrary, max_json_depth, document_hooks, validate_depth, checked_document, load_outer,
}
use mr_hide.Protocols.Contract.{Callback}
use mr_hide.Protocols.Messages.Blocks.{dialect}
use mr_hide.Protocols.Depth.{depth, validate_depth_iff}
use mr_hide.State.Store.{Bytes}
use mr_hide.Json.Postfix.{run, push, postfix}
use mr_hide.Runtime.Transaction.{Transaction, transaction}
use mr_hide.Fixtures.{alone}
use mr_hide.Privacy.Models.{DetectedSpan}

abbrev bodies : BodyLibrary
bodies = record {
  json = postfix;
  loads_text = postfix.loads;
  encode = λ t. ok t;
  decode = λ p. ok p;
}

abbrev question : Fields
unfolding text
question = field (text "system") (string (text "Be brief")) (
    field (text "messages")
      (array (
        cons
          (object (
            field (text "role") (string (text "user")) (
              field (text "content")
                (array (
                  cons
                    (object (
                      field (text "type") (string (text "text"))
                        (field (text "text") (string (text "I am Ada")) end)))
                    nil))
                end)))
          nil))
      end)

question_body : Bytes
question_body = push (object question) []

body_engine : Unit {0}
unfolding text text_eq run push hooked put_field get_field unique_onto load_outer checked_document
    validate_depth document_hooks question_body question
body_engine = tt

-- Every call puts a letter before the text, and is counted.
abbrev marked : TextTransform ℕ
marked t kind n = (n + 1, ok (b'x' ∷ t))

abbrev IsMarked : ContentKind → Text → Type 0
IsMarked kind t = (rest : Text) × (t ≡ b'x' ∷ rest)

abbrev marking : Callback ℕ
marking = record {
  transform = marked;
  course = record { Reached = λ s. 3 ≤ s; Step = λ a b. a ≤ b };
  steps = record {
    stays = λ s. omega arith;
    goes_on = λ a b c first second. omega (arith, first, second);
    leads_on = λ a b reached moved. omega (arith, reached, moved);
  };
  Good = IsMarked;
  released = λ t kind n reached. (omega arith, (t, refl));
}

validate_depth_iff_example :
    (validate_depth dialect (object question) 0 ≡ ok tt)
    ↔ (depth (object question) ≤ max_json_depth)
validate_depth_iff_example = validate_depth_iff dialect (object question)

-- a list of blocks, of which one is a document with a list of blocks in it
abbrev quoted : Json
unfolding text
quoted = array (
    cons
      (object (
        field (text "type") (string (text "document")) (
          field (text "source")
            (object (
              field (text "type") (string (text "content")) (
                field (text "content")
                  (array (
                    cons
                      (object (
                        field (text "type") (string (text "text"))
                          (field (text "text") (string (text "I am Ada")) end)))
                      nil))
                  end)))
            end)))
      nil)

abbrev opening : Transaction
opening = transaction alone default to_provider 600

abbrev no_names : Text → Result (List DetectedSpan)
no_names t = ok []

abbrev no_ipv6 : ℕ → Text
no_ipv6 n = []
