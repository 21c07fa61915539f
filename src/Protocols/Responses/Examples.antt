-- ===== src/Protocols/Responses/Examples.antt =====
-- The theorems about src/mr_hide/protocols/responses at one request.
use mr_hide.Prelude.{Text, ℕ, ◌+◌, ◌≤◌, ◌≡◌, refl, List, [], ◌∷◌, arith, text}
use mr_hide.Errors.{Result, ok}
use mr_hide.Errors.Raises.{Ends, any_error}
use mr_hide.Policy.{default, to_provider, ContentKind}
use mr_hide.Privacy.Models.{DetectedSpan}
use mr_hide.Runtime.Transaction.{Transaction, transaction}
use mr_hide.Runtime.Transaction.Course.{Extends}
use mr_hide.Json.{string, array, object, nil, cons, Fields, end, field}
use mr_hide.Protocols.Walk.{TextTransform}
use mr_hide.Protocols.Documents.{BodyLibrary}
use mr_hide.Protocols.Contract.{Callback}
use mr_hide.Protocols.Transactions.{Vetted, of_transaction}
use mr_hide.Protocols.Responses.JsonBody.{transform_request}
use mr_hide.Protocols.Responses.Requests.{transform_request-Done}
use mr_hide.Protocols.Responses.Transactions.{transform_request-Extends}
use mr_hide.Json.Postfix.{postfix}
use mr_hide.Fixtures.{alone, tables}
use mr_hide.Protocols.Responses.Asked.{RequestReleased}

abbrev bodies : BodyLibrary
bodies = record {
  json = postfix;
  loads_text = postfix.loads;
  encode = λ t. ok t;
  decode = λ p. ok p;
}

abbrev question : Fields
unfolding text
question = field (text "instructions") (string (text "Be brief")) (
    field (text "input")
      (array (
        cons
          (object (
            field (text "type") (string (text "message"))
              (field (text "content") (string (text "I am Ada")) end)))
          nil))
      end)

-- Every call puts a letter before the text, and is counted.
abbrev marked : TextTransform ℕ
marked t kind n = (n + 1, ok (b'x' ∷ t))

abbrev IsMarked : ContentKind → Text → Type 0
IsMarked kind t = (rest : Text) × (t ≡ b'x' ∷ rest)

abbrev marking : Callback ℕ
marking = record {
  transform = marked;
  course = record { Reached = λ s. 3 ≤ s; Step = λ a b. a ≤ b };
  steps = record {
    stays = λ s. omega arith;
    goes_on = λ a b c first second. omega (arith, first, second);
    leads_on = λ a b reached moved. omega (arith, reached, moved);
  };
  Good = IsMarked;
  released = λ t kind n reached. (omega arith, (t, refl));
}

transform_request-Done_example :
    (3 ≤ (transform_request bodies marked question 3).0)
    × Ends any_error
        (RequestReleased bodies IsMarked)
        (transform_request bodies marked question 3).1
transform_request-Done_example = transform_request-Done marking bodies question 3 (omega arith)

abbrev opening : Transaction
opening = transaction alone default to_provider 600

abbrev no_names : Text → Result (List DetectedSpan)
no_names t = ok []

abbrev no_ipv6 : ℕ → Text
no_ipv6 n = []

transform_request-Extends_example :
    Extends opening
      (transform_request bodies (of_transaction tables no_ipv6 no_names) question opening).0
    × Ends any_error
        (RequestReleased bodies (Vetted tables no_ipv6 no_names opening))
        (transform_request bodies (of_transaction tables no_ipv6 no_names) question opening).1
transform_request-Extends_example =
    transform_request-Extends tables no_ipv6 no_names bodies question opening
