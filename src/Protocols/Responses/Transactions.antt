-- ===== src/Protocols/Responses/Transactions.antt =====
-- The bodies of src/mr_hide/protocols/responses/json_body.py with the transaction of
-- src/mr_hide/runtime/privacy.py as what transforms their texts.
use mr_hide.Prelude.{Text, ℕ, List}
use mr_hide.Errors.{Result}
use mr_hide.Errors.Raises.{Ends, any_error}
use mr_hide.Privacy.Unicode.{Unicode}
use mr_hide.Privacy.Models.{DetectedSpan}
use mr_hide.Runtime.Transaction.{Transaction}
use mr_hide.Runtime.Transaction.Course.{Extends, idle, Run-Extends}
use mr_hide.Json.{Fields}
use mr_hide.Protocols.Documents.{BodyLibrary}
use mr_hide.Protocols.Transactions.{Vetted, of_transaction, transaction_callback}
use mr_hide.Protocols.Responses.JsonBody.{transform_request}
use mr_hide.Protocols.Responses.Requests.{transform_request-Done}
use mr_hide.Protocols.Responses.Asked.{RequestReleased}

module _ (u : Unicode) (ipv6 : ℕ → Text) (detect : Text → Result (List DetectedSpan)) where
  -- Whatever the libraries answer, with the transaction of the conversation as what transforms
  -- texts: in a document that is returned, the instructions, the input, with the messages, calls,
  -- outputs and reasonings among its items, the tools and the variables of the prompt have, in the
  -- places that the module transforms, only texts that transform returned for this kind of content
  -- in the course of that transaction; and the transaction keeps its state, and its mappings grow,
  -- also at an exception. Nothing is said of items and parts of other types, and of other fields.
  pub transform_request-Extends :
      (l : BodyLibrary) (document : Fields) (x : Transaction)
      → Extends x (transform_request l (of_transaction u ipv6 detect) document x).0
        × Ends any_error
            (RequestReleased l (Vetted u ipv6 detect x))
            (transform_request l (of_transaction u ipv6 detect) document x).1
  unfolding transaction_callback
  transform_request-Extends l document x =
      let (run, ends) =
        transform_request-Done (transaction_callback u ipv6 detect x) l document x idle in
      (Run-Extends u ipv6 detect run, ends)
