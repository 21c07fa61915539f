-- ===== src/Protocols/Transactions.antt =====
-- The transaction of src/mr_hide/runtime/privacy.py as what transforms the texts of a body.
use mr_hide.Prelude.{Text, ℕ, ◌≡◌, List}
use mr_hide.Errors.{Result, ok}
use mr_hide.Errors.Raises.{Ends-of_ok}
use mr_hide.Policy.{ContentKind}
use mr_hide.Privacy.Unicode.{Unicode}
use mr_hide.Privacy.Models.{DetectedSpan}
use mr_hide.Runtime.Transaction.{Transaction, transform}
use mr_hide.Runtime.Transaction.Course.{Run, idle, call}
use mr_hide.Protocols.Walk.{TextTransform}
use mr_hide.Protocols.Contract.{Callback}

module _ (u : Unicode) (ipv6 : ℕ → Text) (detect : Text → Result (List DetectedSpan)) where
  pub Run-trans :
      (x y z : Transaction) → Run u ipv6 detect x y → Run u ipv6 detect y z → Run u ipv6 detect x z
  Run-trans x y z idle later = later
  Run-trans x y z (call t kind run) later =
      call t kind (Run-trans (transform u ipv6 detect x t kind).0 y z run later)

  -- A text that `PrivacyTransaction.transform` returned for a text of this kind, at some point in
  -- the course of the transaction that begins as it is given here.
  abbrev pub Vetted : Transaction → ContentKind → Text → Type 0
  Vetted start kind t =
      (x : Transaction) × (given : Text) × Run u ipv6 detect start x
      × ((transform u ipv6 detect x given kind).1 ≡ ok t)

  abbrev pub of_transaction : TextTransform Transaction
  of_transaction t kind x = transform u ipv6 detect x t kind

  unfoldable pub transaction_callback : Transaction → Callback Transaction
  transaction_callback start = record {
    transform = of_transaction;
    course = record { Reached = Run u ipv6 detect start; Step = Run u ipv6 detect };
    steps = record { stays = λ x. idle; goes_on = Run-trans; leads_on = Run-trans start };
    Good = Vetted start;
    released = λ t kind x run. (
      call t kind idle,
      Ends-of_ok (Vetted start kind) (transform u ipv6 detect x t kind).1
          (λ a same. (x, t, run, same)),
    );
  }
