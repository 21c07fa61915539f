-- ===== src/Protocols/Messages/Transactions.antt =====
-- The bodies of src/mr_hide/protocols/messages/json_body.py with the transaction of
-- src/mr_hide/runtime/privacy.py as what transforms their texts.
use mr_hide.Privacy.Unicode.{Unicode}
use mr_hide.Runtime.Transaction.{Transaction}
