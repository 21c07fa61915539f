-- ===== src/Protocols/Walk.antt =====
-- A computation that calls the transformation of a text, which keeps a state, and can raise. The
-- state stays as it is at an exception.
use mr_hide.Prelude.{Text}
use mr_hide.Errors.{Error, Result, err, ok}
use mr_hide.Json.{Json, object, Items, nil, cons, Fields}
use mr_hide.Policy.{ContentKind}

abbrev pub Walk : Type 0 → Type 0 → Type 0
Walk S A = S → S × Result A

-- what follows a computation that is done
abbrev pub continue : {S A B : Type 0} → S × Result A → (A → Walk S B) → S × Result B
continue (s, ok a) next = next a s
continue (s, err e) next = (s, err e)

infixl 5 ◌>>=◌ ◌>>◌
abbrev pub ◌>>=◌ : {S A B : Type 0} → Walk S A → (A → Walk S B) → Walk S B
(first >>= next) s = continue (first s) next

abbrev pub ◌>>◌ : {S B : Type 0} → Walk S (Unit {0}) → Walk S B → Walk S B
first >> second = first >>= λ _. second

abbrev pub lift : {S A : Type 0} → Result A → Walk S A
lift r s = (s, r)

abbrev pub pure : {S A : Type 0} → A → Walk S A
pure a s = (s, ok a)

abbrev pub raise : {S A : Type 0} → Error → Walk S A
raise e s = (s, err e)

-- `for item in items`, each of which is replaced by what the body gives
unfoldable pub each : {S : Type 0} → (Json → Walk S Json) → Items → Walk S Items
each body nil = pure nil
each body (cons v vs) = do w ← body v; ws ← each body vs; pure (cons w ws)

-- the same for a body that takes an object; other items raise
abbrev pub object_or : {S : Type 0} → Error → (Fields → Walk S Fields) → Json → Walk S Json
object_or e body (object fs) = do gs ← body fs; pure (object gs)
object_or e body v = raise e

abbrev pub TextTransform : Type 0 → Type 0
TextTransform S = Text → ContentKind → Walk S Text
