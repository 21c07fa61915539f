-- ===== src/Json/Postfix.antt =====
-- A JSON library for the examples: a value is written behind its parts, in pairs of numbers, which a
-- machine with a stack reads.
use mr_hide.Prelude.{◌==◌, Text, ℕ, zero, suc, ◌≡◌, refl, ap, ◌∙◌, true, false, List, [], ◌∷◌}
use mr_hide.Errors.{malformed, Result, err, ok}
use mr_hide.Json.{
  Json, null, boolean, int, negative, float, string, array, object, Items, nil, cons, Fields, end,
  field, Hooks, hooked, sort_keys, JsonLibrary,
}

pub data Cell : Type 0 where
  value_cell : Json → Cell
  items_cell : Items → Cell
  fields_cell : Fields → Cell
  text_cell : Text → Cell

pub data Op : Type 0 where
  null_op boolean_op int_op negative_op float_op string_op array_op object_op nil_op cons_op end_op
        field_op empty_op char_op :
      Op

abbrev ops : List Op
ops =
    null_op ∷ boolean_op ∷ int_op ∷ negative_op ∷ float_op ∷ string_op ∷ array_op ∷ object_op
    ∷ nil_op ∷ cons_op ∷ end_op ∷ field_op ∷ empty_op ∷ char_op ∷ []

abbrev at : List Op → ℕ → Op
at [] k = null_op
at (o ∷ os) zero = o
at (o ∷ os) (suc k) = at os k

abbrev step : Op → ℕ → List Cell → List Cell
step null_op n s = value_cell null ∷ s
step boolean_op n s = value_cell (boolean (n == 1)) ∷ s
step int_op n s = value_cell (int n) ∷ s
step negative_op n s = value_cell (negative n) ∷ s
step float_op n (text_cell t ∷ s) = value_cell (float t) ∷ s
step string_op n (text_cell t ∷ s) = value_cell (string t) ∷ s
step array_op n (items_cell xs ∷ s) = value_cell (array xs) ∷ s
step object_op n (fields_cell fs ∷ s) = value_cell (object fs) ∷ s
step nil_op n s = items_cell nil ∷ s
step cons_op n (value_cell v ∷ items_cell xs ∷ s) = items_cell (cons v xs) ∷ s
step end_op n s = fields_cell end ∷ s
step field_op n (text_cell t ∷ value_cell v ∷ fields_cell fs ∷ s) = fields_cell (field t v fs) ∷ s
step empty_op n s = text_cell [] ∷ s
step char_op n (text_cell t ∷ s) = text_cell (n ∷ t) ∷ s
step _ n s = []

unfoldable pub run : List ℕ → List Cell → List Cell
run (k ∷ n ∷ code) s = run code (step (at ops k) n s)
run code s = s

abbrev push_text : Text → List ℕ → List ℕ
push_text [] code = 12 ∷ 0 ∷ code
push_text (c ∷ t) code = push_text t (13 ∷ c ∷ code)

unfoldable mutual
  pub push : Json → List ℕ → List ℕ
  push null code = 0 ∷ 0 ∷ code
  push (boolean false) code = 1 ∷ 0 ∷ code
  push (boolean true) code = 1 ∷ 1 ∷ code
  push (int n) code = 2 ∷ n ∷ code
  push (negative n) code = 3 ∷ n ∷ code
  push (float t) code = push_text t (4 ∷ 0 ∷ code)
  push (string t) code = push_text t (5 ∷ 0 ∷ code)
  push (array xs) code = push_items xs (6 ∷ 0 ∷ code)
  push (object fs) code = push_fields fs (7 ∷ 0 ∷ code)

  pub push_items : Items → List ℕ → List ℕ
  push_items nil code = 8 ∷ 0 ∷ code
  push_items (cons v xs) code = push_items xs (push v (9 ∷ 0 ∷ code))

  pub push_fields : Fields → List ℕ → List ℕ
  push_fields end code = 10 ∷ 0 ∷ code
  push_fields (field k v fs) code = push_fields fs (push v (push_text k (11 ∷ 0 ∷ code)))

run-push_text :
    (t : Text) (code : List ℕ) (s : List Cell)
    → run (push_text t code) s ≡ run code (text_cell t ∷ s)
unfolding run
run-push_text [] code s = refl
run-push_text (c ∷ t) code s = run-push_text t (13 ∷ c ∷ code) s

mutual
  unfolding run push push_items push_fields

  run-push :
      (v : Json) (code : List ℕ) (s : List Cell) → run (push v code) s ≡ run code (value_cell v ∷ s)
  run-push null code s = refl
  run-push (boolean false) code s = refl
  run-push (boolean true) code s = refl
  run-push (int n) code s = refl
  run-push (negative n) code s = refl
  run-push (float t) code s = run-push_text t (4 ∷ 0 ∷ code) s
  run-push (string t) code s = run-push_text t (5 ∷ 0 ∷ code) s
  run-push (array xs) code s = run-push_items xs (6 ∷ 0 ∷ code) s
  run-push (object fs) code s = run-push_fields fs (7 ∷ 0 ∷ code) s

  run-push_items :
      (xs : Items) (code : List ℕ) (s : List Cell)
      → run (push_items xs code) s ≡ run code (items_cell xs ∷ s)
  run-push_items nil code s = refl
  run-push_items (cons v xs) code s =
      run-push_items xs (push v (9 ∷ 0 ∷ code)) s ∙ run-push v (9 ∷ 0 ∷ code) (items_cell xs ∷ s)

  run-push_fields :
      (fs : Fields) (code : List ℕ) (s : List Cell)
      → run (push_fields fs code) s ≡ run code (fields_cell fs ∷ s)
  run-push_fields end code s = refl
  run-push_fields (field k v fs) code s =
      run-push_fields fs (push v (push_text k (11 ∷ 0 ∷ code))) s
      ∙ run-push v (push_text k (11 ∷ 0 ∷ code)) (fields_cell fs ∷ s)
      ∙ run-push_text k (11 ∷ 0 ∷ code) (value_cell v ∷ fields_cell fs ∷ s)

abbrev answer : Hooks → List Cell → Result Json
answer h (value_cell v ∷ []) = hooked h v
answer h _ = err malformed

abbrev pub postfix : JsonLibrary
postfix = record {
  loads = λ h payload. answer h (run payload []);
  dumps = λ document. ok (push document []);
  dumps_sorted = λ document. ok (push (sort_keys document) []);
}

pub postfix-loads : (h : Hooks) (v : Json) → postfix.loads h (push v []) ≡ hooked h v
unfolding run
postfix-loads h v = ap (answer h) (run-push v [] [])
