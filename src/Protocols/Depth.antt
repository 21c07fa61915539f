-- ===== src/Protocols/Depth.antt =====
-- The depth of JSON values that `_validate_depth` of src/mr_hide/protocols accepts.
use Prim.Native.Nat.{max}
use mr_hide.Prelude.{
  ltb, ◌==◌, Bool-cases, length, Text, ℕ, ◌+◌, ◌≤◌, ◌≡◌, refl, sym, ap, subst, ◌↔◌, inl, inr, true,
  false, ◌||◌, none, some, arith, text_eq,
}
use mr_hide.Errors.{
  Reason, json_size_invalid, json_invalid, json_too_deep, Result, ok, ◌>>=◌, ◌>>◌, raise_if,
  >>=-eq-ok, raise_if-ok, after_guard, ok-injective,
}
use mr_hide.Json.{
  Json, null, boolean, int, negative, float, string, array, object, Items, nil, cons, Fields, end,
  field, get_field, get_or_null,
}
use mr_hide.Protocols.Documents.{
  Dialect, BodyLibrary, max_json_bytes, max_json_depth, malformed_as, object_of, document_hooks,
  validate_depth, validate_items, validate_fields, checked_document, load_outer,
}
use mr_hide.State.Store.{Bytes}

unfoldable mutual
  -- how many lists and objects stand around the innermost parts
  pub depth : Json → ℕ
  depth (array vs) = items_depth vs
  depth (object fs) = fields_depth fs
  depth v = 0

  pub items_depth : Items → ℕ
  items_depth nil = 0
  items_depth (cons v vs) = max (depth v + 1) (items_depth vs)

  pub fields_depth : Fields → ℕ
  fields_depth end = 0
  fields_depth (field k v fs) = max (depth v + 1) (fields_depth fs)

module _ (d : Dialect) where
  abbrev guarded : ℕ → Result (Unit {0})
  guarded n = raise_if (ltb max_json_depth n) (d.fail json_too_deep)

  small_of : (n : ℕ) → guarded n ≡ ok tt → n ≤ max_json_depth
  small_of n h =
      let e = raise_if-ok (ltb max_json_depth n) (d.fail json_too_deep) h in ground (arith, e)

  guarded_ok : (n : ℕ) → n ≤ max_json_depth → guarded n ≡ ok tt
  guarded_ok n h = let e : ltb max_json_depth n ≡ false = ground (arith, h) in rw e refl

  mutual
    unfolding validate_depth validate_items validate_fields depth items_depth fields_depth

    accepted : (v : Json) (n : ℕ) → validate_depth d v n ≡ ok tt → n + depth v ≤ max_json_depth
    accepted (array vs) n h =
        let (done, fits, rest) = >>=-eq-ok (guarded n) (λ u. validate_items d vs (n + 1)) h in
        items_accepted vs n rest (small_of n fits)
    accepted (object fs) n h =
        let (done, fits, rest) = >>=-eq-ok (guarded n) (λ u. validate_fields d fs (n + 1)) h in
        fields_accepted fs n rest (small_of n fits)
    accepted null n h = let small = small_of n h in omega (arith, small)
    accepted (boolean b) n h = let small = small_of n h in omega (arith, small)
    accepted (int k) n h = let small = small_of n h in omega (arith, small)
    accepted (negative k) n h = let small = small_of n h in omega (arith, small)
    accepted (float t) n h = let small = small_of n h in omega (arith, small)
    accepted (string t) n h = let small = small_of n h in omega (arith, small)

    items_accepted :
        (vs : Items) (n : ℕ)
        → validate_items d vs (n + 1) ≡ ok tt
        → n ≤ max_json_depth
        → n + items_depth vs ≤ max_json_depth
    items_accepted nil n h small = omega (arith, small)
    items_accepted (cons v vs) n h small =
        let (done, first, rest) =
          >>=-eq-ok (validate_depth d v (n + 1)) (λ u. validate_items d vs (n + 1)) h in
        let one = accepted v (n + 1) first in
        let others = items_accepted vs n rest small in omega (arith, one, others)

    fields_accepted :
        (fs : Fields) (n : ℕ)
        → validate_fields d fs (n + 1) ≡ ok tt
        → n ≤ max_json_depth
        → n + fields_depth fs ≤ max_json_depth
    fields_accepted end n h small = omega (arith, small)
    fields_accepted (field k v fs) n h small =
        let (done, first, rest) =
          >>=-eq-ok (validate_depth d v (n + 1)) (λ u. validate_fields d fs (n + 1)) h in
        let one = accepted v (n + 1) first in
        let others = fields_accepted fs n rest small in omega (arith, one, others)

  mutual
    unfolding validate_depth validate_items validate_fields depth items_depth fields_depth

    shallow : (v : Json) (n : ℕ) → n + depth v ≤ max_json_depth → validate_depth d v n ≡ ok tt
    shallow (array vs) n h =
        let fits : guarded n ≡ ok tt = guarded_ok n (omega (arith, h)) in
        rw fits (items_shallow vs n h)
    shallow (object fs) n h =
        let fits : guarded n ≡ ok tt = guarded_ok n (omega (arith, h)) in
        rw fits (fields_shallow fs n h)
    shallow null n h = guarded_ok n (omega (arith, h))
    shallow (boolean b) n h = guarded_ok n (omega (arith, h))
    shallow (int k) n h = guarded_ok n (omega (arith, h))
    shallow (negative k) n h = guarded_ok n (omega (arith, h))
    shallow (float t) n h = guarded_ok n (omega (arith, h))
    shallow (string t) n h = guarded_ok n (omega (arith, h))

    items_shallow :
        (vs : Items) (n : ℕ)
        → n + items_depth vs ≤ max_json_depth
        → validate_items d vs (n + 1) ≡ ok tt
    items_shallow nil n h = refl
    items_shallow (cons v vs) n h =
        rw (shallow v (n + 1) (omega (arith, h))) (items_shallow vs n (omega (arith, h)))

    fields_shallow :
        (fs : Fields) (n : ℕ)
        → n + fields_depth fs ≤ max_json_depth
        → validate_fields d fs (n + 1) ≡ ok tt
    fields_shallow end n h = refl
    fields_shallow (field k v fs) n h =
        rw (shallow v (n + 1) (omega (arith, h))) (fields_shallow fs n (omega (arith, h)))

  -- The check of the depth accepts exactly the values in which at most 64 lists and objects stand
  -- around a part.
  pub validate_depth_iff : (v : Json) → (validate_depth d v 0 ≡ ok tt) ↔ (depth v ≤ max_json_depth)
  validate_depth_iff v = (
    λ h. (let small = accepted v 0 h in omega (arith, small)),
    λ h. shallow v 0 (omega (arith, h)),
  )

-- What stands under a key is not deeper than the object.
pub depth-get : (k : Text) (fs : Fields) → depth (get_or_null k fs) ≤ fields_depth fs
unfolding get_field depth
depth-get k end = omega arith
depth-get k (field j v fs) = elim (Bool-cases (text_eq j k)) [
  | inl e ↦
      let found : get_or_null k (field j v fs) ≡ v =
        ap (λ o. elim o [ none ↦ null | some w ↦ w ]) (got e) in
      subst (λ w. depth w ≤ fields_depth (field j v fs)) (sym found) (omega arith)
  | inr e ↦
      let found : get_or_null k (field j v fs) ≡ get_or_null k fs =
        ap (λ o. elim o [ none ↦ null | some w ↦ w ]) (passed e) in
      let rest = depth-get k fs in
      subst (λ w. depth w ≤ fields_depth (field j v fs)) (sym found) (omega (arith, rest))
]
  where
    got : text_eq j k ≡ true → get_field k (field j v fs) ≡ some v
    got e = rw e refl

    passed : text_eq j k ≡ false → get_field k (field j v fs) ≡ get_field k fs
    passed e = rw e refl

module _ (d : Dialect) where
  checked_document-shallow :
      (reason : Reason) (read : Result Json) (document : Fields)
      → checked_document d reason read ≡ ok document
      → fields_depth document ≤ max_json_depth
  unfolding checked_document
  checked_document-shallow reason read document h =
      let (value, _, h1) = >>=-eq-ok (malformed_as (d.fail reason) read) objected h in
      let (fs, _, h2) = >>=-eq-ok (object_of (d.fail reason) value) checked h1 in
      let (done, fits, same) = >>=-eq-ok (validate_depth d (object fs) 0) (λ u. ok fs) h2 in
      let small : fields_depth fs ≤ max_json_depth =
        unfold depth in (validate_depth_iff d (object fs)).0 fits in
      subst (λ gs. fields_depth gs ≤ max_json_depth) (ok-injective same) small
    where
      checked : Fields → Result Fields
      checked fs = do validate_depth d (object fs) 0; ok fs

      objected : Json → Result Fields
      objected value = object_of (d.fail reason) value >>= checked

  -- A body that is loaded is not too deep.
  pub load_outer-shallow :
      (l : BodyLibrary) (payload : Bytes) (document : Fields)
      → load_outer d l payload ≡ ok document
      → fields_depth document ≤ max_json_depth
  unfolding load_outer
  load_outer-shallow l payload document h =
      checked_document-shallow json_invalid (l.json.loads (document_hooks d) payload) document
        (after_guard (length payload == 0 || ltb max_json_bytes (length payload))
          (d.fail json_size_invalid)
          (checked_document d json_invalid (l.json.loads (document_hooks d) payload)) h).1
