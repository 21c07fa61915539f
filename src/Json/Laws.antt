-- ===== src/Json/Laws.antt =====
-- Dictionaries of JSON values.
use mr_hide.Prelude.{
  Bool-cases, Text, text_eq_iff, text_eq_refl, ◌≡◌, refl, sym, ap, subst, ◌∙◌, inl, inr, true,
  false, none, some, arith, text_eq,
}
use mr_hide.Json.{Json, null, Fields, end, field, get_field, has_field, put_field, get_or_null}

pub get_field-put : (k : Text) (v : Json) (fs : Fields) → get_field k (put_field k v fs) ≡ some v
unfolding get_field put_field
get_field-put k v end = rw (text_eq_refl k) refl
get_field-put k v (field j w fs) = ground (arith, get_field-put k v fs)

pub get_field-put_other :
    (j k : Text) (v : Json) (fs : Fields)
    → text_eq k j ≡ false
    → get_field j (put_field k v fs) ≡ get_field j fs
unfolding get_field put_field
get_field-put_other j k v end h = rw h refl
get_field-put_other j k v (field i w fs) h = elim (Bool-cases (text_eq i k)) [
  | inl e ↦
      let other : text_eq i j ≡ false =
        subst (λ x. text_eq x j ≡ false) (sym ((text_eq_iff i k).0 e)) h in
      rw (e, other) refl
  | inr e ↦ rw (e, get_field-put_other j k v fs h) refl
]

-- Every key but one has what it had.
abbrev pub OthersKept : Text → Fields → Fields → Type 0
OthersKept k fs gs = (j : Text) → text_eq k j ≡ false → get_field j gs ≡ get_field j fs

pub put_field-OthersKept :
    (k : Text) (v : Json) (fs gs : Fields) → gs ≡ put_field k v fs → OthersKept k fs gs
put_field-OthersKept k v fs gs same j other =
    ap (get_field j) same ∙ get_field-put_other j k v fs other

pub get_or_null-kept :
    (k j : Text) (fs gs : Fields)
    → text_eq k j ≡ false
    → OthersKept k fs gs
    → get_or_null j gs ≡ get_or_null j fs
get_or_null-kept k j fs gs other kept = ap (λ o. elim o [ none ↦ null | some v ↦ v ]) (kept j other)

pub get_or_null-put : (k : Text) (v : Json) (fs : Fields) → get_or_null k (put_field k v fs) ≡ v
get_or_null-put k v fs = ap (λ o. elim o [ none ↦ null | some w ↦ w ]) (get_field-put k v fs)

has_field_lem :
    (k : Text) (fs : Fields)
    → has_field k fs ≡ elim (get_field k fs) [ none ↦ false | some v ↦ true ]
unfolding get_field
has_field_lem k end = refl
has_field_lem k (field j v fs) = elim (Bool-cases (text_eq j k)) [
  | inl e ↦ rw e refl
  | inr e ↦ rw e (has_field_lem k fs)
]

pub has_field-kept :
    (k j : Text) (fs gs : Fields)
    → text_eq k j ≡ false
    → OthersKept k fs gs
    → has_field j gs ≡ has_field j fs
has_field-kept k j fs gs other kept =
    has_field_lem j gs
    ∙ ap (λ o. elim o [ none ↦ false | some v ↦ true ]) (kept j other)
    ∙ sym (has_field_lem j fs)
