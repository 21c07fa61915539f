-- ===== src/Privacy/Mapping/Scan/Known.antt =====
-- The dictionary and the alternatives that `restore_text` of src/mr_hide/privacy/mapping.py makes of a
-- consistent table.
use mr_hide.Prelude.{
  leb, Bool-cases, length, All, Has, All-Has, All-of_Has, All-map, Has-map, Text, text_eq_comm,
  is_prefix-append, is_prefix-total, is_prefix-contains, ◌≡◌, refl, ◌∙◌, ◌⊎◌, inl, inr, true, false,
  none, some, List, [], ◌∷◌, ◌++◌, map, arith, text_eq, is_prefix,
}
use mr_hide.Prelude.Dict.{Dict, get, keys, get-put_all, keys-put_all, Has-keys}
use mr_hide.Prelude.Sorting.{All-imp, Ordered-map, Ordered-imp, All-sorted, Has-sorted}
use mr_hide.Privacy.Mapping.Restore.{reverse_mapping, alternatives, match_any}
use mr_hide.Privacy.Mapping.{MappingRecord, nests}
use mr_hide.Privacy.Mapping.Valid.{IsSeparate, IsConsistent}

abbrev pub substitutes_of : List MappingRecord → List Text
substitutes_of records = map (λ r. r.substitute) records

match_any-only :
    (k s : Text) (xs : List Text)
    → All (λ x. (x ≡ k) ⊎ (is_prefix x s ≡ false)) xs
    → Has k xs
    → is_prefix k s ≡ true
    → match_any xs s ≡ some k
unfolding match_any
match_any-only k s [] h m p = absurd m
match_any-only k s (x ∷ xs) (inl e, h) m p = rw (e, p)
match_any-only k s (x ∷ xs) (inr f, h) (inl e) p = absurd (ground arith)
match_any-only k s (x ∷ xs) (inr f, h) (inr m) p = rw f (match_any-only k s xs h m p)

pub match_any-none :
    (s : Text) (xs : List Text) → All (λ x. is_prefix x s ≡ false) xs → match_any xs s ≡ none
unfolding match_any
match_any-none s [] h = refl
match_any-none s (x ∷ xs) h = rw h.0 (match_any-none s xs h.1)

module _ (records : List MappingRecord) where
  abbrev pub reverse : Dict Text
  reverse = reverse_mapping records

  abbrev pub patterns : List Text
  patterns = alternatives reverse

  pairs_of : List (Text × Text)
  pairs_of = map (λ r. (r.substitute, r.original)) records

  -- Every alternative is a substitute of the table.
  pub patterns-Has : All (λ k. Has k (substitutes_of records)) patterns
  unfolding reverse_mapping alternatives
  patterns-Has =
      All-sorted (λ a b. leb (length b) (length a)) P (keys reverse)
        (keys-put_all P [] (map (λ r. (r.substitute, r.original)) records) tt (
          All-map (λ e. e.0) P (map (λ r. (r.substitute, r.original)) records)
            (All-map (λ r. (r.substitute, r.original)) (λ e. P e.0) records
              (All-of_Has (λ r. P r.substitute) records
                (λ r m. Has-map (λ x. x.substitute) r records m)))))
    where
      P : Text → Type 0
      P k = Has k (substitutes_of records)

  module _ (c : IsConsistent records) (r : MappingRecord) (m : Has r records) where
    -- The dictionary gives each record's original.
    pub reverse-get : get r.substitute reverse ≡ some r.original
    unfolding reverse_mapping
    reverse-get =
        get-put_all (r.substitute, r.original) [] (map (λ x. (x.substitute, x.original)) records)
          (Ordered-map (λ x. (x.substitute, x.original)) (λ a b. text_eq b.0 a.0 ≡ false) records
            (Ordered-imp (λ a b. text_eq a.substitute b.substitute ≡ false)
              (λ a b. text_eq b.substitute a.substitute ≡ false) records
              (λ a b h. text_eq_comm b.substitute a.substitute ∙ h) c.distinct))
          (Has-map (λ x. (x.substitute, x.original)) r records m)

    pub Has-keys-reverse : Has r.substitute (keys reverse)
    Has-keys-reverse = Has-keys r.substitute reverse reverse-get

    Has-patterns : Has r.substitute patterns
    unfolding alternatives
    Has-patterns =
        Has-sorted (λ a b. leb (length b) (length a)) r.substitute (keys reverse) Has-keys-reverse

    -- No other alternative matches where the substitute stands.
    only_itself :
        (after k : Text)
        → (k ≡ r.substitute) ⊎ (nests r k ≡ false)
        → (k ≡ r.substitute) ⊎ (is_prefix k (r.substitute ++ after) ≡ false)
    unfolding nests
    only_itself after k (inl e) = inl e
    only_itself after k (inr n) = elim (Bool-cases (is_prefix k (r.substitute ++ after))) [
      | inl p ↦ elim (is_prefix-total k r.substitute after p) [
        | inl q ↦ absurd (ground (arith, is_prefix-contains k r.substitute q))
        | inr q ↦ absurd (ground (arith, is_prefix-contains r.substitute k q))
      ]
      | inr p ↦ inr p
    ]

    -- Where a substitute stands, it is what the pattern matches.
    pub match_any-substitute :
        (after : Text) → match_any patterns (r.substitute ++ after) ≡ some r.substitute
    match_any-substitute after =
        match_any-only r.substitute (r.substitute ++ after) patterns
          (All-imp (λ k. Has k (substitutes_of records))
            (λ k. (k ≡ r.substitute) ⊎ (is_prefix k (r.substitute ++ after) ≡ false)) patterns
            (λ k h. only_itself after k (
              All-Has (λ s. (s ≡ r.substitute) ⊎ (nests r s ≡ false)) (substitutes_of records)
                separate h))
            patterns-Has)
          Has-patterns (is_prefix-append r.substitute after)
      where
        separate : All (λ s. (s ≡ r.substitute) ⊎ (nests r s ≡ false)) (substitutes_of records)
        separate = (All-Has (IsSeparate (substitutes_of records)) records c.separate m).1
