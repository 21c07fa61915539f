-- ===== src/Privacy/Mapping/Parts.antt =====
-- The checks of src/mr_hide/privacy/mapping.py as statements about the parts of texts.
use mr_hide.Prelude.Parts.{IsPart, not-IsPart}
use mr_hide.Privacy.Mapping.Valid.{IsValid, IsSeparate, IsConsistent, IsValid-IsConsistent}
use mr_hide.Privacy.Mapping.Fresh.{next_substitute_lem}
use mr_hide.Prelude.Sorting.{Ordered, All-imp, Ordered-imp}
use mr_hide.Prelude.{
  All, Has, All-Has, Has-map, Text, text_eq_iff, ℕ, ◌≡◌, refl, sym, ap, ◌∙◌, ◌≢◌, ◌⊎◌, inl, inr,
  true, false, List, [], ◌∷◌, map, arith, text_eq,
}
use mr_hide.Privacy.Mapping.{MappingRecord, MappingTable, nests}
use mr_hide.Privacy.Mapping.Substitutes.{collides, next_substitute}
use mr_hide.Privacy.Unicode.{Unicode}
use mr_hide.Policy.{SubstitutionMode}
use mr_hide.Errors.{ok}
use mr_hide.Privacy.Scoring.{TokenScorer}
use mr_hide.Privacy.Models.{is_empty}

-- No part of a text of the list, and without one as a part, unless that is empty.
abbrev pub IsFree : List Text → Text → Type 0
IsFree forbidden s =
    All (λ taken. (taken ≡ []) ⊎ ((¬ IsPart s taken) × (¬ IsPart taken s))) forbidden

collides-IsFree :
    (s : Text) (forbidden : List Text) → collides s forbidden ≡ false → IsFree forbidden s
unfolding collides
collides-IsFree s [] h = tt
collides-IsFree s ([] ∷ forbidden) h = (inl refl, collides-IsFree s forbidden (ground arith))
collides-IsFree s ((c ∷ taken) ∷ forbidden) h = (
  inr (not-IsPart s (c ∷ taken) (ground arith), not-IsPart (c ∷ taken) s (ground arith)),
  collides-IsFree s forbidden (ground arith),
)

-- A substitute that is allocated, in either mode, is no part of a forbidden text, and no forbidden
-- text is a part of it, unless the forbidden text is empty.
pub next_substitute-IsFree :
    (ipv6 : ℕ → Text) (table : MappingTable) (entity_type : Text) (mode : SubstitutionMode)
    (forbidden : List Text) (scorer : TokenScorer) {s : Text}
    → next_substitute ipv6 table entity_type mode forbidden scorer ≡ ok s
    → IsFree forbidden s
next_substitute-IsFree ipv6 table entity_type mode forbidden scorer {s} h =
    collides-IsFree s forbidden
      (next_substitute_lem ipv6 table entity_type mode forbidden scorer h).0

-- The substitute of the one record is not in the way of the other's: it is the same, or none of the
-- two is a part of the other, nor the second one of the first one's original.
abbrev pub IsUnnested : MappingRecord → MappingRecord → Type 0
IsUnnested r q =
    (q.substitute ≡ r.substitute)
    ⊎ ((¬ IsPart q.substitute r.substitute)
        × (¬ IsPart q.substitute r.original)
        × (¬ IsPart r.substitute q.substitute))

unnested :
    (r q : MappingRecord)
    → (q.substitute ≡ r.substitute) ⊎ (nests r q.substitute ≡ false)
    → IsUnnested r q
unfolding nests
unnested r q (inl e) = inl e
unnested r q (inr e) = inr (
  not-IsPart q.substitute r.substitute (ground arith),
  not-IsPart q.substitute r.original (ground arith),
  not-IsPart r.substitute q.substitute (ground arith),
)

-- A table that the constructor accepts has no substitute twice and no empty one; of two different
-- substitutes none is a part of the other, and none is a part of the original of the other's
-- record.
pub IsValid-IsUnnested :
    (u : Unicode) (records : List MappingRecord)
    → IsValid u records
    → Ordered (λ a b. ¬ (a.substitute ≡ b.substitute)) records
      × All (λ r. r.substitute ≢ []) records
      × ((r q : MappingRecord) → Has r records → Has q records → IsUnnested r q)
IsValid-IsUnnested u records h = (
  Ordered-imp (λ a b. text_eq a.substitute b.substitute ≡ false)
      (λ a b. ¬ (a.substitute ≡ b.substitute)) records different consistent.distinct,
  All-imp (IsSeparate substitutes) (λ r. r.substitute ≢ []) records
      (λ r s. non_empty r.substitute s.0) consistent.separate,
  λ r q m k. unnested r q (
      All-Has (λ s. (s ≡ r.substitute) ⊎ (nests r s ≡ false)) substitutes
        (All-Has (IsSeparate substitutes) records consistent.separate m).1
        (Has-map (λ x. x.substitute) q records k)),
)
  where
    substitutes : List Text
    substitutes = map (λ r. r.substitute) records

    consistent : IsConsistent records
    consistent = IsValid-IsConsistent u records h

    true≢false : true ≢ false
    true≢false e = cc

    different :
        (a b : MappingRecord)
        → text_eq a.substitute b.substitute ≡ false
        → ¬ (a.substitute ≡ b.substitute)
    different a b e same =
        absurd (true≢false (sym ((text_eq_iff a.substitute b.substitute).1 same) ∙ e))

    non_empty : (s : Text) → is_empty s ≡ false → s ≢ []
    non_empty s e p = absurd (true≢false (ap is_empty (sym p) ∙ e))
