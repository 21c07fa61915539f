-- ===== src/Prelude/Parts.antt =====
-- Parts of a text, as equations on texts.
use mathlib.Core.Path.{◌≡◌, refl, sym, ap, ◌∙◌}
use mathlib.Core.Logic.{◌↔◌}
use mathlib.Core.Bool.{true, false, ◌||◌}
use mathlib.Core.List.{[], ◌∷◌, ◌++◌}
use native.Mathlib.Omega.{arith}
use mr_hide.Prelude.Texts.{Text, is_prefix, contains, is_prefix-append, is_prefix-contains}

-- The one text stands somewhere in the other.
abbrev pub IsPart : Text → Text → Type 0
IsPart s t = (before : Text) × (behind : Text) × (t ≡ before ++ (s ++ behind))

is_prefix-rest : (s t : Text) → is_prefix s t ≡ true → (rest : Text) × (t ≡ s ++ rest)
unfolding is_prefix
is_prefix-rest [] t h = (t, refl)
is_prefix-rest (a ∷ s) [] h = cc
is_prefix-rest (a ∷ s) (b ∷ t) h =
    let (rest, e) = is_prefix-rest s t (ground arith) in
    let same : a ≡ b = ground arith in (rest, ap (◌∷◌ b) e ∙ ap (λ c. c ∷ (s ++ rest)) (sym same))

pub is_prefix_iff : (s t : Text) → (is_prefix s t ≡ true) ↔ ((rest : Text) × (t ≡ s ++ rest))
is_prefix_iff s t = (is_prefix-rest s t, λ (rest, e). rw e (is_prefix-append s rest))

contains-append : (before s behind : Text) → contains s (before ++ (s ++ behind)) ≡ true
unfolding contains
contains-append [] s behind = is_prefix-contains s (s ++ behind) (is_prefix-append s behind)
contains-append (a ∷ before) s behind = ground (arith, contains-append before s behind)

contains-IsPart : (s t : Text) → contains s t ≡ true → IsPart s t
unfolding contains
contains-IsPart s [] h = let (rest, e) = (is_prefix_iff s []).0 h in ([], rest, e)
contains-IsPart s (b ∷ t) h =
    elim (is_prefix s (b ∷ t))
        as (λ q. is_prefix s (b ∷ t) ≡ q → (q || contains s t) ≡ true → IsPart s (b ∷ t)) [
          | true ↦ λ e k. let (rest, same) = (is_prefix_iff s (b ∷ t)).0 e in ([], rest, same)
          | false ↦ λ e k.
              let (before, behind, same) = contains-IsPart s t k in
              (b ∷ before, behind, ap (◌∷◌ b) same)
        ]
      refl h

pub contains_iff : (s t : Text) → (contains s t ≡ true) ↔ IsPart s t
contains_iff s t =
    (contains-IsPart s t, λ (before, behind, e). rw e (contains-append before s behind))

pub not-IsPart : (s t : Text) → contains s t ≡ false → ¬ IsPart s t
not-IsPart s t h p = absurd (true≢false (sym ((contains_iff s t).1 p) ∙ h))
  where
    true≢false : true ≡ false → ⊥
    true≢false e = cc
