-- ===== src/Privacy/Overlap/Apart.antt =====
-- Which spans `resolve_overlaps` of src/mr_hide/privacy/overlap.py accepts: spans that lie apart.
use mr_hide.Prelude.{
  Bool-cases, any, All, All-concat, All-of_Has, ℕ, ◌≤◌, ◌<◌, ◌≡◌, ◌⊎◌, inl, inr, true, false, List,
  [], ◌∷◌, ◌++◌, arith,
}
use mr_hide.Prelude.Sorting.{Ordered, sorted, All-sorted, Ordered-sorted_symm, Ordered-sorted}
use mr_hide.Privacy.Models.{DetectedSpan}
use mr_hide.Privacy.Overlap.{overlaps, accept, starts_before}

abbrev pub Apart : DetectedSpan → DetectedSpan → Type 0
Apart a b = (a.end ≤ b.start) ⊎ (b.end ≤ a.start)

pub Apart-symm : (a b : DetectedSpan) → Apart a b → Apart b a
Apart-symm a b (inl h) = inr h
Apart-symm a b (inr h) = inl h

-- not empty
abbrev pub IsSpan : DetectedSpan → Type 0
IsSpan s = s.start < s.end

-- Spans from left to right, each inside the text and behind the one before it.
abbrev pub Chain : ℕ → ℕ → List DetectedSpan → Type 0
Chain pos size [] = pos ≤ size
Chain pos size (s ∷ r) = (pos ≤ s.start) × (s.start < s.end) × Chain s.end size r

pub Apart-of_overlaps : (c x : DetectedSpan) → overlaps c x ≡ false → Apart x c
unfolding overlaps
Apart-of_overlaps c x h = ground arith

All-Apart :
    (c : DetectedSpan) (xs : List DetectedSpan)
    → any (overlaps c) xs ≡ false
    → All (λ x. Apart x c) xs
All-Apart c [] h = tt
All-Apart c (x ∷ xs) h = (Apart-of_overlaps c x (ground arith), All-Apart c xs (ground arith))

Ordered-concat :
    (xs : List DetectedSpan) (c : DetectedSpan)
    → Ordered Apart xs
    → All (λ x. Apart x c) xs
    → Ordered Apart (xs ++ c ∷ [])
Ordered-concat [] c o h = (tt, tt)
Ordered-concat (x ∷ xs) c o h = (All-concat (Apart x) xs o.0 h.0, Ordered-concat xs c o.1 h.1)

pub accept-Ordered :
    (accepted ranked : List DetectedSpan)
    → Ordered Apart accepted
    → Ordered Apart (accept accepted ranked)
unfolding accept
accept-Ordered accepted [] o = o
accept-Ordered accepted (c ∷ ranked) o = elim (Bool-cases (any (overlaps c) accepted)) [
  | inl e ↦ rw e (accept-Ordered accepted ranked o)
  | inr e ↦ rw e (
      accept-Ordered (accepted ++ c ∷ []) ranked
        (Ordered-concat accepted c o (All-Apart c accepted e)))
]

-- What holds of all the candidates holds of those accepted.
pub All-accept :
    (P : DetectedSpan → Type 0) (accepted ranked : List DetectedSpan)
    → All P accepted
    → All P ranked
    → All P (accept accepted ranked)
unfolding accept
All-accept P accepted [] h k = h
All-accept P accepted (c ∷ ranked) h k = elim (Bool-cases (any (overlaps c) accepted)) [
  | inl e ↦ rw e (All-accept P accepted ranked h k.1)
  | inr e ↦ rw e (All-accept P (accepted ++ c ∷ []) ranked (All-concat P accepted h k.0) k.1)
]

-- Spans that are apart and sorted by their starts form a chain.
abbrev StartsBefore : DetectedSpan → DetectedSpan → Type 0
StartsBefore a b = (a.start < b.start) ⊎ ((a.start ≡ b.start) × (a.end ≤ b.end))

StartsBefore-trans : (a b c : DetectedSpan) → StartsBefore a b → StartsBefore b c → StartsBefore a c
StartsBefore-trans a b c h k = grind arith

starts_before-true : (a b : DetectedSpan) → starts_before a b ≡ true → StartsBefore a b
unfolding starts_before
starts_before-true a b h = ground arith

starts_before-false : (a b : DetectedSpan) → starts_before a b ≡ false → StartsBefore b a
unfolding starts_before
starts_before-false a b h = ground arith

pub Ordered-by_start : (xs : List DetectedSpan) → Ordered StartsBefore (sorted starts_before xs)
Ordered-by_start =
    Ordered-sorted starts_before StartsBefore StartsBefore-trans starts_before-true
      starts_before-false

Chain-of_Ordered :
    (pos size : ℕ) (xs : List DetectedSpan)
    → All IsSpan xs
    → All (λ x. x.end ≤ size) xs
    → All (λ x. pos ≤ x.start) xs
    → pos ≤ size
    → Ordered StartsBefore xs
    → Ordered Apart xs
    → Chain pos size xs
Chain-of_Ordered pos size [] v w b p o a = p
Chain-of_Ordered pos size (x ∷ xs) v w b p o a =
    (b.0, v.0, Chain-of_Ordered x.end size xs v.1 w.1 (behind xs v.1 o.0 a.0) w.0 o.1 a.1)
  where
    behind :
        (ys : List DetectedSpan)
        → All IsSpan ys
        → All (StartsBefore x) ys
        → All (Apart x) ys
        → All (λ y. x.end ≤ y.start) ys
    behind [] _ _ _ = tt
    behind (y ∷ ys) l s t = (grind arith, behind ys l.1 s.1 t.1)

pub Chain-sorted :
    (size : ℕ) (xs : List DetectedSpan)
    → All IsSpan xs
    → All (λ x. x.end ≤ size) xs
    → Ordered Apart xs
    → Chain 0 size (sorted starts_before xs)
Chain-sorted size xs v w a =
    Chain-of_Ordered 0 size (sorted starts_before xs) (All-sorted starts_before IsSpan xs v)
      (All-sorted starts_before (λ x. x.end ≤ size) xs w)
      (All-of_Has (λ x. 0 ≤ x.start) (sorted starts_before xs) (λ x m. omega arith)) (omega arith)
      (Ordered-by_start xs) (Ordered-sorted_symm starts_before Apart Apart-symm xs a)
