-- ===== src/Privacy/Overlap/Order.antt =====
-- The order in which `resolve_overlaps` of src/mr_hide/privacy/overlap.py ranks candidates, and
-- what becomes of a candidate that it does not accept.
use mr_hide.Prelude.{
  Bool-cases, any, All, All-concat, Has, All-Has, Has-append_left, Has-append_right, Text, ℕ, ◌≤◌,
  ◌<◌, ◌≡◌, refl, sym, subst, ◌⊎◌, inl, inr, Bool, true, false, List, [], ◌∷◌, ◌++◌, arith,
}
use mr_hide.Prelude.Sorting.{Ordered, All-imp, sorted, Ordered-sorted}
use mr_hide.Privacy.Models.{DetectedSpan, span_length}
use mr_hide.Privacy.Overlap.{ranks_before, overlaps, accept}

-- A higher score, or the same score and at least the length.
abbrev pub Outranks : DetectedSpan → DetectedSpan → Type 0
Outranks a b = (b.score < a.score) ⊎ ((a.score ≡ b.score) × (span_length b ≤ span_length a))

Outranks-trans : (a b c : DetectedSpan) → Outranks a b → Outranks b c → Outranks a c
Outranks-trans a b c h k = grind arith

module _ (priority : Text → ℕ) where
  ranks_before-true : (a b : DetectedSpan) → ranks_before priority a b ≡ true → Outranks a b
  unfolding ranks_before
  ranks_before-true a b h = ground arith

  ranks_before-false : (a b : DetectedSpan) → ranks_before priority a b ≡ false → Outranks b a
  unfolding ranks_before
  ranks_before-false a b h = ground arith

  pub Ordered-ranked :
      (xs : List DetectedSpan) → Ordered Outranks (sorted (ranks_before priority) xs)
  Ordered-ranked =
      Ordered-sorted (ranks_before priority) Outranks Outranks-trans ranks_before-true
        ranks_before-false

-- Each begins before the other ends.
abbrev pub Meet : DetectedSpan → DetectedSpan → Type 0
Meet a b = (a.start < b.end) × (b.start < a.end)

overlaps-Meet : (a b : DetectedSpan) → overlaps a b ≡ true → Meet a b
unfolding overlaps
overlaps-Meet a b h = (ground arith, ground arith)

-- A span is among the accepted ones, or overlaps one of them that outranks it.
abbrev pub Settled : List DetectedSpan → DetectedSpan → Type 0
Settled result s = Has s result ⊎ ((c : DetectedSpan) × Has c result × Meet s c × Outranks c s)

pub any-witness :
    (p : DetectedSpan → Bool) (xs : List DetectedSpan)
    → any p xs ≡ true
    → (x : DetectedSpan) × Has x xs × (p x ≡ true)
any-witness p [] h = cc
any-witness p (x ∷ xs) h = elim (Bool-cases (p x)) [
  | inl e ↦ (x, inl refl, e)
  | inr e ↦ let (y, m, k) = any-witness p xs (ground arith) in (y, inr m, k)
]

Has-accept :
    (a : DetectedSpan) (accepted ranked : List DetectedSpan)
    → Has a accepted
    → Has a (accept accepted ranked)
unfolding accept
Has-accept a accepted [] m = m
Has-accept a accepted (c ∷ ranked) m = elim (Bool-cases (any (overlaps c) accepted)) [
  | inl e ↦ rw e (Has-accept a accepted ranked m)
  | inr e ↦ rw e (Has-accept a (accepted ++ c ∷ []) ranked (Has-append_left a accepted (c ∷ []) m))
]

module _ (c : DetectedSpan) (accepted ranked : List DetectedSpan) where
  accept_overlapping :
      any (overlaps c) accepted ≡ true → accept accepted (c ∷ ranked) ≡ accept accepted ranked
  unfolding accept
  accept_overlapping e = rw e

  accept_apart :
      any (overlaps c) accepted ≡ false
      → accept accepted (c ∷ ranked) ≡ accept (accepted ++ c ∷ []) ranked
  unfolding accept
  accept_apart e = rw e

  outrank_rest :
      All (λ a. All (Outranks a) (c ∷ ranked)) accepted
      → All (λ a. All (Outranks a) ranked) accepted
  outrank_rest =
      All-imp (λ a. All (Outranks a) (c ∷ ranked)) (λ a. All (Outranks a) ranked) accepted
        (λ a t. t.1)

accept-Settled :
    (accepted ranked : List DetectedSpan)
    → All (λ a. All (Outranks a) ranked) accepted
    → Ordered Outranks ranked
    → All (Settled (accept accepted ranked)) ranked
accept-Settled accepted [] h o = tt
accept-Settled accepted (c ∷ ranked) h o = elim (Bool-cases (any (overlaps c) accepted)) [
  | inl e ↦
      let (x, m, k) = any-witness (overlaps c) accepted e in
      subst (λ r. All (Settled r) (c ∷ ranked)) (sym (accept_overlapping c accepted ranked e))
        (
          inr (
            x,
            Has-accept x accepted ranked m,
            overlaps-Meet c x k,
            (All-Has (λ a. All (Outranks a) (c ∷ ranked)) accepted h m).0,
          ),
          accept-Settled accepted ranked (outrank_rest c accepted ranked h) o.1,
        )
  | inr e ↦
      subst (λ r. All (Settled r) (c ∷ ranked)) (sym (accept_apart c accepted ranked e))
        (
          inl (
              Has-accept c (accepted ++ c ∷ []) ranked
                (Has-append_right c accepted (c ∷ []) (inl refl))),
          accept-Settled (accepted ++ c ∷ []) ranked
              (All-concat (λ a. All (Outranks a) ranked) accepted (outrank_rest c accepted ranked h)
                o.0)
              o.1,
        )
]

pub accept_ranked-Settled :
    (ranked : List DetectedSpan) → Ordered Outranks ranked → All (Settled (accept [] ranked)) ranked
accept_ranked-Settled ranked o = accept-Settled [] ranked tt o
