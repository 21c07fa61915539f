-- ===== src/Privacy/Overlap/Laws.antt =====
-- What `resolve_overlaps` of src/mr_hide/privacy/overlap.py promises.
use mr_hide.Prelude.{
  ltb, length, any, All, Has, All-Has, Text, ℕ, ◌≤◌, ◌≡◌, subst, inl, inr, false, List, [], ◌∷◌,
  arith,
}
use mr_hide.Prelude.Sorting.{sorted, All-sorted, Has-sorted}
use mr_hide.Errors.{ok}
use mr_hide.Privacy.Models.{DetectedSpan}
use mr_hide.Privacy.Overlap.{ranks_before, accept, starts_before, resolve_overlaps}
use mr_hide.Privacy.Overlap.Apart.{IsSpan, Chain, accept-Ordered, All-accept, Chain-sorted}
use mr_hide.Privacy.Overlap.Order.{Ordered-ranked, Settled, accept_ranked-Settled}

module _ (priority : Text → ℕ) (t : Text) (spans : List DetectedSpan) where
  inside : any (λ s. ltb (length t) s.end) spans ≡ false → All (λ s. s.end ≤ length t) spans
  inside = go spans
    where
      go :
          (xs : List DetectedSpan)
          → any (λ s. ltb (length t) s.end) xs ≡ false
          → All (λ s. s.end ≤ length t) xs
      go [] h = tt
      go (x ∷ xs) h = (ground arith, go xs (ground arith))

  -- The resolved spans, if every candidate lies inside the text, for each reading of the error.
  module _ {result : List DetectedSpan}
      (resolved : resolve_overlaps priority t spans ≡ ok result) where
    no_outside : any (λ s. ltb (length t) s.end) spans ≡ false
    unfolding resolve_overlaps
    no_outside = ground arith

    result-eq : sorted starts_before (accept [] (sorted (ranks_before priority) spans)) ≡ result
    unfolding resolve_overlaps
    result-eq = ground arith

    -- The spans of a successful resolution stand from left to right, inside the text, and none
    -- begins before the one before it ends.
    pub resolve_overlaps-Chain : All IsSpan spans → Chain 0 (length t) result
    resolve_overlaps-Chain v = subst (Chain 0 (length t)) result-eq (
        Chain-sorted (length t) chosen (kept IsSpan v)
          (kept (λ s. s.end ≤ length t) (inside no_outside)) (accept-Ordered [] ranked tt))
      where
        ranked : List DetectedSpan
        ranked = sorted (ranks_before priority) spans

        chosen : List DetectedSpan
        chosen = accept [] ranked

        kept : (P : DetectedSpan → Type 0) → All P spans → All P (accept [] ranked)
        kept P h = All-accept P [] ranked tt (All-sorted (ranks_before priority) P spans h)

    -- Every candidate of a successful resolution is among the resolved spans, or there is a
    -- resolved span of a higher score, or of the same score and at least its length, such that
    -- each of the two begins before the other ends.
    pub resolve_overlaps-Settled : (s : DetectedSpan) → Has s spans → Settled result s
    resolve_overlaps-Settled s m =
        subst (λ r. Settled r s) result-eq
          (after_sort (
            All-Has (Settled (accept [] ranked)) ranked
              (accept_ranked-Settled ranked (Ordered-ranked priority spans))
              (Has-sorted (ranks_before priority) s spans m)))
      where
        ranked : List DetectedSpan
        ranked = sorted (ranks_before priority) spans

        after_sort :
            Settled (accept [] ranked) s → Settled (sorted starts_before (accept [] ranked)) s
        after_sort (inl k) = inl (Has-sorted starts_before s (accept [] ranked) k)
        after_sort (inr (c, k, o, r)) =
            inr (c, Has-sorted starts_before c (accept [] ranked) k, o, r)
