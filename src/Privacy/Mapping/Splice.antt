-- ===== src/Privacy/Mapping/Splice.antt =====
-- The loop of `transform_text` of src/mr_hide/privacy/mapping.py over the reversed replacements, as one
-- pass from left to right over the pieces of the text.
use mr_hide.Prelude.{
  length, take, drop, slice, take-append-drop, take-take-append, drop-take-append,
  take-append-slice, drop-slice, Text, ℕ, ◌≤◌, ◌≡◌, refl, sym, ap, ap₂, ◌∙◌, List, [], ◌∷◌, ◌++◌,
  map, append_assoc, arith,
}
use mr_hide.Privacy.Models.{DetectedSpan}
use mr_hide.Privacy.Overlap.Apart.{Chain}
use mr_hide.Privacy.Mapping.{MappingRecord}
use mr_hide.Privacy.Mapping.Transform.{Replacement, span_text, splice, splice_all}

-- A stretch of text that stays, the detected text behind it, and the record that replaces that.
pub record Piece : Type 0 where
  pub gap : Text
  pub found : Text
  pub item : MappingRecord

-- the text itself, the text with substitutes, and the text with the originals of the records
abbrev pub source : List Piece → Text → Text
source [] rest = rest
source (p ∷ ps) rest = p.gap ++ (p.found ++ source ps rest)

abbrev pub protected : List Piece → Text → Text
protected [] rest = rest
protected (p ∷ ps) rest = p.gap ++ (p.item.substitute ++ protected ps rest)

abbrev pub restored : List Piece → Text → Text
restored [] rest = rest
restored (p ∷ ps) rest = p.gap ++ (p.item.original ++ restored ps rest)

abbrev pub pieces : ℕ → Text → List Replacement → List Piece
pieces pos t [] = []
pieces pos t ((s, r) ∷ l) =
    record { gap = slice pos s.start t; found = span_text t s; item = r } ∷ pieces s.end t l

-- what stands behind the last replacement
abbrev pub behind : ℕ → Text → List Replacement → Text
behind pos t [] = drop pos t
behind pos t ((s, r) ∷ l) = behind s.end t l

abbrev pub spans_of : List Replacement → List DetectedSpan
spans_of l = map (λ r. r.0) l

Chain-end-le : (pos size : ℕ) (xs : List DetectedSpan) → Chain pos size xs → pos ≤ size
Chain-end-le pos size [] c = c
Chain-end-le pos size (s ∷ r) c = omega (arith, Chain-end-le s.end size r c.2)

pub source-pieces :
    (pos : ℕ) (t : Text) (l : List Replacement)
    → Chain pos (length t) (spans_of l)
    → source (pieces pos t l) (behind pos t l) ≡ drop pos t
source-pieces pos t [] c = refl
source-pieces pos t ((s, r) ∷ l) c =
    ap (λ x. slice pos s.start t ++ (span_text t s ++ x)) (source-pieces s.end t l c.2)
    ∙ ap (λ x. slice pos s.start t ++ x) (sym (drop-slice s.start s.end t (omega arith)))
    ∙ sym (drop-slice pos s.start t c.0)

-- Making the last replacement first gives what one pass from left to right gives.
pub splice_all-protected :
    (pos : ℕ) (t : Text) (l : List Replacement)
    → Chain pos (length t) (spans_of l)
    → splice_all l t ≡ take pos t ++ protected (pieces pos t l) (behind pos t l)
unfolding splice_all
splice_all-protected pos t [] c = sym (take-append-drop pos t)
splice_all-protected pos t ((s, r) ∷ l) c =
    ap (splice (s, r)) (splice_all-protected s.end t l c.2)
    ∙ ap₂ (λ x y. x ++ (r.substitute ++ y))
        (take-take-append s.start s.end t later (omega arith) fits)
        (drop-take-append s.end t later fits)
    ∙ ap (λ x. x ++ (r.substitute ++ later)) (take-append-slice pos s.start t c.0)
    ∙ append_assoc (take pos t) (slice pos s.start t) (r.substitute ++ later)
  where
    later : Text
    later = protected (pieces s.end t l) (behind s.end t l)

    fits : s.end ≤ length t
    fits = Chain-end-le s.end (length t) (spans_of l) c.2
