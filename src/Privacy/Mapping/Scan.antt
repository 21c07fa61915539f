-- ===== src/Privacy/Mapping/Scan.antt =====
-- How the scanners of `restore_text` of src/mr_hide/privacy/mapping.py pass over text in which nothing
-- matches, and over a substitute. The shape of an alias is in `Shape`.
pub mod Shape
pub mod Known
pub mod Pieces
use mr_hide.Prelude.{
  Option-cases, length, take-append_length, Text, ℕ, suc, ◌-◌, ◌≡◌, refl, ap, ap₂, inl, inr, none,
  some, List, [], ◌∷◌, ◌++◌, append-nil, arith,
}
use mr_hide.Prelude.Dict.{Dict}
use mr_hide.Privacy.Mapping.Restore.{
  match_alias, find_aliases, match_any, replacement, substitute_all,
}

-- No alternative matches at a position of the text, whatever the text goes on with.
abbrev pub Quiet : List Text → Text → Text → Type 0
Quiet patterns [] after = Unit
Quiet patterns (c ∷ s) after =
    (match_any patterns (c ∷ (s ++ after)) ≡ none) × Quiet patterns s after

-- No reserved alias begins at a position of the text.
abbrev pub Plain : Text → Text → Type 0
Plain [] after = Unit
Plain (c ∷ s) after = (match_alias (c ∷ (s ++ after)) ≡ none) × Plain s after

module _ (patterns : List Text) (reverse : Dict Text) where
  pub substitute_all-Quiet :
      (s after : Text)
      → Quiet patterns s after
      → substitute_all patterns reverse 0 (s ++ after)
        ≡ s ++ substitute_all patterns reverse 0 after
  unfolding substitute_all
  substitute_all-Quiet [] after q = refl
  substitute_all-Quiet (c ∷ s) after q =
      rw (q.0, substitute_all) (ap (◌∷◌ c) (substitute_all-Quiet s after q.1))

  substitute_all-skip :
      (s after : Text)
      → substitute_all patterns reverse (length s) (s ++ after)
        ≡ substitute_all patterns reverse 0 after
  unfolding substitute_all
  substitute_all-skip [] after = refl
  substitute_all-skip (c ∷ s) after = substitute_all-skip s after

  pub substitute_all-match :
      (c : ℕ) (k after : Text)
      → match_any patterns (c ∷ (k ++ after)) ≡ some (c ∷ k)
      → substitute_all patterns reverse 0 (c ∷ (k ++ after))
        ≡ replacement reverse (c ∷ k) ++ substitute_all patterns reverse 0 after
  unfolding substitute_all
  substitute_all-match c k after h =
      let same : suc (length k) - 1 ≡ length k = omega arith in
      rw (h, same, substitute_all)
        (ap (λ s. replacement reverse (c ∷ k) ++ s) (substitute_all-skip k after))

pub find_aliases-Plain :
    (s after : Text) → Plain s after → find_aliases 0 (s ++ after) ≡ find_aliases 0 after
unfolding find_aliases
find_aliases-Plain [] after q = refl
find_aliases-Plain (c ∷ s) after q = rw (q.0, find_aliases) (find_aliases-Plain s after q.1)

find_aliases-skip : (s after : Text) → find_aliases (length s) (s ++ after) ≡ find_aliases 0 after
unfolding find_aliases
find_aliases-skip [] after = refl
find_aliases-skip (c ∷ s) after = find_aliases-skip s after

pub find_aliases-match :
    (c : ℕ) (k after : Text)
    → match_alias (c ∷ (k ++ after)) ≡ some (suc (length k))
    → find_aliases 0 (c ∷ (k ++ after)) ≡ (c ∷ k) ∷ find_aliases 0 after
unfolding find_aliases
find_aliases-match c k after h =
    let same : suc (length k) - 1 ≡ length k = omega arith in
    rw (h, same, find_aliases)
      (ap₂ (λ x y. (c ∷ x) ∷ y) (take-append_length k after) (find_aliases-skip k after))

-- Where the search finds nothing, there is no alias at any position.
pub Plain-of_none : (s : Text) → find_aliases 0 s ≡ [] → Plain s []
unfolding find_aliases
Plain-of_none [] h = tt
Plain-of_none (c ∷ s) h = elim (Option-cases (match_alias (c ∷ s))) [
  | inl e ↦ (rw (append-nil s) e, Plain-of_none s (ground arith))
  | inr (n, e) ↦ absurd (ground arith)
]
