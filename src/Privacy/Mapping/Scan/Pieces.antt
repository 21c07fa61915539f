-- ===== src/Privacy/Mapping/Scan/Pieces.antt =====
-- `restore_text` of src/mr_hide/privacy/mapping.py over a text with aliases in place of what was
-- detected.
use mr_hide.Prelude.{
  Bool-cases, Option-cases, length, any, All, Has, All-Has, any-of_Has, All-map, Text, text_eq_refl,
  is_prefix-append_right, is_prefix-contains, contains-append_false, ℕ, suc, ◌≡◌, refl, sym, ap,
  subst, ◌∙◌, inl, inr, true, false, not, none, some, List, [], ◌∷◌, ◌++◌, map, append-nil, arith,
  text_eq, is_prefix, contains,
}
use mr_hide.Privacy.Mapping.Restore.{
  closer, match_alias, find_aliases, match_any, or_empty, replacement, substitute_all,
  restore_records,
}
use mr_hide.Privacy.Mapping.Scan.{
  Quiet, Plain, substitute_all-Quiet, substitute_all-match, find_aliases-Plain, find_aliases-match,
}
use mr_hide.Privacy.Mapping.Scan.Shape.{
  IsAlias, Closed, match_alias_stop, is_prefix_stop, match_alias-append, Opened, IsAlias-Opened,
}
use mr_hide.Privacy.Mapping.Scan.Known.{
  substitutes_of, match_any-none, reverse, patterns, patterns-Has, reverse-get, Has-keys-reverse,
  match_any-substitute,
}
use mr_hide.Prelude.Sorting.{All-imp}
use mr_hide.Prelude.Dict.{Dict, keys}
use mr_hide.Privacy.Mapping.{MappingRecord}
use mr_hide.Privacy.Mapping.Splice.{Piece, source, protected, restored}
use mr_hide.Privacy.Mapping.Valid.{IsConsistent}
use mr_hide.Errors.{ok}

-- no reserved alias in the text, and none of the texts of a list
abbrev pub Fresh : List Text → Text → Type 0
Fresh ks s = Plain s [] × All (λ k. contains k s ≡ false) ks

Plain-append_right : (s t : Text) → Plain (s ++ t) [] → Plain t []
Plain-append_right [] t h = h
Plain-append_right (c ∷ s) t h = Plain-append_right s t h.1

Fresh-append_right : (ks : List Text) (s t : Text) → Fresh ks (s ++ t) → Fresh ks t
Fresh-append_right ks s t (p, h) = (
  Plain-append_right s t p,
  All-imp (λ k. contains k (s ++ t) ≡ false) (λ k. contains k t ≡ false) ks
      (λ k e. contains-append_false k s t e) h,
)

none_of_append : (s t : Text) → match_alias (s ++ t) ≡ none → match_alias s ≡ none
none_of_append s t h = elim (Option-cases (match_alias s)) [
  | inl e ↦ e
  | inr (n, e) ↦ absurd (clash (match_alias-append s t n e))
]
  where
    clash : {n : ℕ} → match_alias (s ++ t) ≡ some n → ⊥
    clash e = ground arith

not_prefix_of_part : (k s t : Text) → contains k (s ++ t) ≡ false → is_prefix k s ≡ false
not_prefix_of_part k s t h = elim (Bool-cases (is_prefix k s)) [
  | inl e ↦ absurd (ground (arith, is_prefix-contains k (s ++ t) (is_prefix-append_right k s t e)))
  | inr e ↦ e
]

-- Before an opening bracket no alias of the list matches, if the text that stood there had none.
module _ (o : ℕ) {x : ℕ} (opens : closer o ≡ some x) where
  prefix_shrinks :
      (a c : ℕ) (k s after : Text)
      → Closed k
      → is_prefix (a ∷ k) (c ∷ (s ++ o ∷ after)) ≡ true
      → is_prefix (a ∷ k) (c ∷ s) ≡ true
  unfolding is_prefix
  prefix_shrinks a c k s after q h = ground (arith, is_prefix_stop o opens k s after q)

  not_prefix_before :
      (k : Text)
      → Opened k
      → (c : ℕ) (s t after : Text) → contains k (c ∷ (s ++ t)) ≡ false
      → is_prefix k (c ∷ (s ++ o ∷ after)) ≡ false
  not_prefix_before k v c s t after h = elim (Bool-cases (is_prefix k (c ∷ (s ++ o ∷ after)))) [
    | inl e ↦
        let shorter : is_prefix k (c ∷ s) ≡ true =
          rw v.parts (prefix_shrinks v.head c v.rest s after v.closed (rw v.parts at e)) in
        absurd (ground (arith, not_prefix_of_part k (c ∷ s) t h))
    | inr e ↦ e
  ]

  Quiet-before :
      (ks : List Text)
      → All Opened ks
      → (s t after : Text) → Fresh ks (s ++ t)
      → Quiet ks s (o ∷ after)
  Quiet-before ks v [] t after h = tt
  Quiet-before ks v (c ∷ s) t after h = (
    match_any-none (c ∷ (s ++ o ∷ after)) ks (none ks v h.1),
    Quiet-before ks v s t after (Fresh-append_right ks (c ∷ []) (s ++ t) h),
  )
    where
      none :
          (l : List Text)
          → All Opened l
          → All (λ k. contains k (c ∷ (s ++ t)) ≡ false) l
          → All (λ k. is_prefix k (c ∷ (s ++ o ∷ after)) ≡ false) l
      none [] w g = tt
      none (k ∷ l) w g = (not_prefix_before k w.0 c s t after g.0, none l w.1 g.1)

  Plain-before : (s t after : Text) → Plain (s ++ t) [] → Plain s (o ∷ after)
  Plain-before [] t after h = tt
  Plain-before (c ∷ s) t after h = (
    match_alias_stop o opens c s after ∙ none_of_append (c ∷ s) t (rw (append-nil (s ++ t)) at h.0),
    Plain-before s t after h.1,
  )

not_prefix : (k s : Text) → contains k s ≡ false → is_prefix k s ≡ false
not_prefix k s h = elim (Bool-cases (is_prefix k s)) [
  | inl e ↦ absurd (ground (arith, is_prefix-contains k s e))
  | inr e ↦ e
]

Quiet-alone : (ks : List Text) (s : Text) → All (λ k. contains k s ≡ false) ks → Quiet ks s []
Quiet-alone ks [] h = tt
Quiet-alone ks (c ∷ s) h = (
  rw (append-nil s) (
      match_any-none (c ∷ s) ks (
        All-imp (λ k. contains k (c ∷ s) ≡ false) (λ k. is_prefix k (c ∷ s) ≡ false) ks
          (λ k. not_prefix k (c ∷ s)) h)),
  Quiet-alone ks s (
      All-imp (λ k. contains k (c ∷ s) ≡ false) (λ k. contains k s ≡ false) ks
        (λ k e. contains-append_false k (c ∷ []) s e) h),
)

-- The end of the text, behind the last alias.
substitute_all-fresh :
    (ks : List Text) (values : Dict Text) (s : Text)
    → All (λ k. contains k s ≡ false) ks
    → substitute_all ks values 0 s ≡ s
substitute_all-fresh ks values s h =
    ap (substitute_all ks values 0) (sym (append-nil s))
    ∙ substitute_all-Quiet ks values s [] (Quiet-alone ks s h)
    ∙ unfold substitute_all in append-nil s

find_aliases-fresh : (s : Text) → Plain s [] → find_aliases 0 s ≡ []
find_aliases-fresh s h =
    ap (find_aliases 0) (sym (append-nil s))
    ∙ find_aliases-Plain s [] h
    ∙ unfold find_aliases in refl

-- Before an alias, as before its opening bracket.
module _ (a : Text) (v : Opened a) (ks : List Text) (s t after : Text) where
  Quiet-alias : All Opened ks → Fresh ks (s ++ t) → Quiet ks s (a ++ after)
  Quiet-alias w h =
      subst (λ x. Quiet ks s (x ++ after)) (sym v.parts)
        (Quiet-before v.head v.opens ks w s t (v.rest ++ after) h)

  Plain-alias : Plain (s ++ t) [] → Plain s (a ++ after)
  Plain-alias h =
      subst (λ x. Plain s (x ++ after)) (sym v.parts)
        (Plain-before v.head v.opens s t (v.rest ++ after) h)

substitute_all-alias :
    (ks : List Text) (values : Dict Text) (a after : Text)
    → Opened a
    → match_any ks (a ++ after) ≡ some a
    → substitute_all ks values 0 (a ++ after)
      ≡ replacement values a ++ substitute_all ks values 0 after
substitute_all-alias ks values [] after v h = absurd (never v.parts)
  where
    never : {c : ℕ} {s : Text} → [] ≡ c ∷ s → ⊥
    never e = cc
substitute_all-alias ks values (c ∷ k) after v h = substitute_all-match ks values c k after h

find_aliases-alias :
    (a after : Text) → IsAlias a → find_aliases 0 (a ++ after) ≡ a ∷ find_aliases 0 after
find_aliases-alias [] after h = unfold match_alias in absurd (ground arith)
find_aliases-alias (c ∷ k) after h =
    find_aliases-match c k after (match_alias-append (c ∷ k) after (suc (length k)) h)

module _ (records : List MappingRecord) (consistent : IsConsistent records)
    (aliased : All (λ r. IsAlias r.substitute) records) where
  abbrev pub Replaces : Piece → Type 0
  Replaces p = Has p.item records

  patterns-Opened : All Opened (patterns records)
  patterns-Opened =
      All-imp (λ k. Has k (substitutes_of records)) Opened (patterns records)
        (λ k. All-Has Opened (substitutes_of records) (
          All-map (λ r. r.substitute) Opened records
            (All-imp (λ r. IsAlias r.substitute) (λ r. Opened r.substitute) records
              (λ r. IsAlias-Opened r.substitute) aliased)))
        (patterns-Has records)

  module _ (r : MappingRecord) (m : Has r records) (after : Text) where
    alias : IsAlias r.substitute
    alias = All-Has (λ x. IsAlias x.substitute) records aliased m

    substitute_all-item :
        substitute_all (patterns records) (reverse records) 0 (r.substitute ++ after)
        ≡ r.original ++ substitute_all (patterns records) (reverse records) 0 after
    substitute_all-item =
        substitute_all-alias (patterns records) (reverse records) r.substitute after
          (IsAlias-Opened r.substitute alias) (match_any-substitute records consistent r m after)
        ∙ ap (λ o. or_empty o ++ substitute_all (patterns records) (reverse records) 0 after)
            (reverse-get records consistent r m)

  -- With every alias put back, the text is the one with the originals of the records.
  pub substitute_all-protected :
      (ps : List Piece) (rest : Text)
      → All Replaces ps
      → Fresh (patterns records) (source ps rest)
      → substitute_all (patterns records) (reverse records) 0 (protected ps rest) ≡ restored ps rest
  substitute_all-protected [] rest m h =
      substitute_all-fresh (patterns records) (reverse records) rest h.1
  substitute_all-protected (p ∷ ps) rest m h =
      substitute_all-Quiet (patterns records) (reverse records) p.gap
        (p.item.substitute ++ protected ps rest)
        (Quiet-alias p.item.substitute (IsAlias-Opened p.item.substitute (alias p.item m.0 []))
          (patterns records) p.gap (p.found ++ source ps rest) (protected ps rest) patterns-Opened
          h)
      ∙ ap (λ x. p.gap ++ x)
          (substitute_all-item p.item m.0 (protected ps rest)
            ∙ ap (λ x. p.item.original ++ x)
                (substitute_all-protected ps rest m.1 (
                  Fresh-append_right (patterns records) p.found (source ps rest)
                    (Fresh-append_right (patterns records) p.gap (p.found ++ source ps rest) h))))

  -- The aliases in the text are those that were put there.
  pub find_aliases-protected :
      (ps : List Piece) (rest : Text)
      → All Replaces ps
      → Plain (source ps rest) []
      → find_aliases 0 (protected ps rest) ≡ map (λ p. p.item.substitute) ps
  find_aliases-protected [] rest m h = find_aliases-fresh rest h
  find_aliases-protected (p ∷ ps) rest m h =
      find_aliases-Plain p.gap (p.item.substitute ++ protected ps rest) (
        Plain-alias p.item.substitute (IsAlias-Opened p.item.substitute (alias p.item m.0 []))
          (patterns records) p.gap (p.found ++ source ps rest) (protected ps rest) h)
      ∙ find_aliases-alias p.item.substitute (protected ps rest) (alias p.item m.0 [])
      ∙ ap (λ x. p.item.substitute ∷ x)
          (find_aliases-protected ps rest m.1 (
            Plain-append_right p.found (source ps rest)
              (Plain-append_right p.gap (p.found ++ source ps rest) h)))

  All-known :
      (ps : List Piece)
      → All Replaces ps
      → any (λ a. not (any (text_eq a) (keys (reverse records)))) (map (λ p. p.item.substitute) ps)
        ≡ false
  All-known [] m = refl
  All-known (p ∷ ps) m =
      rw
        (any-of_Has (text_eq p.item.substitute) (keys (reverse records))
          (Has-keys-reverse records consistent p.item m.0) (text_eq_refl p.item.substitute))
        (All-known ps m.1)

-- `restore_text` of a text with aliases put in by the records of a consistent table: the originals.
pub restore_records-protected :
    (records : List MappingRecord)
    → IsConsistent records
    → All (λ r. IsAlias r.substitute) records
    → (ps : List Piece) (rest : Text) → All (λ p. Has p.item records) ps
    → Plain (source ps rest) []
    → All (λ r. contains r.substitute (source ps rest) ≡ false) records
    → restore_records records (protected ps rest) ≡ ok (restored ps rest)
unfolding restore_records
restore_records-protected [] c a [] rest m h f = rw (find_aliases-fresh rest h, restore_records)
restore_records-protected [] c a (p ∷ ps) rest m h f = absurd m.0
restore_records-protected (r ∷ records) c a ps rest m h f =
    rw (find_aliases-protected (r ∷ records) c a ps rest m h, All-known (r ∷ records) c a ps m)
      (ap ok (substitute_all-protected (r ∷ records) c a ps rest m (h, fresh)))
  where
    fresh : All (λ k. contains k (source ps rest) ≡ false) (patterns (r ∷ records))
    fresh =
        All-imp (λ k. Has k (substitutes_of (r ∷ records)))
          (λ k. contains k (source ps rest) ≡ false) (patterns (r ∷ records))
          (λ k.
            All-Has (λ x. contains x (source ps rest) ≡ false) (substitutes_of (r ∷ records))
              (All-map (λ x. x.substitute) (λ x. contains x (source ps rest) ≡ false) (r ∷ records)
                f))
          (patterns-Has (r ∷ records))
