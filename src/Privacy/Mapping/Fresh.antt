-- ===== src/Privacy/Mapping/Fresh.antt =====
-- What `_allocate_alias` and `_allocate_surrogate` of src/mr_hide/privacy/mapping.py return.
use mr_hide.Prelude.{
  if◌then◌else◌, Bool-cases, length, keep, length-append, All, keep-true, Text, ℕ, zero, suc, ◌+◌,
  ◌≡◌, refl, sym, ap, subst, ◌∙◌, inl, inr, Bool, true, false, not, some, List, [], ◌∷◌, ◌++◌, map,
  arith,
}
use mr_hide.Prelude.Decimal.{is_digit, decimal, decimal-digits, decimal-ne-nil}
use mr_hide.Errors.{
  substitute_space_exhausted, privacy, Result, err, ok, ◌>>=◌, >>=-eq-ok, ok-injective, err≢ok,
}
use mr_hide.Privacy.Normalization.{Family, person, entity_family}
use mr_hide.Privacy.Scoring.{TokenScorer, safe_cost}
use mr_hide.Privacy.Mapping.Restore.{is_upper, closer, match_digits, match_code, match_alias}
use mr_hide.Privacy.Mapping.Substitutes.{
  family_code, max_allocation_attempts, bracketed, candidate_aliases, collides, score_all, cheaper,
  least, choose, allocate_alias_loop, allocate_alias, surrogate_candidate, allocate_surrogate_loop,
  allocate_surrogate, used_count, next_substitute,
}
use mr_hide.Privacy.Mapping.Scan.Shape.{IsAlias}
use mr_hide.Privacy.Mapping.{MappingTable}
use mr_hide.Prelude.Sorting.{All-imp}
use mr_hide.Policy.{SubstitutionMode, alias, compatibility}

match_digits-All :
    (e n : ℕ) (s : Text)
    → is_digit e ≡ false
    → All (λ c. is_digit c ≡ true) s
    → match_digits e n (s ++ e ∷ []) ≡ some (n + length s + 1)
unfolding match_digits
match_digits-All e n [] k h = ground arith
match_digits-All e n (c ∷ s) k h = ground (arith, match_digits-All e (n + 1) s)

match_code-All :
    (e code : ℕ) (s : Text)
    → is_digit e ≡ false
    → is_upper code ≡ true
    → All (λ c. is_digit c ≡ true) s
    → (c : ℕ) × (rest : Text) × (s ≡ c ∷ rest)
    → match_code e (code ∷ (s ++ e ∷ [])) ≡ some (3 + length s)
unfolding match_code
match_code-All e code [] k v h (c, rest, p) = cc
match_code-All e code (d ∷ s) k v h w =
    let same : 3 + length s + 1 ≡ 3 + suc (length s) = omega arith in
    rw (v, h.0, match_digits-All e 3 s k h.1, same)

length-bracketed : (s : Text) (e : ℕ) → suc (suc (length (s ++ e ∷ []))) ≡ 3 + length s
length-bracketed s e = omega (arith, length-append s (e ∷ []))

-- A bracketed code and number is an alias.
bracketed-IsAlias :
    (o e code n : ℕ)
    → closer o ≡ some e
    → is_digit e ≡ false
    → is_upper code ≡ true
    → IsAlias (bracketed o e code (decimal n))
bracketed-IsAlias o e code n p d v = starts ∙ ap some (sym (length-bracketed (decimal n) e))
  where
    starts : match_alias (bracketed o e code (decimal n)) ≡ some (3 + length (decimal n))
    starts =
        unfold match_alias in
        (rw (p, match_alias)
          (match_code-All e code (decimal n) d v (decimal-digits n) (decimal-ne-nil n)))

family_code-upper : (f : Family) → is_upper (family_code f) ≡ true
unfolding is_upper family_code
family_code-upper person = refl
family_code-upper _ = refl

pub candidate_aliases-IsAlias : (f : Family) (n : ℕ) → All IsAlias (candidate_aliases f n)
unfolding candidate_aliases closer is_digit
candidate_aliases-IsAlias f n = (
  bracketed-IsAlias b'<' b'>' (family_code f) n refl refl (family_code-upper f),
  (
    bracketed-IsAlias b'[' b']' (family_code f) n refl refl (family_code-upper f),
    (bracketed-IsAlias 0x27e6 0x27e7 (family_code f) n refl refl (family_code-upper f), tt),
  ),
)

All-keep : {A : Type 0} (P : A → Type 0) (p : A → Bool) (xs : List A) → All P xs → All P (keep p xs)
All-keep P p [] h = tt
All-keep P p (x ∷ xs) h =
    elim (p x) as (λ b. All P (elim b [ true ↦ x ∷ keep p xs | false ↦ keep p xs ])) [
      | true ↦ (h.0, All-keep P p xs h.1)
      | false ↦ All-keep P p xs h.1
    ]

score_all-texts :
    (scorer : TokenScorer) (items : List Text) (scored : List (ℕ × Text))
    → score_all scorer items ≡ ok scored
    → map (λ e. e.1) scored ≡ items
unfolding score_all
score_all-texts scorer [] scored h = ground arith
score_all-texts scorer (x ∷ xs) scored h =
    let (cost, _, k) = >>=-eq-ok (safe_cost scorer x) (after xs) h in
    let (rest, e, q) = >>=-eq-ok (score_all scorer xs) (λ rest. ok ((cost, x) ∷ rest)) k in
    subst (λ y. map (λ e. e.1) y ≡ x ∷ xs) (ok-injective q)
      (ap (◌∷◌ x) (score_all-texts scorer xs rest e))
  where
    after : List Text → ℕ → Result (List (ℕ × Text))
    after ys cost = do rest ← score_all scorer ys; ok ((cost, x) ∷ rest)

least-of_All :
    (P : Text → Type 0) (best : ℕ × Text) (items : List (ℕ × Text))
    → P best.1
    → All P (map (λ e. e.1) items)
    → P (least best items)
unfolding least
least-of_All P best [] p h = p
least-of_All P best (x ∷ xs) p h =
    least-of_All P (if cheaper x best then x else best) xs
      (elim (cheaper x best) as (λ b. P (if b then x else best).1) [ true ↦ h.0 | false ↦ p ]) h.1

choose-of_All :
    (P : Text → Type 0) (scored : List (ℕ × Text)) {s : Text}
    → choose scored ≡ ok s
    → All P (map (λ e. e.1) scored)
    → P s
unfolding choose
choose-of_All P [] h k = absurd (err≢ok h)
choose-of_All P (x ∷ xs) h k = subst P (ok-injective h) (least-of_All P x xs k.0 k.1)

-- what is left of the candidates
abbrev free : List Text → List Text → List Text
free forbidden = keep (λ item. not (collides item forbidden))

IsFree-free :
    (forbidden candidates : List Text)
    → All (λ s. collides s forbidden ≡ false) (free forbidden candidates)
IsFree-free forbidden candidates =
    All-imp (λ s. not (collides s forbidden) ≡ true) (λ s. collides s forbidden ≡ false)
      (free forbidden candidates) (λ s e. ground arith)
      (keep-true (λ item. not (collides item forbidden)) candidates)

chosen :
    (P : Text → Type 0) (scorer : TokenScorer) (items : List Text) {s : Text}
    → (score_all scorer items >>= choose) ≡ ok s
    → All P items
    → P s
chosen P scorer items h k =
    let (scored, e, q) = >>=-eq-ok (score_all scorer items) choose h in
    choose-of_All P scored q (subst (All P) (sym (score_all-texts scorer items scored e)) k)

-- An allocated alias has the shape of one and collides with nothing forbidden.
pub allocate_alias_loop-free :
    (attempts : ℕ) (family : Family) (index : ℕ) (forbidden : List Text) (scorer : TokenScorer)
    {s : Text}
    → allocate_alias_loop attempts family index forbidden scorer ≡ ok s
    → IsAlias s × (collides s forbidden ≡ false)
allocate_alias_loop-free zero family index forbidden scorer {s} h =
    let none_left : err (privacy substitute_space_exhausted) ≡ ok s =
      unfold allocate_alias_loop in h in
    absurd (err≢ok none_left)
allocate_alias_loop-free (suc attempts) family index forbidden scorer {s} h =
    step (free forbidden (candidate_aliases family index))
      (All-keep IsAlias (λ item. not (collides item forbidden)) (candidate_aliases family index)
        (candidate_aliases-IsAlias family index))
      (IsFree-free forbidden (candidate_aliases family index))
      (allocate_alias_loop-free attempts family (index + 1) forbidden scorer)
      (unfold allocate_alias_loop in h)
  where
    step :
        (items : List Text)
        → All IsAlias items
        → All (λ x. collides x forbidden ≡ false) items
        → (allocate_alias_loop attempts family (index + 1) forbidden scorer ≡ ok s
            → IsAlias s × (collides s forbidden ≡ false))
        → (elim items [
          | [] ↦ allocate_alias_loop attempts family (index + 1) forbidden scorer
          | first ∷ more ↦ do scored ← score_all scorer (first ∷ more); choose scored
        ])
          ≡ ok s
        → IsAlias s × (collides s forbidden ≡ false)
    step [] a f later q = later q
    step (x ∷ xs) a f later q = (
      chosen IsAlias scorer (x ∷ xs) q a,
      chosen (λ y. collides y forbidden ≡ false) scorer (x ∷ xs) q f,
    )

-- An allocated surrogate collides with nothing forbidden.
pub allocate_surrogate_loop-free :
    (attempts : ℕ) (ipv6 : ℕ → Text) (family : Family) (index : ℕ) (forbidden : List Text)
    {s : Text}
    → allocate_surrogate_loop attempts ipv6 family index forbidden ≡ ok s
    → collides s forbidden ≡ false
unfolding allocate_surrogate_loop
allocate_surrogate_loop-free zero ipv6 family index forbidden h = absurd (err≢ok h)
allocate_surrogate_loop-free (suc attempts) ipv6 family index forbidden {s} h =
    elim (Bool-cases (collides (surrogate_candidate ipv6 family index) forbidden)) [
      | inl e ↦ allocate_surrogate_loop-free attempts ipv6 family (index + 1) forbidden (rw e at h)
      | inr e ↦ subst (λ x. collides x forbidden ≡ false) (ok-injective (rw e at h)) e
    ]

pub next_substitute_lem :
    (ipv6 : ℕ → Text) (table : MappingTable) (entity_type : Text) (mode : SubstitutionMode)
    (forbidden : List Text) (scorer : TokenScorer) {s : Text}
    → next_substitute ipv6 table entity_type mode forbidden scorer ≡ ok s
    → (collides s forbidden ≡ false) × (mode ≡ alias → IsAlias s)
unfolding next_substitute allocate_alias allocate_surrogate
next_substitute_lem ipv6 table entity_type alias forbidden scorer h =
    let (a, f) =
      allocate_alias_loop-free max_allocation_attempts (entity_family entity_type)
        (used_count (entity_family entity_type) alias table.records) forbidden scorer h in
    (f, λ _. a)
next_substitute_lem ipv6 table entity_type compatibility forbidden scorer h = (
  allocate_surrogate_loop-free max_allocation_attempts ipv6 (entity_family entity_type)
      (used_count (entity_family entity_type) compatibility table.records) forbidden h,
  λ e. absurd (differ e),
)
  where
    differ : compatibility ≡ alias → ⊥
    differ e = cc
