-- ===== src/Prelude/Lists.antt =====
-- Lists measured by native numbers, and the Boolean and the logical quantifiers over a list.
use Prim.Native.Nat.{ℕ, zero, suc, ◌+◌, ◌-◌, ◌≤◌}
use mathlib.Core.Path.{◌∙◌, ◌≡◌, refl, sym, ap, subst}
use mathlib.Core.Bool.{Bool, true, false, ◌&&◌, ◌||◌}
use mathlib.Core.Logic.{◌⊎◌, inl, inr}
use mathlib.Core.List.{List, [], ◌∷◌, ◌++◌, map}
use native.Mathlib.Omega.{arith}

module _ {ℓ} {A : Type ℓ} where
  abbrev pub length : List A → ℕ
  length [] = 0
  length (x ∷ xs) = suc (length xs)

  abbrev pub take : ℕ → List A → List A
  take zero xs = []
  take (suc n) [] = []
  take (suc n) (x ∷ xs) = x ∷ take n xs

  abbrev pub drop : ℕ → List A → List A
  drop zero xs = xs
  drop (suc n) [] = []
  drop (suc n) (x ∷ xs) = drop n xs

  abbrev pub any : (A → Bool) → List A → Bool
  any p [] = false
  any p (x ∷ xs) = p x || any p xs

  abbrev pub all : (A → Bool) → List A → Bool
  all p [] = true
  all p (x ∷ xs) = p x && all p xs

  -- the comprehension `[x for x in xs if p(x)]`
  abbrev pub keep : (A → Bool) → List A → List A
  keep p [] = []
  keep p (x ∷ xs) = let rest = keep p xs in elim (p x) [ true ↦ x ∷ rest | false ↦ rest ]

  -- `xs[start:end]` for bounds that are not negative
  abbrev pub slice : ℕ → ℕ → List A → List A
  slice start end xs = take (end - start) (drop start xs)

  pub length-append : (xs ys : List A) → length (xs ++ ys) ≡ length xs + length ys
  length-append [] ys = omega arith
  length-append (x ∷ xs) ys = omega (arith, length-append xs ys)

  pub take-append-drop : (n : ℕ) (xs : List A) → take n xs ++ drop n xs ≡ xs
  take-append-drop zero xs = refl
  take-append-drop (suc n) [] = refl
  take-append-drop (suc n) (x ∷ xs) = ap (◌∷◌ x) (take-append-drop n xs)

  -- a prefix survives what is put in place of the rest
  pub take-take-append :
      (n m : ℕ) (xs ys : List A) → n ≤ m → m ≤ length xs → take n (take m xs ++ ys) ≡ take n xs
  take-take-append zero m xs ys h k = refl
  take-take-append (suc n) zero xs ys h k = absurd (omega arith)
  take-take-append (suc n) (suc m) [] ys h k = absurd (omega arith)
  take-take-append (suc n) (suc m) (x ∷ xs) ys h k =
      ap (◌∷◌ x) (take-take-append n m xs ys (omega arith) (omega arith))

  pub drop-take-append : (m : ℕ) (xs ys : List A) → m ≤ length xs → drop m (take m xs ++ ys) ≡ ys
  drop-take-append zero xs ys k = refl
  drop-take-append (suc m) [] ys k = absurd (omega arith)
  drop-take-append (suc m) (x ∷ xs) ys k = drop-take-append m xs ys (omega arith)

  pub take-append-slice : (n m : ℕ) (xs : List A) → n ≤ m → take m xs ≡ take n xs ++ slice n m xs
  take-append-slice zero m xs h = ap (λ k. take k xs) (omega arith)
  take-append-slice (suc n) zero xs h = absurd (omega arith)
  take-append-slice (suc n) (suc m) [] h = take-nil (suc m - suc n)
    where
      take-nil : (k : ℕ) → [] ≡ take k []
      take-nil zero = refl
      take-nil (suc k) = refl
  take-append-slice (suc n) (suc m) (x ∷ xs) h =
      let same : suc m - suc n ≡ m - n = omega arith in
      ap (◌∷◌ x) (rw same (take-append-slice n m xs (omega arith)))

  pub drop-slice : (n m : ℕ) (xs : List A) → n ≤ m → drop n xs ≡ slice n m xs ++ drop m xs
  drop-slice zero m xs h =
      let same : m - 0 ≡ m = omega arith in rw same (sym (take-append-drop m xs))
  drop-slice (suc n) zero xs h = absurd (omega arith)
  drop-slice (suc n) (suc m) [] h = nothing (suc m - suc n)
    where
      nothing : (k : ℕ) → [] ≡ take k [] ++ []
      nothing zero = refl
      nothing (suc k) = refl
  drop-slice (suc n) (suc m) (x ∷ xs) h =
      let same : suc m - suc n ≡ m - n = omega arith in rw same (drop-slice n m xs (omega arith))

  pub drop-append_length : (xs ys : List A) → drop (length xs) (xs ++ ys) ≡ ys
  drop-append_length [] ys = refl
  drop-append_length (x ∷ xs) ys = drop-append_length xs ys

  pub take-append_length : (xs ys : List A) → take (length xs) (xs ++ ys) ≡ xs
  take-append_length [] ys = refl
  take-append_length (x ∷ xs) ys = ap (◌∷◌ x) (take-append_length xs ys)

-- A predicate of every element, and membership with its witness, by recursion.
module _ {ℓ κ} {A : Type ℓ} where
  abbrev pub All : (A → Type κ) → List A → Type κ
  All P [] = Unit
  All P (x ∷ xs) = P x × All P xs

  pub All-concat : (P : A → Type κ) (xs : List A) {x : A} → All P xs → P x → All P (xs ++ x ∷ [])
  All-concat P [] h p = (p, tt)
  All-concat P (y ∷ xs) h p = (h.0, All-concat P xs h.1 p)

module _ {A : Type 0} where
  abbrev pub Has : A → List A → Type 0
  Has a [] = ⊥
  Has a (x ∷ xs) = (x ≡ a) ⊎ Has a xs

  pub All-Has : (P : A → Type 0) {a : A} (xs : List A) → All P xs → Has a xs → P a
  All-Has P [] h m = absurd m
  All-Has P (x ∷ xs) h (inl e) = subst P e h.0
  All-Has P (x ∷ xs) h (inr m) = All-Has P xs h.1 m

  pub All-of_Has : (P : A → Type 0) (xs : List A) → ((a : A) → Has a xs → P a) → All P xs
  All-of_Has P [] f = tt
  All-of_Has P (x ∷ xs) f = (f x (inl refl), All-of_Has P xs (λ a m. f a (inr m)))

  pub Has-append_left : (a : A) (xs ys : List A) → Has a xs → Has a (xs ++ ys)
  Has-append_left a [] ys m = absurd m
  Has-append_left a (x ∷ xs) ys (inl e) = inl e
  Has-append_left a (x ∷ xs) ys (inr m) = inr (Has-append_left a xs ys m)

  pub Has-append_right : (a : A) (xs ys : List A) → Has a ys → Has a (xs ++ ys)
  Has-append_right a [] ys m = m
  Has-append_right a (x ∷ xs) ys m = inr (Has-append_right a xs ys m)

  -- what `any` denies, it denies of each element
  pub any-eq-false :
      (p : A → Bool) {a : A} (xs : List A) → any p xs ≡ false → Has a xs → p a ≡ false
  any-eq-false p [] h m = absurd m
  any-eq-false p (x ∷ xs) h (inl e) = subst (λ y. p y ≡ false) e (ground arith)
  any-eq-false p (x ∷ xs) h (inr m) = any-eq-false p xs (ground arith) m

  pub any-of_Has : (p : A → Bool) {a : A} (xs : List A) → Has a xs → p a ≡ true → any p xs ≡ true
  any-of_Has p [] m h = absurd m
  any-of_Has p (x ∷ xs) (inl e) h =
      let here : p x ≡ true = subst (λ y. p y ≡ true) (sym e) h in ground arith
  any-of_Has p (x ∷ xs) (inr m) h = ground (arith, any-of_Has p xs m h)

pub length-map : {A B : Type 0} (f : A → B) (xs : List A) → length (map f xs) ≡ length xs
length-map f [] = refl
length-map f (x ∷ xs) = ap suc (length-map f xs)

pub All-of_map :
    {A B : Type 0} (f : A → B) (P : B → Type 0) (xs : List A)
    → All P (map f xs)
    → All (λ a. P (f a)) xs
All-of_map f P [] h = tt
All-of_map f P (x ∷ xs) h = (h.0, All-of_map f P xs h.1)

pub All-map :
    {A B : Type 0} (f : A → B) (P : B → Type 0) (xs : List A)
    → All (λ a. P (f a)) xs
    → All P (map f xs)
All-map f P [] h = tt
All-map f P (x ∷ xs) h = (h.0, All-map f P xs h.1)

pub Has-map : {A B : Type 0} (f : A → B) (a : A) (xs : List A) → Has a xs → Has (f a) (map f xs)
Has-map f a [] m = absurd m
Has-map f a (x ∷ xs) (inl e) = inl (ap f e)
Has-map f a (x ∷ xs) (inr m) = inr (Has-map f a xs m)

-- What is kept passed the test.
pub keep-true : {A : Type 0} (p : A → Bool) (xs : List A) → All (λ x. p x ≡ true) (keep p xs)
keep-true p [] = tt
keep-true p (x ∷ xs) =
    (elim (p x)
        as (λ b.
          p x ≡ b → All (λ y. p y ≡ true) (elim b [ true ↦ x ∷ keep p xs | false ↦ keep p xs ])) [
            | true ↦ λ e. (e, keep-true p xs)
            | false ↦ λ e. keep-true p xs
          ])
      refl

-- A list of which everything passes the test is kept.
pub keep-All : {A : Type 0} (p : A → Bool) (xs : List A) → All (λ x. p x ≡ true) xs → keep p xs ≡ xs
keep-All p [] h = refl
keep-All p (x ∷ xs) h =
    ap (λ b. elim b [ true ↦ x ∷ keep p xs | false ↦ keep p xs ]) h.0
    ∙ ap (◌∷◌ x) (keep-All p xs h.1)
