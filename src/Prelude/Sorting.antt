-- ===== src/Prelude/Sorting.antt =====
-- `sorted`: a stable sort by a test that says whether one element may stand before another.
use mathlib.Core.Path.{◌≡◌, refl}
use mathlib.Core.Bool.{Bool, true, false}
use mathlib.Core.Logic.{inl, inr}
use mathlib.Core.List.{List, [], ◌∷◌, map}
use mr_hide.Prelude.Tests.{if◌then◌else◌}
use mr_hide.Prelude.Lists.{All, Has, All-of_map, All-map}

-- Each element is so related to all that follow it.
abbrev pub Ordered : {A : Type 0} → (A → A → Type 0) → List A → Type 0
Ordered R [] = Unit
Ordered R (x ∷ xs) = All (R x) xs × Ordered R xs

pub All-imp :
    {A : Type 0} (P Q : A → Type 0) (xs : List A) → ((a : A) → P a → Q a) → All P xs → All Q xs
All-imp P Q [] f h = tt
All-imp P Q (x ∷ xs) f h = (f x h.0, All-imp P Q xs f h.1)

pub Ordered-of_map :
    {A B : Type 0} (f : A → B) (R : B → B → Type 0) (xs : List A)
    → Ordered R (map f xs)
    → Ordered (λ a b. R (f a) (f b)) xs
Ordered-of_map f R [] o = tt
Ordered-of_map {A} f R (x ∷ xs) o = (All-of_map f (R (f x)) xs o.0, Ordered-of_map f R xs o.1)

pub Ordered-map :
    {A B : Type 0} (f : A → B) (R : B → B → Type 0) (xs : List A)
    → Ordered (λ a b. R (f a) (f b)) xs
    → Ordered R (map f xs)
Ordered-map f R [] o = tt
Ordered-map f R (x ∷ xs) o = (All-map f (R (f x)) xs o.0, Ordered-map f R xs o.1)

pub Ordered-imp :
    {A : Type 0} (R S : A → A → Type 0) (xs : List A)
    → ((a b : A) → R a b → S a b)
    → Ordered R xs
    → Ordered S xs
Ordered-imp R S [] f o = tt
Ordered-imp R S (x ∷ xs) f o = (All-imp (R x) (S x) xs (f x) o.0, Ordered-imp R S xs f o.1)

module _ {A : Type 0} (before : A → A → Bool) where
  -- puts an element that came first in the input in front of its equals
  pub insert : A → List A → List A
  insert x [] = x ∷ []
  insert x (y ∷ ys) = if before x y then x ∷ y ∷ ys else y ∷ insert x ys

  unfoldable pub sorted : List A → List A
  unfolding insert
  sorted [] = []
  sorted (x ∷ xs) = insert x (sorted xs)

  pub All-insert : (P : A → Type 0) (x : A) (ys : List A) → P x → All P ys → All P (insert x ys)
  unfolding insert
  All-insert P x [] p h = (p, tt)
  All-insert P x (y ∷ ys) p h =
      elim (before x y) as (λ b. All P (if b then x ∷ y ∷ ys else y ∷ insert x ys)) [
        | true ↦ (p, h)
        | false ↦ (h.0, All-insert P x ys p h.1)
      ]

  pub All-sorted : (P : A → Type 0) (xs : List A) → All P xs → All P (sorted xs)
  unfolding sorted
  All-sorted P [] h = tt
  All-sorted P (x ∷ xs) h = All-insert P x (sorted xs) h.0 (All-sorted P xs h.1)

  past_head :
      (a x y : A) (ys : List A)
      → (Has a (x ∷ ys) → Has a (insert x ys))
      → Has a (x ∷ y ∷ ys)
      → Has a (y ∷ insert x ys)
  past_head a x y ys f (inl e) = inr (f (inl e))
  past_head a x y ys f (inr (inl e)) = inl e
  past_head a x y ys f (inr (inr k)) = inr (f (inr k))

  Has-insert : (a x : A) (ys : List A) → Has a (x ∷ ys) → Has a (insert x ys)
  unfolding insert
  Has-insert a x [] m = m
  Has-insert a x (y ∷ ys) m =
      elim (before x y) as (λ b. Has a (if b then x ∷ y ∷ ys else y ∷ insert x ys)) [
        | true ↦ m
        | false ↦ past_head a x y ys (Has-insert a x ys) m
      ]

  -- Sorting loses nothing.
  pub Has-sorted : (a : A) (xs : List A) → Has a xs → Has a (sorted xs)
  unfolding sorted
  Has-sorted a [] m = m
  Has-sorted a (x ∷ xs) (inl e) = Has-insert a x (sorted xs) (inl e)
  Has-sorted a (x ∷ xs) (inr m) = Has-insert a x (sorted xs) (inr (Has-sorted a xs m))

  -- A symmetric relation between all the elements is one between all the sorted ones.
  module _ (R : A → A → Type 0) (swap : (x y : A) → R x y → R y x) where
    pub Ordered-insert_symm :
        (x : A) (ys : List A) → All (R x) ys → Ordered R ys → Ordered R (insert x ys)
    unfolding insert
    Ordered-insert_symm x [] h o = (tt, tt)
    Ordered-insert_symm x (y ∷ ys) h o =
        elim (before x y) as (λ b. Ordered R (if b then x ∷ y ∷ ys else y ∷ insert x ys)) [
          | true ↦ (h, o)
          | false ↦ (All-insert (R y) x ys (swap x y h.0) o.0, Ordered-insert_symm x ys h.1 o.1)
        ]

    pub Ordered-sorted_symm : (xs : List A) → Ordered R xs → Ordered R (sorted xs)
    unfolding sorted
    Ordered-sorted_symm [] o = tt
    Ordered-sorted_symm (x ∷ xs) o =
        Ordered-insert_symm x (sorted xs) (All-sorted (R x) xs o.0) (Ordered-sorted_symm xs o.1)

  -- The result is ordered by a transitive relation that the test decides both ways.
  module _ (R : A → A → Type 0) (trans : (x y z : A) → R x y → R y z → R x z)
      (before→R : (x y : A) → before x y ≡ true → R x y)
      (after→R : (x y : A) → before x y ≡ false → R y x) where
    Ordered-insert : (x : A) (ys : List A) → Ordered R ys → Ordered R (insert x ys)
    unfolding insert
    Ordered-insert x [] o = (tt, tt)
    Ordered-insert x (y ∷ ys) o =
        (elim (before x y)
            as (λ b. before x y ≡ b → Ordered R (if b then x ∷ y ∷ ys else y ∷ insert x ys)) [
              | true ↦ λ e.
                  let first : R x y = before→R x y e in
                  ((first, All-imp (R y) (R x) ys (λ z. trans x y z first) o.0), o)
              | false ↦ λ e. (All-insert (R y) x ys (after→R x y e) o.0, Ordered-insert x ys o.1)
            ])
          refl

    pub Ordered-sorted : (xs : List A) → Ordered R (sorted xs)
    unfolding sorted
    Ordered-sorted [] = tt
    Ordered-sorted (x ∷ xs) = Ordered-insert x (sorted xs) (Ordered-sorted xs)
