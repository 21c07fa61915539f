-- ===== src/Prelude/Texts.antt =====
-- Text as the list of its code points, which is what Python indexes, slices and compares.
use Prim.Native.Char.{code}
use Prim.Native.String.{String}
use Prim.Native.Nat.{ℕ}
use mathlib.Core.Path.{◌≡◌, refl}
use mathlib.Core.Logic.{◌↔◌, ◌⊎◌, inl, inr}
use mathlib.Core.Bool.{Bool, true, false, ◌&&◌, ◌||◌}
use mathlib.Core.List.{List, [], ◌∷◌, ◌++◌}
use native.Mathlib.Omega.{arith}
use mr_hide.Prelude.Tests.{ltb, ◌==◌}

abbrev pub Text : Type 0
Text = List ℕ

-- a literal
unfoldable pub text : String → Text
text String.[] = []
text (String.◌∷◌ c s) = code c ∷ text s

unfoldable pub text_eq : Text → Text → Bool
text_eq [] [] = true
text_eq (a ∷ s) (b ∷ t) = (a == b) && text_eq s t
text_eq _ _ = false

text_eq_sound : (s t : Text) → text_eq s t ≡ true → s ≡ t
unfolding text_eq
text_eq_sound [] [] h = refl
text_eq_sound [] (b ∷ t) h = cc
text_eq_sound (a ∷ s) [] h = cc
text_eq_sound (a ∷ s) (b ∷ t) h = ground (arith, text_eq_sound s t)

pub text_eq_refl : (s : Text) → text_eq s s ≡ true
unfolding text_eq
text_eq_refl [] = refl
text_eq_refl (a ∷ s) = ground (arith, text_eq_refl s)

pub text_eq_iff : (s t : Text) → (text_eq s t ≡ true) ↔ (s ≡ t)
text_eq_iff s t = (text_eq_sound s t, λ p. rw p (text_eq_refl t))

-- `t.startswith(s)`
unfoldable pub is_prefix : Text → Text → Bool
is_prefix [] t = true
is_prefix (a ∷ s) [] = false
is_prefix (a ∷ s) (b ∷ t) = (a == b) && is_prefix s t

-- `s in t`
unfoldable pub contains : Text → Text → Bool
unfolding is_prefix
contains s [] = is_prefix s []
contains s (b ∷ t) = is_prefix s (b ∷ t) || contains s t

-- Python's order on texts
unfoldable pub text_le : Text → Text → Bool
text_le [] t = true
text_le (a ∷ s) [] = false
text_le (a ∷ s) (b ∷ t) = ltb a b || (a == b) && text_le s t

pub text_eq_comm : (s t : Text) → text_eq s t ≡ text_eq t s
unfolding text_eq
text_eq_comm [] [] = refl
text_eq_comm [] (b ∷ t) = refl
text_eq_comm (a ∷ s) [] = refl
text_eq_comm (a ∷ s) (b ∷ t) = ground (arith, text_eq_comm s t)

pub is_prefix-append : (s t : Text) → is_prefix s (s ++ t) ≡ true
unfolding is_prefix
is_prefix-append [] t = refl
is_prefix-append (a ∷ s) t = ground (arith, is_prefix-append s t)

-- A prefix of a text is one of every longer text.
pub is_prefix-append_right : (s t v : Text) → is_prefix s t ≡ true → is_prefix s (t ++ v) ≡ true
unfolding is_prefix
is_prefix-append_right [] t v h = refl
is_prefix-append_right (a ∷ s) [] v h = cc
is_prefix-append_right (a ∷ s) (b ∷ t) v h = ground (arith, is_prefix-append_right s t v)

-- Of two prefixes of one text the one is a prefix of the other.
pub is_prefix-total :
    (s t v : Text) → is_prefix s (t ++ v) ≡ true → (is_prefix s t ≡ true) ⊎ (is_prefix t s ≡ true)
unfolding is_prefix
is_prefix-total [] t v h = inl refl
is_prefix-total (a ∷ s) [] v h = inr refl
is_prefix-total (a ∷ s) (b ∷ t) v h = ground (arith, is_prefix-total s t v)

pub is_prefix-contains : (s t : Text) → is_prefix s t ≡ true → contains s t ≡ true
unfolding contains
is_prefix-contains s [] h = h
is_prefix-contains s (b ∷ t) h = ground arith

-- What a text does not contain, no later part of it contains.
pub contains-append_false : (s t v : Text) → contains s (t ++ v) ≡ false → contains s v ≡ false
unfolding contains
contains-append_false s [] v h = h
contains-append_false s (b ∷ t) v h = contains-append_false s t v (ground arith)
