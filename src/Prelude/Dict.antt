-- ===== src/Prelude/Dict.antt =====
-- Python's `dict` with texts as keys: pairs in the order of first insertion.
use mathlib.Core.Path.{◌≡◌, refl, subst, ◌∙◌}
use mathlib.Core.Bool.{true, false}
use mathlib.Core.Logic.{inl, inr}
use mathlib.Core.List.{List, [], ◌∷◌, map}
use mathlib.Core.Option.{Option, none, some}
use native.Mathlib.Omega.{arith}
use mr_hide.Prelude.Tests.{if◌then◌else◌, Bool-cases}
use mr_hide.Prelude.Lists.{All, Has}
use mr_hide.Prelude.Texts.{Text, text_eq, text_eq_refl, text_eq_iff}
use mr_hide.Prelude.Sorting.{Ordered}

abbrev pub Dict : Type 0 → Type 0
Dict V = List (Text × V)

module _ {V : Type 0} where
  -- `d.get(k)`
  unfoldable pub get : Text → Dict V → Option V
  get k [] = none
  get k ((j, v) ∷ d) = if text_eq j k then some v else get k d

  -- `d[k] = v`
  unfoldable pub put : Text → V → Dict V → Dict V
  put k v [] = (k, v) ∷ []
  put k v ((j, w) ∷ d) = if text_eq j k then (j, v) ∷ d else (j, w) ∷ put k v d

  -- `{k: v for k, v in pairs}`, onto the pairs that are there
  unfoldable pub put_all : Dict V → List (Text × V) → Dict V
  unfolding put
  put_all d [] = d
  put_all d ((k, v) ∷ pairs) = put_all (put k v d) pairs

  abbrev pub keys : Dict V → List Text
  keys d = map (λ e. e.0) d

  pub get-put :
      (k j : Text) (v : V) (d : Dict V)
      → get j (put k v d) ≡ (if text_eq k j then some v else get j d)
  unfolding get put
  get-put k j v [] = refl
  get-put k j v ((i, w) ∷ d) =
      ground (arith, text_eq_iff i k, text_eq_iff i j, text_eq_iff k j, get-put k j v d)

  -- Pairs under other keys leave an entry alone.
  pub get-put_all_absent :
      (k : Text) (d : Dict V) (pairs : List (Text × V))
      → All (λ e. text_eq e.0 k ≡ false) pairs
      → get k (put_all d pairs) ≡ get k d
  unfolding put_all
  get-put_all_absent k d [] h = refl
  get-put_all_absent k d ((j, w) ∷ pairs) h =
      get-put_all_absent k (put j w d) pairs h.1 ∙ (rw (get-put j k w d, h.0))

  -- A pair under a key that no later pair has is found.
  pub get-put_all :
      (e : Text × V) (d : Dict V) (pairs : List (Text × V))
      → Ordered (λ a b. text_eq b.0 a.0 ≡ false) pairs
      → Has e pairs
      → get e.0 (put_all d pairs) ≡ some e.1
  unfolding put_all
  get-put_all e d [] o m = absurd m
  get-put_all e d ((k, v) ∷ pairs) o (inl p) =
      subst (λ x. get x.0 (put_all (put k v d) pairs) ≡ some x.1) p
        (get-put_all_absent k (put k v d) pairs o.0 ∙ (rw (get-put k k v d, text_eq_refl k)))
  get-put_all e d ((k, v) ∷ pairs) o (inr m) = get-put_all e (put k v d) pairs o.1 m

  keys-put :
      (P : Text → Type 0) (k : Text) (v : V) (d : Dict V)
      → P k
      → All P (keys d)
      → All P (keys (put k v d))
  unfolding put
  keys-put P k v [] p h = (p, tt)
  keys-put P k v ((j, w) ∷ d) p h =
      elim (text_eq j k) as (λ b. All P (keys (if b then (j, v) ∷ d else (j, w) ∷ put k v d))) [
        | true ↦ h
        | false ↦ (h.0, keys-put P k v d p h.1)
      ]

  -- What holds of the keys of the pairs holds of the keys of the dictionary.
  pub keys-put_all :
      (P : Text → Type 0) (d : Dict V) (pairs : List (Text × V))
      → All P (keys d)
      → All P (keys pairs)
      → All P (keys (put_all d pairs))
  unfolding put_all
  keys-put_all P d [] h q = h
  keys-put_all P d ((k, v) ∷ pairs) h q =
      keys-put_all P (put k v d) pairs (keys-put P k v d q.0 h) q.1

  -- A key that is found is among the keys.
  pub Has-keys : (k : Text) {v : V} (d : Dict V) → get k d ≡ some v → Has k (keys d)
  unfolding get
  Has-keys k {v} [] h = cc
  Has-keys k {v} ((j, w) ∷ d) h = elim (Bool-cases (text_eq j k)) [
    | inl e ↦ inl ((text_eq_iff j k).0 e)
    | inr e ↦ inr (Has-keys k {v = v} d (ground arith))
  ]
