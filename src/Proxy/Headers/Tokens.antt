-- ===== src/Proxy/Headers/Tokens.antt =====
-- The names that the `Connection` headers of src/mr_hide/proxy/headers.py list.
use mr_hide.Prelude.{
  Bool-cases, keep, Has, Has-append_left, Has-append_right, any-of_Has, Has-map, Text, text_eq_iff,
  text_eq_refl, ◌≡◌, refl, sym, ap, subst, ◌∙◌, ◌≢◌, ◌↔◌, ◌⊎◌, inl, inr, Bool, true, false, not,
  List, [], ◌∷◌, ◌++◌, map, arith, text, text_eq,
}
use mr_hide.Proxy.Headers.{
  HeaderPair, lower, is_blank, split_commas, tokens_of, connection_tokens, member,
}
use mr_hide.Privacy.Normalization.{strip}
use mr_hide.Privacy.Models.{is_empty}

pub member-Has : (name : Text) (names : List Text) → member name names ≡ true → Has name names
member-Has name [] h = cc
member-Has name (x ∷ names) h = elim (Bool-cases (text_eq name x)) [
  | inl e ↦ inl (sym ((text_eq_iff name x).0 e))
  | inr e ↦ inr (member-Has name names (ground arith))
]

pub Has-member : (name : Text) (names : List Text) → Has name names → member name names ≡ true
Has-member name names m = any-of_Has (text_eq name) names m (text_eq_refl name)

module _ {A : Type 0} where
  pub Has-split : (a : A) (xs ys : List A) → Has a (xs ++ ys) → Has a xs ⊎ Has a ys
  Has-split a [] ys m = inr m
  Has-split a (x ∷ xs) ys (inl e) = inl (inl e)
  Has-split a (x ∷ xs) ys (inr m) = elim (Has-split a xs ys m) [
    | inl k ↦ inl (inr k)
    | inr k ↦ inr k
  ]

  pub Has-keep_iff :
      (p : A → Bool) (a : A) (xs : List A) → Has a (keep p xs) ↔ (Has a xs × (p a ≡ true))
  Has-keep_iff p a xs = (from xs, λ (m, e). onto xs m e)
    where
      from : (xs : List A) → Has a (keep p xs) → Has a xs × (p a ≡ true)
      from [] m = absurd m
      from (x ∷ xs) m =
          elim (p x)
              as (λ b.
                p x ≡ b
                → Has a (elim b [ true ↦ x ∷ keep p xs | false ↦ keep p xs ])
                → Has a (x ∷ xs) × (p a ≡ true)) [
                  | true ↦ λ e k. elim k [
                    | inl same ↦ (inl same, subst (λ y. p y ≡ true) same e)
                    | inr later ↦ let (there, q) = from xs later in (inr there, q)
                  ]
                  | false ↦ λ e k. let (there, q) = from xs k in (inr there, q)
                ]
            refl m

      onto : (xs : List A) → Has a xs → p a ≡ true → Has a (keep p xs)
      onto [] m e = absurd m
      onto (x ∷ xs) (inl same) e =
          elim (p x)
              as (λ b. p x ≡ b → Has a (elim b [ true ↦ x ∷ keep p xs | false ↦ keep p xs ])) [
                | true ↦ λ q. inl same
                | false ↦ λ q.
                    let clash : true ≡ false = sym (subst (λ y. p y ≡ true) (sym same) e) ∙ q in cc
              ]
            refl
      onto (x ∷ xs) (inr m) e =
          elim (p x) as (λ b. Has a (elim b [ true ↦ x ∷ keep p xs | false ↦ keep p xs ])) [
            | true ↦ inr (onto xs m e)
            | false ↦ onto xs m e
          ]

Has-of_map :
    {A B : Type 0} (f : A → B) (b : B) (xs : List A)
    → Has b (map f xs)
    → (a : A) × Has a xs × (f a ≡ b)
Has-of_map f b [] m = absurd m
Has-of_map f b (x ∷ xs) (inl e) = (x, inl refl, e)
Has-of_map f b (x ∷ xs) (inr m) = let (a, k, e) = Has-of_map f b xs m in (a, inr k, e)

-- A token of a value is what stands between two commas, without blanks, in small letters.
abbrev pub IsToken : Text → Text → Type 0
IsToken field name =
    (token : Text) × Has token (split_commas field)
    × (strip is_blank token ≢ [])
    × (lower (strip is_blank token) ≡ name)

tokens_of_iff : (field name : Text) → Has name (tokens_of field) ↔ IsToken field name
unfolding tokens_of
tokens_of_iff field name = (from, λ (token, m, some_text, e). onto token m some_text e)
  where
    parts : List Text
    parts = map (strip is_blank) (split_commas field)

    filled : (s : Text) → not (is_empty s) ≡ true → s ≢ []
    filled [] h e = cc
    filled (c ∷ s) h e = cc

    is_filled : (s : Text) → s ≢ [] → not (is_empty s) ≡ true
    is_filled [] h = absurd (h refl)
    is_filled (c ∷ s) h = refl

    from :
        Has name (map lower (keep (λ token. not (is_empty token)) parts))
        → (token : Text) × Has token (split_commas field)
          × (strip is_blank token ≢ [])
          × (lower (strip is_blank token) ≡ name)
    from m =
        let (stripped, k, e) =
          Has-of_map lower name (keep (λ token. not (is_empty token)) parts) m in
        let (there, q) = (Has-keep_iff (λ token. not (is_empty token)) stripped parts).0 k in
        let (token, j, same) = Has-of_map (strip is_blank) stripped (split_commas field) there in
        (token, j, subst (λ s. s ≢ []) (sym same) (filled stripped q), ap lower same ∙ e)

    onto :
        (token : Text)
        → Has token (split_commas field)
        → strip is_blank token ≢ []
        → lower (strip is_blank token) ≡ name
        → Has name (map lower (keep (λ token. not (is_empty token)) parts))
    onto token m some_text e =
        subst (λ s. Has s (map lower (keep (λ token. not (is_empty token)) parts))) e
          (Has-map lower (strip is_blank token) (keep (λ token. not (is_empty token)) parts) (
            (Has-keep_iff (λ token. not (is_empty token)) (strip is_blank token) parts).1 (
              Has-map (strip is_blank) token (split_commas field) m,
              is_filled (strip is_blank token) some_text,
            )))

-- The names that the `Connection` headers list.
abbrev pub IsListed : List HeaderPair → Text → Type 0
IsListed headers name =
    (h : HeaderPair) × Has h headers × (lower h.0 ≡ text "connection") × IsToken h.1 name

later-IsListed :
    (h : HeaderPair) (headers : List HeaderPair) (name : Text)
    → IsListed headers name
    → IsListed (h ∷ headers) name
later-IsListed h headers name (c, m, named, token) = (c, inr m, named, token)

pub connection_tokens-IsListed :
    (headers : List HeaderPair) (name : Text)
    → Has name (connection_tokens headers)
    → IsListed headers name
unfolding connection_tokens
connection_tokens-IsListed [] name m = absurd m
connection_tokens-IsListed ((key, field) ∷ headers) name m =
    elim (Bool-cases (text_eq (lower key) (text "connection"))) [
      | inl e ↦ elim (Has-split name (tokens_of field) (connection_tokens headers) (rw e at m)) [
        | inl here ↦ (
          (key, field),
          inl refl,
          (text_eq_iff (lower key) (text "connection")).0 e,
          (tokens_of_iff field name).0 here,
        )
        | inr later ↦
            later-IsListed (key, field) headers name (connection_tokens-IsListed headers name later)
      ]
      | inr e ↦
          later-IsListed (key, field) headers name
            (connection_tokens-IsListed headers name (rw e at m))
    ]

pub Has-connection_tokens :
    (headers : List HeaderPair) (h : HeaderPair) (name : Text)
    → Has h headers
    → lower h.0 ≡ text "connection"
    → IsToken h.1 name
    → Has name (connection_tokens headers)
unfolding connection_tokens
Has-connection_tokens [] h name m named token = absurd m
Has-connection_tokens ((key, field) ∷ headers) h name (inl same) named token =
    let e : text_eq (lower key) (text "connection") ≡ true =
      (text_eq_iff (lower key) (text "connection")).1 (ap (λ x. lower x.0) same ∙ named) in
    rw e (
      Has-append_left name (tokens_of field) (connection_tokens headers)
        ((tokens_of_iff field name).1 (subst (λ x. IsToken x.1 name) (sym same) token)))
Has-connection_tokens ((key, field) ∷ headers) h name (inr m) named token =
    let rest = Has-connection_tokens headers h name m named token in
    elim (Bool-cases (text_eq (lower key) (text "connection"))) [
      | inl e ↦ rw e (Has-append_right name (tokens_of field) (connection_tokens headers) rest)
      | inr e ↦ rw e rest
    ]
