-- ===== src/Proxy/Headers/Laws.antt =====
-- What src/mr_hide/proxy/headers.py promises.
use mr_hide.Prelude.{
  if◌then◌else◌, Bool-cases, Has, Has-append_left, Has-append_right, Text, ◌≡◌, refl, sym, ap,
  subst, ◌∙◌, ◌≢◌, ◌↔◌, inl, inr, Bool, true, false, not, List, [], ◌∷◌, text,
}
use mr_hide.Proxy.Headers.{
  HeaderPair, lower, is_blank, split_commas, hop_by_hop, connection_tokens, member, excluded,
  filter_headers,
}
use mr_hide.Privacy.Normalization.{strip}
use mr_hide.Proxy.Headers.Tokens.{
  member-Has, Has-member, Has-split, Has-keep_iff, connection_tokens-IsListed,
  Has-connection_tokens,
}

-- The names of headers that are not forwarded, for a list of headers.
pub data Reserved (request : Bool) (headers : List HeaderPair) : Text → Type 0 where
  -- the names that belong to one connection
  of_connection :
      {name : Text}
      → Has name (
          text "connection"
          ∷ text "keep-alive"
          ∷ text "proxy-authenticate"
          ∷ text "proxy-authorization"
          ∷ text "te"
          ∷ text "trailer"
          ∷ text "transfer-encoding"
          ∷ text "upgrade"
          ∷ [])
      → Reserved request headers name
  -- what a `Connection` header names between its commas, in any case and without the blanks around
  listed :
      {name : Text} (h : HeaderPair) (token : Text)
      → Has h headers
      → lower h.0 ≡ text "connection"
      → Has token (split_commas h.1)
      → strip is_blank token ≢ []
      → lower (strip is_blank token) ≡ name
      → Reserved request headers name
  -- the host of a request
  host : {name : Text} → request ≡ true → name ≡ text "host" → Reserved request headers name

module _ (request : Bool) (headers : List HeaderPair) where
  excluded-Reserved :
      (name : Text) → Has name (excluded request headers) → Reserved request headers name
  unfolding excluded hop_by_hop
  excluded-Reserved name m = elim (Has-split name hop_by_hop _ m) [
    | inl fixed ↦ of_connection fixed
    | inr more ↦ elim (Has-split name (connection_tokens headers) _ more) [
      | inl told ↦
          let (h, k, named, (token, j, some_text, e)) =
            connection_tokens-IsListed headers name told in
          listed h token k named j some_text e
      | inr own ↦ own_name request refl own
    ]
  ]
    where
      own_name :
          (r : Bool)
          → request ≡ r
          → Has name (if r then text "host" ∷ [] else [])
          → Reserved request headers name
      own_name true e (inl same) = host e (sym same)
      own_name true e (inr none_left) = absurd none_left
      own_name false e none_left = absurd none_left

  Reserved-excluded :
      (name : Text) → Reserved request headers name → Has name (excluded request headers)
  unfolding excluded hop_by_hop
  Reserved-excluded name (of_connection fixed) = Has-append_left name hop_by_hop _ fixed
  Reserved-excluded name (listed h token k named j some_text e) =
      Has-append_right name hop_by_hop _ (
        Has-append_left name (connection_tokens headers) _
          (Has-connection_tokens headers h name k named (token, j, some_text, e)))
  Reserved-excluded name (host asked same) = Has-append_right name hop_by_hop _ (
      Has-append_right name (connection_tokens headers) _
        (subst (λ r. Has name (if r then text "host" ∷ [] else [])) (sym asked) (inl (sym same))))

  -- A filter lets a header through, of requests or of responses, exactly when it is among the
  -- headers and its name, in small letters, is not one of the eight that belong to one connection,
  -- is not listed by a Connection header among them, and is not host in a request.
  pub filter_headers_iff :
      (h : HeaderPair)
      → Has h (filter_headers request headers)
        ↔ (Has h headers × (¬ Reserved request headers (lower h.0)))
  unfolding filter_headers
  filter_headers_iff h = (
    λ m.
        let (there, e) = (Has-keep_iff allowed h headers).0 m in
        (there, λ reserved. refuted (Reserved-excluded (lower h.0) reserved) e),
    λ (m, free). (Has-keep_iff allowed h headers).1 (m, admitted free),
  )
    where
      allowed : HeaderPair → Bool
      allowed x = not (member (lower x.0) (excluded request headers))

      refuted :
          Has (lower h.0) (excluded request headers)
          → not (member (lower h.0) (excluded request headers)) ≡ true
          → ⊥
      refuted m e =
          let found = Has-member (lower h.0) (excluded request headers) m in
          let clash : false ≡ true = sym (ap not found) ∙ e in cc

      admitted :
          ¬ Reserved request headers (lower h.0)
          → not (member (lower h.0) (excluded request headers)) ≡ true
      admitted free = elim (Bool-cases (member (lower h.0) (excluded request headers))) [
        | inl e ↦ absurd (
            free
              (excluded-Reserved (lower h.0) (member-Has (lower h.0) (excluded request headers) e)))
        | inr e ↦ ap not e
      ]
