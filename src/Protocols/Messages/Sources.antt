-- ===== src/Protocols/Messages/Sources.antt =====
-- What src/mr_hide/protocols/messages/json_body.py makes of documents and of search results, if it makes
-- of the contents in them what it should.
use mr_hide.Protocols.Walk.{Walk, ◌>>=◌, pure}
use mr_hide.Prelude.{
  Bool-cases, ℕ, ◌<◌, ◌≡◌, refl, sym, subst, ◌∙◌, inl, inr, ◌&&◌, arith, text, text_eq,
}
use mr_hide.Errors.{malformed, err}
use mr_hide.Json.{
  Json, null, boolean, int, negative, float, string, array, object, Fields, has_field, put_field,
  get_or_null,
}
use mr_hide.Json.Laws.{
  get_field-put, OthersKept, put_field-OthersKept, get_or_null-kept, get_or_null-put,
}
use mr_hide.Policy.{conversation}
use mr_hide.Protocols.Documents.{object_of, is_typed}
use mr_hide.Protocols.Contract.{Meets, Callback}
use mr_hide.Protocols.Strings.{
  type_of, same_type, IsPut, IsPut-released, IsOptional, OptionalReleased-kept,
}
use mr_hide.Protocols.Messages.Blocks.{
  is_messages, required, optional, transform_source, transform_source_of, transform_document,
  content_unless_null, transform_search_result,
}
use mr_hide.Protocols.Messages.Released.{
  Content, Block, document_block, search_result_block, ContentOrNull, no_content, some_content,
  Source, no_source, text_source, content_source, other_source,
}
use mr_hide.Protocols.Messages.Rules.{bind, weaken, give, required-Meets, optional-Meets}
use mr_hide.Protocols.Depth.{depth, fields_depth, depth-get}

module _ {S : Type 0} (c : Callback S) (n : ℕ) (content : Json → Walk S Json)
    (inner : (v : Json)
      → depth v < n
      → Meets c.course is_messages (Content c.Good) (content v)) where
  abbrev Done : {A : Type 0} → (A → Type 0) → Walk S A → Type 0
  Done Q w = Meets c.course is_messages Q w

  transform_source-Meets :
      (fs : Fields)
      → fields_depth fs < n
      → Done (λ gs. Source c.Good (object gs)) (transform_source c.transform content fs)
  unfolding transform_source type_of text
  transform_source-Meets fs small =
      elim (Bool-cases (is_typed (text "text") (get_or_null (text "type") fs))) [
        | inl e ↦ rw e (
            weaken c (IsPut c.Good (text "data") conversation fs) (λ gs. Source c.Good (object gs))
              (required c.transform (text "data") conversation fs)
              (λ gs put. text_source (IsPut-released c.Good (text "data") conversation fs gs put))
              (required-Meets c (text "data") conversation fs))
        | inr e ↦
            rw e
              (elim (Bool-cases (
                is_typed (text "content") (get_or_null (text "type") fs)
                && has_field (text "content") fs)) [
                  | inl f ↦
                      let less = depth-get (text "content") fs in
                      rw f (
                        bind c (Content c.Good) (λ gs. Source c.Good (object gs))
                          (content (get_or_null (text "content") fs)) _
                          (inner (get_or_null (text "content") fs) (omega (arith, less, small)))
                          (λ v good.
                            give c (λ gs. Source c.Good (object gs))
                              (put_field (text "content") v fs)
                              (content_source (get_field-put (text "content") v fs) good)))
                  | inr f ↦ rw f (give c (λ gs. Source c.Good (object gs)) fs (other_source e f))
                ])
      ]

  IsSourced : Fields → Fields → Type 0
  unfolding text
  IsSourced fs gs =
      Source c.Good (get_or_null (text "source") gs) × OthersKept (text "source") fs gs

  unsourced :
      (fs : Fields) (v : Json)
      → get_or_null (text "source") fs ≡ v
      → object_of malformed v ≡ err malformed
      → IsSourced fs fs
  unfolding IsSourced
  unsourced fs v e h = (subst (Source c.Good) (sym e) (no_source h), λ j other. refl)

  transform_source_of-Meets :
      (v : Json) (fs : Fields)
      → get_or_null (text "source") fs ≡ v
      → depth v < n
      → Done (IsSourced fs) (transform_source_of c.transform content v fs)
  unfolding transform_source_of text depth IsSourced
  transform_source_of-Meets (object source) fs e small =
      bind c (λ gs. Source c.Good (object gs)) (IsSourced fs)
        (transform_source c.transform content source) _ (transform_source-Meets source small)
        (λ gs good. give c (IsSourced fs) (put_field (text "source") (object gs) fs) (
          subst (Source c.Good) (sym (get_or_null-put (text "source") (object gs) fs)) good,
          put_field-OthersKept (text "source") (object gs) fs
              (put_field (text "source") (object gs) fs) refl,
        ))
  transform_source_of-Meets null fs e small = give c (IsSourced fs) fs (unsourced fs null e refl)
  transform_source_of-Meets (boolean b) fs e small =
      give c (IsSourced fs) fs (unsourced fs (boolean b) e refl)
  transform_source_of-Meets (int k) fs e small =
      give c (IsSourced fs) fs (unsourced fs (int k) e refl)
  transform_source_of-Meets (negative k) fs e small =
      give c (IsSourced fs) fs (unsourced fs (negative k) e refl)
  transform_source_of-Meets (float t) fs e small =
      give c (IsSourced fs) fs (unsourced fs (float t) e refl)
  transform_source_of-Meets (string t) fs e small =
      give c (IsSourced fs) fs (unsourced fs (string t) e refl)
  transform_source_of-Meets (array vs) fs e small =
      give c (IsSourced fs) fs (unsourced fs (array vs) e refl)

  pub transform_document-Meets :
      (fs : Fields)
      → type_of fs ≡ string (text "document")
      → fields_depth fs < n
      → Done (Block c.Good) (transform_document c.transform content fs)
  unfolding transform_document text text_eq IsSourced
  transform_document-Meets fs typed small =
      bind c (IsOptional c.Good (text "title") conversation fs) (Block c.Good)
        (optional c.transform (text "title") conversation fs) _
        (optional-Meets c (text "title") conversation fs)
        (λ titled a.
          bind c (IsOptional c.Good (text "context") conversation titled) (Block c.Good)
            (optional c.transform (text "context") conversation titled) _
            (optional-Meets c (text "context") conversation titled)
            (λ described b.
              let same : get_or_null (text "source") described ≡ get_or_null (text "source") fs =
                get_or_null-kept (text "context") (text "source") titled described refl b.1
                ∙ get_or_null-kept (text "title") (text "source") fs titled refl a.1 in
              let less = depth-get (text "source") fs in
              weaken c (IsSourced described) (Block c.Good)
                (transform_source_of c.transform content (get_or_null (text "source") described)
                  described)
                (λ gs sourced.
                  document_block
                    (same_type (text "source") described gs refl sourced.1
                      ∙ same_type (text "context") titled described refl b.1
                      ∙ same_type (text "title") fs titled refl a.1
                      ∙ typed)
                    (OptionalReleased-kept c.Good (text "source") (text "title") conversation
                      described gs refl sourced.1
                      (OptionalReleased-kept c.Good (text "context") (text "title") conversation
                        titled described refl b.1 a.0))
                    (OptionalReleased-kept c.Good (text "source") (text "context") conversation
                      described gs refl sourced.1 b.0)
                    sourced.0)
                (transform_source_of-Meets (get_or_null (text "source") described) described refl
                  (subst (λ v. depth v < n) (sym same) (omega (arith, less, small))))))

  IsFilled : Fields → Fields → Type 0
  unfolding text
  IsFilled fs gs =
      ContentOrNull c.Good (get_or_null (text "content") gs) × OthersKept (text "content") fs gs

  filled :
      (v : Json) (fs : Fields)
      → depth v < n
      → Done (IsFilled fs) (content v >>= λ done. pure (put_field (text "content") done fs))
  unfolding IsFilled
  filled v fs small = bind c (Content c.Good) (IsFilled fs) (content v) _ (inner v small) (λ w good.
      give c (IsFilled fs) (put_field (text "content") w fs) (
        subst (ContentOrNull c.Good) (sym (get_or_null-put (text "content") w fs))
            (some_content good),
        put_field-OthersKept (text "content") w fs (put_field (text "content") w fs) refl,
      ))

  content_unless_null-Meets :
      (v : Json) (fs : Fields)
      → get_or_null (text "content") fs ≡ v
      → depth v < n
      → Done (IsFilled fs) (content_unless_null c.transform content v fs)
  unfolding content_unless_null text
  content_unless_null-Meets null fs e small =
      give c (IsFilled fs) fs
        (unfold IsFilled in (subst (ContentOrNull c.Good) (sym e) no_content, λ j other. refl))
  content_unless_null-Meets (boolean b) fs e small = filled (boolean b) fs small
  content_unless_null-Meets (int k) fs e small = filled (int k) fs small
  content_unless_null-Meets (negative k) fs e small = filled (negative k) fs small
  content_unless_null-Meets (float t) fs e small = filled (float t) fs small
  content_unless_null-Meets (string t) fs e small = filled (string t) fs small
  content_unless_null-Meets (array vs) fs e small = filled (array vs) fs small
  content_unless_null-Meets (object gs) fs e small = filled (object gs) fs small

  pub transform_search_result-Meets :
      (fs : Fields)
      → type_of fs ≡ string (text "search_result")
      → fields_depth fs < n
      → Done (Block c.Good) (transform_search_result c.transform content fs)
  unfolding transform_search_result text text_eq IsFilled
  transform_search_result-Meets fs typed small =
      bind c (IsOptional c.Good (text "title") conversation fs) (Block c.Good)
        (optional c.transform (text "title") conversation fs) _
        (optional-Meets c (text "title") conversation fs)
        (λ titled a.
          let same : get_or_null (text "content") titled ≡ get_or_null (text "content") fs =
            get_or_null-kept (text "title") (text "content") fs titled refl a.1 in
          let less = depth-get (text "content") fs in
          weaken c (IsFilled titled) (Block c.Good)
            (content_unless_null c.transform content (get_or_null (text "content") titled) titled)
            (λ gs done.
              search_result_block
                (same_type (text "content") titled gs refl done.1
                  ∙ same_type (text "title") fs titled refl a.1
                  ∙ typed)
                (OptionalReleased-kept c.Good (text "content") (text "title") conversation titled gs
                  refl done.1 a.0)
                done.0)
            (content_unless_null-Meets (get_or_null (text "content") titled) titled refl
              (subst (λ v. depth v < n) (sym same) (omega (arith, less, small)))))
