-- ===== src/AsyncApi/Message/Content.antt =====
-- What a parsed message holds.
use agen.Prelude.{◌≡◌, refl, true, List, [], ◌∷◌, Option, none, some, arith}
use agen.Prelude.Result.{ok, ◌>>◌, bind-ok}
use agen.Prelude.Text.{Text}
use agen.AsyncApi.{Parsed, invalid_payload, invalid_headers}
use agen.AsyncApi.Message.{
  Message, MessageTrait, RawMessage, Reader, validate_schema_format, is_json, validate_content_type,
  merge_message_trait, merge_message_traits, resolve_message_trait, initial_message, parse_optional,
  content_type_or_default, parse_message,
}
use agen.AsyncApi.Message.Kept.{Kept, Keeps, ok-Keeps, Keeps-trans, merge_message_trait-Keeps}

module _ {Binding Correlation Tag RawSchema Schema : Type 0} where
  module _ (w : Reader Binding Correlation Tag RawSchema Schema) where
    open w use {pointers}
    open pointers use {Ctx}

    merge_message_traits-Keeps :
        (ctx : Ctx) (raw : Option RawSchema)
        (dst d : Message Binding Correlation Tag RawSchema Schema)
        (ts : List (Option (MessageTrait Binding Correlation Tag RawSchema Schema)))
        → merge_message_traits w ctx raw dst ts ≡ ok d
        → Keeps dst d
    unfolding merge_message_traits
    merge_message_traits-Keeps ctx raw dst d [] h = ok-Keeps (ok dst) dst d refl h
    merge_message_traits-Keeps ctx raw dst d (none ∷ ts) h =
        merge_message_traits-Keeps ctx raw dst d ts h
    merge_message_traits-Keeps ctx raw dst d (some t ∷ ts) h =
        let (r, _, h₁) = bind-ok (resolve_message_trait w ctx t) _ h in
        let (d', e, h₂) = bind-ok (merge_message_trait raw dst r) _ h₁ in
        Keeps-trans dst d' d (merge_message_trait-Keeps raw dst d' r e)
          (merge_message_traits-Keeps ctx raw d' d ts h₂)

    -- A parsed message, against the message of the document.
    unfoldable pub IsMessage :
        Ctx
        → Text
        → RawMessage Binding Correlation Tag RawSchema Schema
        → Message Binding Correlation Tag RawSchema Schema
        → Type 0
    IsMessage ctx n raw m =
        (validate_schema_format raw.schema_format ≡ ok tt)
        × (is_json m.content_type_of ≡ true)
        × (parse_optional w invalid_payload ctx raw.payload_of ≡ ok m.payload_of)
        × (parse_optional w invalid_headers ctx raw.headers_of ≡ ok m.headers_of)
        × (m.spec_name ≡ n)
        × (m.correlation_id ≡ raw.correlation_id)
        × (m.tags_of ≡ raw.tags_of)
        × Kept raw.name_of m.name_of
        × Kept raw.title_of m.title_of
        × Kept raw.summary_of m.summary_of
        × Kept raw.description_of m.description_of
        × Kept raw.content_type_of m.content_type_of

    -- The last step: the content type is checked, and the message put together.
    assemble :
        Message Binding Correlation Tag RawSchema Schema
        → Option Schema
        → Option Schema
        → Parsed (Message Binding Correlation Tag RawSchema Schema)
    unfolding validate_content_type content_type_or_default
    assemble d p q = do
      validate_content_type (content_type_or_default w d.content_type_of)
      ok (record {
        spec_name = d.spec_name;
        name_of = d.name_of;
        title_of = d.title_of;
        summary_of = d.summary_of;
        description_of = d.description_of;
        content_type_of = content_type_or_default w d.content_type_of;
        bindings_of = d.bindings_of;
        tags_of = d.tags_of;
        payload_of = p;
        headers_of = q;
        correlation_id = d.correlation_id;
      })

    assemble-IsMessage :
        (ctx : Ctx) (n : Text) (raw : RawMessage Binding Correlation Tag RawSchema Schema)
        (d m : Message Binding Correlation Tag RawSchema Schema) (p q : Option Schema)
        → validate_schema_format raw.schema_format ≡ ok tt
        → Keeps (initial_message w n raw) d
        → parse_optional w invalid_payload ctx raw.payload_of ≡ ok p
        → parse_optional w invalid_headers ctx raw.headers_of ≡ ok q
        → assemble d p q ≡ ok m
        → IsMessage ctx n raw m
    unfolding IsMessage Keeps Kept initial_message assemble validate_content_type
        content_type_or_default
    assemble-IsMessage ctx n raw d m p q e₀ (h₁, h₂, h₃, h₄, h₅, h₆, h₇, h₈) e₂ e₃ h = (
      e₀,
      ground arith,
      ground arith,
      ground arith,
      ground arith,
      ground arith,
      ground arith,
      ground arith,
      ground arith,
      ground arith,
      ground arith,
      ground arith,
    )

    -- A message that `parseMessage` returns has a JSON content type and a supported schema format; its
    -- payload, headers, correlation id and tags are those that the document gives for the message
    -- itself, whatever its traits; and a trait changes no name, title, summary, description or content
    -- type that the document gives for the message itself.
    pub parse_message-IsMessage :
        (ctx : Ctx) (n : Text) (raw : RawMessage Binding Correlation Tag RawSchema Schema)
        (m : Message Binding Correlation Tag RawSchema Schema)
        → parse_message w ctx n raw ≡ ok m
        → IsMessage ctx n raw m
    unfolding parse_message assemble
    parse_message-IsMessage ctx n raw m h =
        let (_, e₀, h₁) = bind-ok (validate_schema_format raw.schema_format) _ h in
        let (d, e₁, h₂) =
          bind-ok
            (merge_message_traits w ctx raw.headers_of (initial_message w n raw) raw.traits_of) _
            h₁ in
        let (p, e₂, h₃) = bind-ok (parse_optional w invalid_payload ctx raw.payload_of) _ h₂ in
        let (q, e₃, h₄) = bind-ok (parse_optional w invalid_headers ctx raw.headers_of) _ h₃ in
        let keeps =
          merge_message_traits-Keeps ctx raw.headers_of (initial_message w n raw) d raw.traits_of
            e₁ in
        assemble-IsMessage ctx n raw d m p q e₀ keeps e₂ e₃ h₄
