-- ===== src/AsyncApi/Message/Kept.antt =====
-- What the traits of a message do not change.
use agen.Prelude.{is_some, ◌&&◌, ◌≡◌, ◌⊎◌, inl, inr, refl, ◌∙◌, true, Option, arith}
use agen.Prelude.Result.{ok, bind-ok, reject-bind}
use agen.Prelude.Text.{Text, is_empty}
use agen.AsyncApi.{
  Parsed, Field, name, title, summary, description, content_type, trait_overrides_headers,
  trait_overrides_correlation_id,
}
use agen.AsyncApi.Traits.{set_absent, set_string, merge_bindings}
use agen.AsyncApi.Message.{Message, MessageTrait, merge_message_trait}

-- A text that is not empty stays.
unfoldable pub Kept : Text → Text → Type 0
Kept dst d = (is_empty dst ≡ true) ⊎ (d ≡ dst)

pub set_string-Kept :
    (dst src d : Text) (field : Field) → set_string dst src field ≡ ok d → Kept dst d
unfolding set_string set_absent Kept
set_string-Kept dst src d field h = ground arith

pub Kept-trans : (a b c : Text) → Kept a b → Kept b c → Kept a c
unfolding Kept
Kept-trans a b c (inl h) k = inl h
Kept-trans a b c (inr h) (inl k) = inl (ground arith)
Kept-trans a b c (inr h) (inr k) = inr (k ∙ h)

module _ {Binding Correlation Tag RawSchema Schema : Type 0} where
  -- What no trait changes.
  unfoldable pub Keeps :
      Message Binding Correlation Tag RawSchema Schema
      → Message Binding Correlation Tag RawSchema Schema
      → Type 0
  Keeps dst d =
      (d.spec_name ≡ dst.spec_name)
      × (d.correlation_id ≡ dst.correlation_id)
      × (d.tags_of ≡ dst.tags_of)
      × Kept dst.name_of d.name_of
      × Kept dst.title_of d.title_of
      × Kept dst.summary_of d.summary_of
      × Kept dst.description_of d.description_of
      × Kept dst.content_type_of d.content_type_of

  pub ok-Keeps :
      (step : Parsed (Message Binding Correlation Tag RawSchema Schema))
      (dst d : Message Binding Correlation Tag RawSchema Schema)
      → step ≡ ok dst
      → step ≡ ok d
      → Keeps dst d
  unfolding Keeps Kept
  ok-Keeps step dst d e h = (
    ground arith,
    ground arith,
    ground arith,
    inr (ground arith),
    inr (ground arith),
    inr (ground arith),
    inr (ground arith),
    inr (ground arith),
  )

  pub Keeps-trans :
      (a b c : Message Binding Correlation Tag RawSchema Schema) → Keeps a b → Keeps b c → Keeps a c
  unfolding Keeps
  Keeps-trans a b c (h₁, h₂, h₃, h₄, h₅, h₆, h₇, h₈) (k₁, k₂, k₃, k₄, k₅, k₆, k₇, k₈) = (
    k₁ ∙ h₁,
    k₂ ∙ h₂,
    k₃ ∙ h₃,
    Kept-trans _ _ _ h₄ k₄,
    Kept-trans _ _ _ h₅ k₅,
    Kept-trans _ _ _ h₆ k₆,
    Kept-trans _ _ _ h₇ k₇,
    Kept-trans _ _ _ h₈ k₈,
  )

  pub merge_message_trait-Keeps :
      (raw : Option RawSchema) (dst d : Message Binding Correlation Tag RawSchema Schema)
      (t : MessageTrait Binding Correlation Tag RawSchema Schema)
      → merge_message_trait raw dst t ≡ ok d
      → Keeps dst d
  unfolding merge_message_trait Keeps
  merge_message_trait-Keeps raw dst d t h =
      let (a₁, e₁, h₁) = bind-ok (set_string dst.name_of t.name_of name) _ h in
      let (a₂, e₂, h₂) = bind-ok (set_string dst.title_of t.title_of title) _ h₁ in
      let (a₃, e₃, h₃) = bind-ok (set_string dst.summary_of t.summary_of summary) _ h₂ in
      let (a₄, e₄, h₄) =
        bind-ok (set_string dst.description_of t.description_of description) _ h₃ in
      let (a₅, e₅, h₅) =
        bind-ok (set_string dst.content_type_of t.content_type_of content_type) _ h₄ in
      let (a₆, _, h₆) = bind-ok (merge_bindings dst.bindings_of t.bindings_of) _ h₅ in
      let (_, h₇) =
        reject-bind (is_some t.headers_of && is_some raw) trait_overrides_headers _ h₆ in
      let (_, h₈) =
        reject-bind (is_some t.correlation_id && is_some dst.correlation_id)
          trait_overrides_correlation_id _ h₇ in
      let merged : Message Binding Correlation Tag RawSchema Schema = record {
        spec_name = dst.spec_name;
        name_of = a₁;
        title_of = a₂;
        summary_of = a₃;
        description_of = a₄;
        content_type_of = a₅;
        bindings_of = a₆;
        tags_of = dst.tags_of;
        payload_of = dst.payload_of;
        headers_of = dst.headers_of;
        correlation_id = dst.correlation_id;
      } in
      Keeps-trans dst merged d
        (
          refl,
          refl,
          refl,
          set_string-Kept dst.name_of t.name_of a₁ name e₁,
          set_string-Kept dst.title_of t.title_of a₂ title e₂,
          set_string-Kept dst.summary_of t.summary_of a₃ summary e₃,
          set_string-Kept dst.description_of t.description_of a₄ description e₄,
          set_string-Kept dst.content_type_of t.content_type_of a₅ content_type e₅,
        )
        (ok-Keeps (ok merged) merged d refl h₈)
