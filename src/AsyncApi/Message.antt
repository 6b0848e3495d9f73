-- ===== src/AsyncApi/Message.antt =====
-- asyncapi/parser: messages. This file models `mergeMessageTraits` of traits.go and the checks and
-- `parseMessage` of parse_operation.go.
--
-- The schemas, bindings, tags and correlation ids are carried along: their types are parameters.
pub mod Pointer
pub mod Kept
pub mod Content
mod Tests
use agen.Prelude.{
  Bool, true, false, not, ◌&&◌, ◌||◌, List, [], ◌∷◌, Option, none, some, if◌then◌else◌, is_some,
}
use agen.Prelude.Result.{ok, err, ◌>>=◌, ◌>>◌, reject}
use agen.Prelude.Text.{Text, Map, text, is_empty, eq_text, lists}
use agen.AsyncApi.{
  Parsed, name, title, summary, description, content_type, Error, trait_overrides_headers,
  trait_overrides_correlation_id, cannot_resolve, cannot_decode, chained_reference,
  avro_not_supported, schema_format_not_supported, unsupported_content_type, invalid_payload,
  invalid_headers, Pointers, or_err,
}
use agen.AsyncApi.Traits.{set_string, merge_bindings}

module _ (Binding Correlation Tag RawSchema Schema : Type 0) where
  pub record MessageTrait : Type 0 where
    pub ref : Text
    pub name_of : Text
    pub title_of : Text
    pub summary_of : Text
    pub description_of : Text
    pub content_type_of : Text
    pub bindings_of : Map (Option Binding)
    pub headers_of : Option RawSchema
    pub correlation_id : Option Correlation

  -- `asyncapi.Message`.
  pub record RawMessage : Type 0 where
    pub schema_format : Text
    pub name_of : Text
    pub title_of : Text
    pub summary_of : Text
    pub description_of : Text
    pub content_type_of : Text
    pub bindings_of : Map (Option Binding)
    pub tags_of : List Tag
    pub payload_of : Option RawSchema
    pub headers_of : Option RawSchema
    pub correlation_id : Option Correlation
    pub traits_of : List (Option MessageTrait)

  pub record MessageRef : Type 0 where
    pub ref : Text
    pub message : RawMessage

  pub record Message : Type 0 where
    pub spec_name : Text
    pub name_of : Text
    pub title_of : Text
    pub summary_of : Text
    pub description_of : Text
    pub content_type_of : Text
    pub bindings_of : Map (Option Binding)
    pub tags_of : List Tag
    pub payload_of : Option Schema
    pub headers_of : Option Schema
    pub correlation_id : Option Correlation

  -- The document and the packages that read it.
  pub record Reader : Type 1 where
    pub pointers : Pointers
    pub decode_trait : pointers.Node → Option MessageTrait
    pub decode_message : pointers.Node → Option MessageRef
    pub parse_schema : pointers.Ctx → RawSchema → Option Schema
    pub spec_default_content_type : Text

unfoldable pub has_prefix : Text → Text → Bool
has_prefix [] t = true
has_prefix (c ∷ p) [] = false
has_prefix (c ∷ p) (x ∷ t) = eq_text (c ∷ []) (x ∷ []) && has_prefix p t

-- `strings.Contains`
unfoldable pub contains_text : Text → Text → Bool
unfolding has_prefix
contains_text p [] = has_prefix p []
contains_text p (x ∷ t) = has_prefix p (x ∷ t) || contains_text p t

-- `strings.HasSuffix`
unfoldable pub has_suffix : Text → Text → Bool
unfolding eq_text
has_suffix p [] = eq_text [] p
has_suffix p (x ∷ t) = eq_text (x ∷ t) p || has_suffix p t

abbrev pub schema_formats : List Text
schema_formats =
    []
    ∷ text "application/vnd.aai.asyncapi"
    ∷ text "application/vnd.aai.asyncapi+json"
    ∷ text "application/vnd.aai.asyncapi;version=3.0.0"
    ∷ text "application/vnd.aai.asyncapi+json;version=3.0.0"
    ∷ text "application/vnd.aai.asyncapi;version=3.1.0"
    ∷ text "application/vnd.aai.asyncapi+json;version=3.1.0"
    ∷ []

unfoldable pub validate_schema_format : Text → Parsed (Unit {0})
unfolding lists contains_text
validate_schema_format format =
    if lists format schema_formats
    then ok tt
    else if contains_text (text "avro") format
    then err (avro_not_supported format)
    else err (schema_format_not_supported format)

unfoldable pub is_json : Text → Bool
unfolding eq_text has_suffix
is_json ct = eq_text ct (text "application/json") || has_suffix (text "+json") ct

unfoldable pub validate_content_type : Text → Parsed (Unit {0})
unfolding is_json
validate_content_type ct = if is_json ct then ok tt else err (unsupported_content_type ct)

unfoldable pub default_content_type : Text → Text
default_content_type spec_default =
    if not (is_empty spec_default) then spec_default else text "application/json"

module _ {Binding Correlation Tag RawSchema Schema : Type 0} where
  -- The body of the loop of `mergeMessageTraits`, behind the resolution.
  unfoldable pub merge_message_trait :
      Option RawSchema
      → Message Binding Correlation Tag RawSchema Schema
      → MessageTrait Binding Correlation Tag RawSchema Schema
      → Parsed (Message Binding Correlation Tag RawSchema Schema)
  unfolding set_string
  merge_message_trait raw_headers dst resolved = do
    n ← set_string dst.name_of resolved.name_of name
    t ← set_string dst.title_of resolved.title_of title
    s ← set_string dst.summary_of resolved.summary_of summary
    d ← set_string dst.description_of resolved.description_of description
    c ← set_string dst.content_type_of resolved.content_type_of content_type
    b ← merge_bindings dst.bindings_of resolved.bindings_of
    reject (is_some resolved.headers_of && is_some raw_headers) trait_overrides_headers
    reject (is_some resolved.correlation_id && is_some dst.correlation_id)
        trait_overrides_correlation_id
    ok (record {
      spec_name = dst.spec_name;
      name_of = n;
      title_of = t;
      summary_of = s;
      description_of = d;
      content_type_of = c;
      bindings_of = b;
      tags_of = dst.tags_of;
      payload_of = dst.payload_of;
      headers_of = dst.headers_of;
      correlation_id = dst.correlation_id;
    })

  module _ (w : Reader Binding Correlation Tag RawSchema Schema) where
    open w use {pointers, decode_trait, parse_schema, spec_default_content_type}
    open pointers use {Ctx, key, add_key, ptr, resolve}

    unfoldable pub reject_chained_trait :
        Text
        → MessageTrait Binding Correlation Tag RawSchema Schema
        → Parsed (MessageTrait Binding Correlation Tag RawSchema Schema)
    reject_chained_trait ref out =
        if not (is_empty out.ref) then err (chained_reference ref) else ok out

    unfoldable pub follow_message_trait :
        Ctx → Text → Parsed (MessageTrait Binding Correlation Tag RawSchema Schema)
    unfolding or_err reject_chained_trait
    follow_message_trait ctx trait_ref = do
      k ← or_err (cannot_resolve trait_ref) (key ctx trait_ref)
      inner ← or_err (cannot_resolve trait_ref) (add_key ctx k)
      node ← or_err (cannot_resolve trait_ref) (resolve (ptr k))
      out ← or_err (cannot_decode trait_ref) (decode_trait node)
      reject_chained_trait trait_ref out

    unfoldable pub resolve_message_trait :
        Ctx
        → MessageTrait Binding Correlation Tag RawSchema Schema
        → Parsed (MessageTrait Binding Correlation Tag RawSchema Schema)
    unfolding follow_message_trait
    resolve_message_trait ctx trait =
        if is_empty trait.ref then ok trait else follow_message_trait ctx trait.ref

    unfoldable pub merge_message_traits :
        Ctx
        → Option RawSchema
        → Message Binding Correlation Tag RawSchema Schema
        → List (Option (MessageTrait Binding Correlation Tag RawSchema Schema))
        → Parsed (Message Binding Correlation Tag RawSchema Schema)
    unfolding resolve_message_trait merge_message_trait
    merge_message_traits ctx raw_headers dst [] = ok dst
    merge_message_traits ctx raw_headers dst (none ∷ traits) =
        merge_message_traits ctx raw_headers dst traits
    merge_message_traits ctx raw_headers dst (some trait ∷ traits) = do
      resolved ← resolve_message_trait ctx trait
      dst' ← merge_message_trait raw_headers dst resolved
      merge_message_traits ctx raw_headers dst' traits

    unfoldable pub parse_optional : Error → Ctx → Option RawSchema → Parsed (Option Schema)
    unfolding or_err
    parse_optional e ctx none = ok none
    parse_optional e ctx (some raw) = do s ← or_err e (parse_schema ctx raw); ok (some s)

    -- The message as `parseMessage` sets it up before the traits.
    unfoldable pub initial_message :
        Text
        → RawMessage Binding Correlation Tag RawSchema Schema
        → Message Binding Correlation Tag RawSchema Schema
    initial_message n raw = record {
      spec_name = n;
      name_of = if is_empty raw.name_of then n else raw.name_of;
      title_of = raw.title_of;
      summary_of = raw.summary_of;
      description_of = raw.description_of;
      content_type_of = raw.content_type_of;
      bindings_of = raw.bindings_of;
      tags_of = raw.tags_of;
      payload_of = none;
      headers_of = none;
      correlation_id = raw.correlation_id;
    }

    unfoldable pub content_type_or_default : Text → Text
    unfolding default_content_type
    content_type_or_default ct =
        if is_empty ct then default_content_type spec_default_content_type else ct

    unfoldable pub parse_message :
        Ctx
        → Text
        → RawMessage Binding Correlation Tag RawSchema Schema
        → Parsed (Message Binding Correlation Tag RawSchema Schema)
    unfolding validate_schema_format initial_message merge_message_traits parse_optional
        content_type_or_default validate_content_type
    parse_message ctx n raw = do
      validate_schema_format raw.schema_format
      merged ← merge_message_traits ctx raw.headers_of (initial_message n raw) raw.traits_of
      payload ← parse_optional invalid_payload ctx raw.payload_of
      headers ← parse_optional invalid_headers ctx raw.headers_of
      validate_content_type (content_type_or_default merged.content_type_of)
      ok (record {
        spec_name = merged.spec_name;
        name_of = merged.name_of;
        title_of = merged.title_of;
        summary_of = merged.summary_of;
        description_of = merged.description_of;
        content_type_of = content_type_or_default merged.content_type_of;
        bindings_of = merged.bindings_of;
        tags_of = merged.tags_of;
        payload_of = payload;
        headers_of = headers;
        correlation_id = merged.correlation_id;
      })
