-- ===== src/Redis/Streams/RoundTrip.antt =====
-- What is published to a stream is what is received from it.
use agen.Prelude.{◌≡◌, refl, ◌∙◌, ap, false, [], ◌∷◌, Option, none, some, if◌then◌else◌, arith}
use agen.Prelude.Text.{Text, Map, Distinct, lookup, insert, lookup-insert, eq_text, eq_text_iff}
use agen.Broker.{Outgoing, or_empty, received}
use agen.Redis.Streams.{
  Value, string, bytes, str, field_payload, field_content_type, field_key, header_field,
  put_headers, put_key, stream_values, Entry, body_of, stream_incoming,
}

-- The server keeps every field under its name, and hands its value out as a string.
unfoldable pub as_delivered : Option Value → Option Value
as_delivered none = none
as_delivered (some v) = some (string (str (some v)))

unfoldable pub Delivers : Outgoing → Entry → Type 0
Delivers out entry =
    (f : Text) → lookup f entry.values ≡ as_delivered (lookup f (stream_values out))

-- The value of a header, behind what the map held before.
unfoldable pub header_value : Option Text → Option Value → Option Value
header_value none before = before
header_value (some v) before = some (string v)

eq_text-header_field : (k j : Text) → eq_text (header_field k) (header_field j) ≡ eq_text k j
unfolding eq_text header_field
eq_text-header_field k j = refl

lookup-put_headers_other :
    (f : Text) (headers : Map Text) (values : Map Value)
    → ((k : Text) → eq_text (header_field k) f ≡ false)
    → lookup f (put_headers headers values) ≡ lookup f values
unfolding insert lookup put_headers
lookup-put_headers_other f [] values apart = refl
lookup-put_headers_other f ((k, v) ∷ headers) values apart =
    lookup-put_headers_other f headers (insert (header_field k) (string v) values) apart
    ∙ lookup-insert (header_field k) f (string v) values
    ∙ ap (λ b. if b then some (string v) else lookup f values) (apart k)

pub lookup-put_headers :
    (j : Text) (headers : Map Text) (values : Map Value)
    → Distinct headers
    → lookup (header_field j) (put_headers headers values)
      ≡ header_value (lookup j headers) (lookup (header_field j) values)
unfolding lookup put_headers Distinct header_value
lookup-put_headers j [] values distinct = refl
lookup-put_headers j ((k, v) ∷ headers) values distinct = ground (
  arith,
  lookup-put_headers j headers (insert (header_field k) (string v) values) (distinct.1),
  lookup-insert (header_field k) (header_field j) (string v) values,
  eq_text-header_field k j,
  eq_text_iff k j,
)

-- The map before the headers.
abbrev pub fields : Text → Text → Text → Map Value
fields key b c = put_key key ((field_payload, bytes b) ∷ (field_content_type, string c) ∷ [])

lookup-payload : (key b c : Text) → lookup field_payload (fields key b c) ≡ some (bytes b)
unfolding lookup insert put_key eq_text
lookup-payload [] b c = refl
lookup-payload (x ∷ key) b c = refl

lookup-content_type :
    (key b c : Text) → lookup field_content_type (fields key b c) ≡ some (string c)
unfolding lookup insert put_key eq_text
lookup-content_type [] b c = refl
lookup-content_type (x ∷ key) b c = refl

str-lookup-key : (key b c : Text) → str (lookup field_key (fields key b c)) ≡ key
unfolding lookup insert put_key eq_text str
str-lookup-key [] b c = refl
str-lookup-key (x ∷ key) b c = refl

pub lookup-header_field : (k key b c : Text) → lookup (header_field k) (fields key b c) ≡ none
unfolding lookup insert put_key eq_text header_field
lookup-header_field k [] b c = refl
lookup-header_field k (x ∷ key) b c = refl

str-header_value : (v : Option Text) → str (header_value v none) ≡ or_empty v
unfolding str header_value or_empty
str-header_value none = refl
str-header_value (some v) = refl

-- The server turns every value into a string, which `str` does not notice.
str-as_delivered : (v : Option Value) → str (as_delivered v) ≡ str v
unfolding str as_delivered
str-as_delivered none = refl
str-as_delivered (some v) = refl

body_of-as_delivered : (b : Text) → body_of (as_delivered (some (bytes b))) ≡ b
unfolding body_of as_delivered str
body_of-as_delivered b = refl

-- A field without the prefix of the headers, as it comes in.
delivered_field :
    (f : Text) (out : Outgoing) (entry : Entry)
    → ((k : Text) → eq_text (header_field k) f ≡ false)
    → Delivers out entry
    → lookup f entry.values ≡ as_delivered (lookup f (fields out.key out.body out.content_type))
unfolding stream_values Delivers
delivered_field f out entry apart delivers =
    delivers f ∙ ap as_delivered (lookup-put_headers_other f out.headers _ apart)

delivered_header :
    (k : Text) (out : Outgoing) (entry : Entry)
    → Distinct out.headers
    → Delivers out entry
    → str (lookup (header_field k) entry.values) ≡ or_empty (lookup k out.headers)
unfolding stream_values Delivers
delivered_header k out entry distinct delivers = rw (
  delivers (header_field k),
  str-as_delivered (lookup (header_field k) (stream_values out)),
  lookup-put_headers k out.headers (fields out.key out.body out.content_type) distinct,
  lookup-header_field k out.key out.body out.content_type,
  str-header_value (lookup k out.headers),
)

-- If the server hands out what was published to the stream, and no header stands twice, then the
-- message that is received has the topic, the key, the content type, the headers and the body of the
-- message that was published.
pub stream_incoming-stream_values :
    (out : Outgoing) (entry : Entry)
    → Distinct out.headers
    → Delivers out entry
    → stream_incoming out.topic entry ≡ received out
unfolding stream_incoming received eq_text header_field
stream_incoming-stream_values out entry distinct delivers i = record {
  topic = out.topic;
  key =
      (ap str (delivered_field field_key out entry (λ k. refl) delivers)
          ∙ str-as_delivered _
          ∙ str-lookup-key out.key out.body out.content_type)
        i;
  content_type =
      (ap str (delivered_field field_content_type out entry (λ k. refl) delivers)
          ∙ str-as_delivered _
          ∙ ap str (lookup-content_type out.key out.body out.content_type))
        i;
  header = λ k. delivered_header k out entry distinct delivers i;
  body =
      (ap body_of (delivered_field field_payload out entry (λ k. refl) delivers)
          ∙ ap (λ v. body_of (as_delivered v)) (lookup-payload out.key out.body out.content_type)
          ∙ body_of-as_delivered out.body)
        i;
}
