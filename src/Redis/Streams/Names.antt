-- ===== src/Redis/Streams/Names.antt =====
-- The header names of a received message.
use agen.Prelude.{◌≡◌, refl, Bool, false, [], ◌∷◌, Option, none, some, arith, is_some}
use agen.Prelude.Text.{Text, Map, Distinct, lookup, eq_text, lists}
use agen.Broker.{Outgoing}
use agen.Redis.Streams.{Value, header_field, header_of, header_names, stream_values, Entry}
use agen.Redis.Streams.RoundTrip.{
  Delivers, as_delivered, header_value, lookup-put_headers, lookup-header_field, fields,
}

unfoldable same_name : Option Text → Text → Bool
same_name none k = false
same_name (some j) k = eq_text j k

eq_text-header_of : (f k : Text) → eq_text f (header_field k) ≡ same_name (header_of f) k
unfolding eq_text header_field header_of same_name
eq_text-header_of [] k = refl
eq_text-header_of (a ∷ []) k = ground arith
eq_text-header_of (a ∷ b ∷ j) k = ground arith

lists-header_names :
    (k : Text) (values : Map Value)
    → lists k (header_names values) ≡ is_some (lookup (header_field k) values)
unfolding lists header_names lookup same_name
lists-header_names k [] = refl
lists-header_names k ((f, v) ∷ values) =
    ground (arith, eq_text-header_of f k, lists-header_names k values)

is_some-as_delivered : (v : Option Value) → is_some (as_delivered v) ≡ is_some v
unfolding as_delivered
is_some-as_delivered none = refl
is_some-as_delivered (some v) = refl

is_some-header_value : (v : Option Text) → is_some (header_value v none) ≡ is_some v
unfolding header_value
is_some-header_value none = refl
is_some-header_value (some v) = refl

-- If the server hands out what was published to the stream, and no header stands twice, then
-- `HeaderNames` lists a name exactly if the published message has a header of this name.
pub lists-header_names-Delivers :
    (k : Text) (out : Outgoing) (entry : Entry)
    → Distinct out.headers
    → Delivers out entry
    → lists k (header_names entry.values) ≡ is_some (lookup k out.headers)
unfolding Delivers stream_values
lists-header_names-Delivers k out entry distinct delivers = rw (
  lists-header_names k entry.values,
  delivers (header_field k),
  is_some-as_delivered (lookup (header_field k) (stream_values out)),
  lookup-put_headers k out.headers (fields out.key out.body out.content_type) distinct,
  lookup-header_field k out.key out.body out.content_type,
  is_some-header_value (lookup k out.headers),
)
