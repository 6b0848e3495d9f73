-- ===== src/Redis/Streams.antt =====
-- runtime/redis/redis.go: messages as stream entries, and `Publish`.
pub mod RoundTrip
pub mod Names
use agen.Prelude.{Bool, ◌&&◌, not, List, [], ◌∷◌, ◌++◌, Option, none, some, ◌==◌, if◌then◌else◌}
use agen.Prelude.Int.{ℤ, pos, ltb_ℤ}
use agen.Prelude.Text.{Text, Map, text, is_empty, lookup, insert}
use agen.Broker.{Outgoing, Incoming}
use agen.Redis.{streams, pubsub, Publisher}

-- A value of a `map[string]any`; `other` carries what `fmt.Sprint` prints.
pub data Value : Type 0 where
  string : Text → Value
  bytes : Text → Value
  other : Text → Value

unfoldable pub str : Option Value → Text
str none = []
str (some (string t)) = t
str (some (bytes t)) = t
str (some (other t)) = t

abbrev pub field_payload : Text
field_payload = text "payload"

abbrev pub field_content_type : Text
field_content_type = text "content_type"

abbrev pub field_key : Text
field_key = text "key"

unfoldable pub header_field : Text → Text
header_field k = text "h." ++ k

-- The loop over the headers.
unfoldable pub put_headers : Map Text → Map Value → Map Value
unfolding header_field insert
put_headers [] values = values
put_headers ((k, v) ∷ headers) values =
    put_headers headers (insert (header_field k) (string v) values)

unfoldable pub put_key : Text → Map Value → Map Value
unfolding insert
put_key k values = if not (is_empty k) then insert field_key (string k) values else values

unfoldable pub stream_values : Outgoing → Map Value
unfolding put_headers put_key
stream_values out = put_headers out.headers (
    put_key out.key
      ((field_payload, bytes out.body) ∷ (field_content_type, string out.content_type) ∷ []))

-- The arguments of XADD; `max_len` is 0 without trimming.
pub record XAddArgs : Type 0 where
  pub stream : Text
  pub values : Map Value
  pub max_len : ℤ

pub data Command : Type 0 where
  xadd : XAddArgs → Command
  publish_to : Text → Text → Command

-- `encode` makes the envelope of `PubSub`.
unfoldable pub publish_command :
    {Client : Type 0} → (Outgoing → Text) → Publisher Client → Outgoing → Command
unfolding stream_values
publish_command encode p out = elim p.mode [
  | pubsub ↦ publish_to out.topic (encode out)
  | streams ↦ xadd (record {
    stream = out.topic;
    values = stream_values out;
    max_len = if ltb_ℤ (pos 0) p.max_len then p.max_len else pos 0;
  })
]

-- What `Publish` returns, and what it gives to `onErr`, if there is one.
unfoldable pub publish :
    {Client E : Type 0}
    → (Outgoing → Text)
    → (Command → Option E)
    → Bool
    → Publisher Client
    → Outgoing
    → Option E × Option E
unfolding publish_command
publish encode send has_on_err p out =
    let answer = send (publish_command encode p out) in
    (answer, if has_on_err then answer else none)

-- An entry that the server hands out.
pub record Entry : Type 0 where
  pub id : Text
  pub values : Map Value

unfoldable pub body_of : Option Value → Text
body_of (some (string t)) = t
body_of (some (bytes t)) = t
body_of (some (other t)) = []
body_of none = []

-- The methods of `streamIncoming` that read.
unfoldable pub stream_incoming : Text → Entry → Incoming
unfolding str header_field body_of lookup
stream_incoming stream entry = record {
  topic = stream;
  key = str (lookup field_key entry.values);
  content_type = str (lookup field_content_type entry.values);
  header = λ k. str (lookup (header_field k) entry.values);
  body = body_of (lookup field_payload entry.values);
}

-- `strings.HasPrefix` and `strings.TrimPrefix` with the prefix of a header.
unfoldable pub header_of : Text → Option Text
header_of (a ∷ b ∷ k) = if a == 104 && b == 46 then some k else none
header_of _ = none

unfoldable pub header_names : Map Value → List Text
unfolding header_of
header_names [] = []
header_names ((f, v) ∷ values) = elim (header_of f) [
  | none ↦ header_names values
  | some k ↦ k ∷ header_names values
]
