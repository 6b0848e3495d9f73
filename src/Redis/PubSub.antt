-- ===== src/Redis/PubSub.antt =====
-- runtime/redis/redis.go: pub/sub messages as JSON envelopes.
use agen.Prelude.{◌≡◌, Option, none, some}
use agen.Prelude.Text.{Text, Map, text, lookup}
use agen.Broker.{Outgoing, Incoming, or_empty, received}

pub record PubsubEnvelope : Type 0 where
  pub payload : Text
  pub content_type : Text
  pub key : Text
  pub headers : Map Text

unfoldable pub envelope : Outgoing → PubsubEnvelope
envelope out = record {
  payload = out.body;
  content_type = out.content_type;
  key = out.key;
  headers = out.headers;
}

-- The methods of `pubsubIncoming` that read.
unfoldable pub pubsub_incoming : Text → PubsubEnvelope → Incoming
unfolding or_empty lookup
pubsub_incoming channel env = record {
  topic = channel;
  key = env.key;
  content_type = env.content_type;
  header = λ k. or_empty (lookup k env.headers);
  body = env.payload;
}

unfoldable pub or_null : Option Text → Text
or_null none = text "{\"payload\":null}"
or_null (some b) = b

unfoldable pub read_as : Text → Option PubsubEnvelope → Option Incoming
unfolding pubsub_incoming
read_as channel none = none
read_as channel (some env) = some (pubsub_incoming channel env)

-- The standard library's JSON encoder and decoder for the envelope.
module _ (marshal : PubsubEnvelope → Option Text) (unmarshal : Text → Option PubsubEnvelope) where
  unfoldable pub encode_pubsub_envelope : Outgoing → Text
  unfolding or_null envelope
  encode_pubsub_envelope out = or_null (marshal (envelope out))

  -- `none` is the error "decode envelope".
  unfoldable pub decode_pubsub_envelope : Text → Text → Option Incoming
  unfolding read_as
  decode_pubsub_envelope channel payload = read_as channel (unmarshal payload)

  -- For an envelope that the encoder encodes and the decoder reads back, as it does if the texts of
  -- the envelope are UTF-8, the message that is received from the channel has the topic, the key,
  -- the content type, the headers and the body of the message that was published to it.
  pub decode-encode :
      (out : Outgoing) (b : Text)
      → marshal (envelope out) ≡ some b
      → unmarshal b ≡ some (envelope out)
      → decode_pubsub_envelope out.topic (encode_pubsub_envelope out) ≡ some (received out)
  unfolding decode_pubsub_envelope encode_pubsub_envelope read_as or_null received
  decode-encode out b encoded read = rw (encoded, read)
