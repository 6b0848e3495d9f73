-- ===== src/Broker.antt =====
-- runtime/broker: the messages that backends and generated code exchange, and the chain of middlewares.
pub mod Chain
mod Tests
use agen.Prelude.{[], Option, none, some}
use agen.Prelude.Text.{Text, Map, lookup}

pub record Outgoing : Type 0 where
  pub topic : Text
  pub key : Text
  pub content_type : Text
  pub headers : Map Text
  pub body : Text

-- What the methods of a received message return. `Ack` and `Nack` are the backend's.
pub record Incoming : Type 0 where
  pub topic : Text
  pub key : Text
  pub content_type : Text
  pub header : Text → Text
  pub body : Text

unfoldable pub or_empty : Option Text → Text
or_empty none = []
or_empty (some t) = t

-- A message as it is to arrive: a header that it lacks reads as the empty text.
unfoldable pub received : Outgoing → Incoming
unfolding or_empty lookup
received out = record {
  topic = out.topic;
  key = out.key;
  content_type = out.content_type;
  header = λ k. or_empty (lookup k out.headers);
  body = out.body;
}
