-- ===== src/Redis/Config.antt =====
-- What the two constructors accept.
use agen.Prelude.{◌≢◌, ◌≡◌, ◌↔◌, false, ◌&&◌, Option, none, some, arith}
use agen.Prelude.Result.{ok}
use agen.Prelude.Int.{pos, ltb_ℤ}
use agen.Prelude.Text.{Text, is_empty}
use agen.Redis.{
  parse_mode, is_pubsub, is_streams, Security, new_client, Connection, given, own, connect,
  PublisherConfig, Publisher, new_publisher, ConsumerConfig, Consumer, default_to, seconds,
  new_consumer,
}

-- The client that is given, or one for an address that is given.
pub Connects : {Client : Type 0} → Option Client → Text → Security → Connection Client → Type 0
Connects (some client) addr s c = c ≡ given client
Connects none addr s c = (is_empty addr ≡ false) × (c ≡ own (new_client addr s))

connect-Connects :
    {Client : Type 0} (client : Option Client) (addr : Text) (s : Security) (c : Connection Client)
    → (connect client addr s ≡ ok c) ↔ Connects client addr s c
unfolding connect Connects
connect-Connects (some client) addr s c = ground arith
connect-Connects none addr s c = ground arith

-- `NewPublisher` returns a publisher exactly if its mode is the one of the configuration, it trims
-- to the configuration's length, which is not positive outside the streams mode, and its connection
-- is the client that is given or one to the address that is given.
pub new_publisher-ok_iff :
    {Client : Type 0} (cfg : PublisherConfig Client) (p : Publisher Client)
    → (new_publisher cfg ≡ ok p)
      ↔ (parse_mode cfg.mode ≡ ok p.mode)
        × (p.max_len ≡ cfg.max_len)
        × (is_pubsub p.mode && ltb_ℤ (pos 0) cfg.max_len ≡ false)
        × Connects cfg.client cfg.addr cfg.security p.connection
unfolding new_publisher
new_publisher-ok_iff cfg p =
    ground (arith, connect-Connects cfg.client cfg.addr cfg.security p.connection)

-- The consumers that the loops need.
pub IsReady : {Client : Type 0} → Consumer Client → Type 0
IsReady c =
    (is_empty c.addresses ≡ false)
    × (is_streams c.mode && is_empty c.group ≡ false)
    × (is_empty c.consumer ≡ false)
    × (c.block ≢ pos 0)
    × (c.count ≢ pos 0)
    × (c.claim_min_idle ≢ pos 0)

-- Whatever the configuration, a consumer that `NewConsumer` returns has addresses, a group in the
-- streams mode, a name if the name made from the clock is not empty, and a count and times
-- that are not 0.
pub new_consumer-IsReady :
    {Client : Type 0} (name : Text) (cfg : ConsumerConfig Client) (c : Consumer Client)
    → is_empty name ≡ false
    → new_consumer name cfg ≡ ok c
    → IsReady c
unfolding new_consumer default_to seconds IsReady
new_consumer-IsReady name cfg c named returned = ground arith
