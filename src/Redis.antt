-- ===== src/Redis.antt =====
-- runtime/redis/redis.go: the broker runtime for Redis.
--
-- The client is a package that is not here: a command is a value, and what the server answers comes
-- in as an argument. A client and a connection are not modelled beyond who owns them, and logs and
-- waiting times are left out.
pub mod Config
pub mod Streams
pub mod PubSub
pub mod Reclaimer
pub mod Reading
mod Tests
use agen.Prelude.{
  ℕ, ◌*◌, ◌^◌, Bool, true, false, ◌&&◌, List, Option, none, some, ◌==◌, if◌then◌else◌,
}
use agen.Prelude.Int.{ℤ, pos, negsuc, ltb_ℤ}
use agen.Prelude.Result.{Result, ok, err, ◌>>=◌, ◌>>◌, reject}
use agen.Prelude.Text.{Text, text, eq_text, is_empty}

pub data RedisError : Type 0 where
  invalid_mode : Text → RedisError
  max_len_needs_streams addr_required no_addresses group_required : RedisError

pub data Mode : Type 0 where
  streams pubsub : Mode

-- A `Mode` of the configuration is a string.
unfoldable pub parse_mode : Text → Result RedisError Mode
unfolding eq_text
parse_mode m =
    if is_empty m
    then ok streams
    else if eq_text m (text "streams")
    then ok streams
    else if eq_text m (text "pubsub")
    then ok pubsub
    else err (invalid_mode m)

unfoldable pub is_pubsub : Mode → Bool
is_pubsub streams = false
is_pubsub pubsub = true

unfoldable pub is_streams : Mode → Bool
is_streams streams = true
is_streams pubsub = false

pub record Security : Type 0 where
  pub username : Text
  pub password : Text
  pub tls : Bool
  pub insecure_skip_verify : Bool

-- TLS 1.2 at least.
unfoldable pub tls_config : Security → Option (ℕ × Bool)
tls_config s = if s.tls then some (771, s.insecure_skip_verify) else none

-- The options of a connection that the backend opens.
pub record Options : Type 0 where
  pub addr : Text
  pub username : Text
  pub password : Text
  pub tls_options : Option (ℕ × Bool)

unfoldable pub new_client : Text → Security → Options
unfolding tls_config
new_client addr s = record {
  addr = addr;
  username = s.username;
  password = s.password;
  tls_options = tls_config s;
}

-- A client is the caller's, or the backend's own.
pub data Connection (Client : Type 0) : Type 0 where
  given : Client → Connection Client
  own : Options → Connection Client

unfoldable pub connect :
    {Client : Type 0} → Option Client → Text → Security → Result RedisError (Connection Client)
unfolding new_client
connect (some client) addr s = ok (given client)
connect none addr s = if is_empty addr then err addr_required else ok (own (new_client addr s))

-- `Close` closes only a client of its own.
unfoldable pub closes : {Client : Type 0} → Connection Client → Bool
closes (given client) = false
closes (own options) = true

pub record PublisherConfig (Client : Type 0) : Type 0 where
  pub addr : Text
  pub mode : Text
  pub max_len : ℤ
  pub security : Security
  pub client : Option Client

pub record Publisher (Client : Type 0) : Type 0 where
  pub connection : Connection Client
  pub mode : Mode
  pub max_len : ℤ

unfoldable pub new_publisher :
    {Client : Type 0} → PublisherConfig Client → Result RedisError (Publisher Client)
unfolding parse_mode is_pubsub connect
new_publisher cfg = do
  mode ← parse_mode cfg.mode
  reject (is_pubsub mode && ltb_ℤ (pos 0) cfg.max_len) max_len_needs_streams
  connection ← connect cfg.client cfg.addr cfg.security
  ok (record { connection = connection; mode = mode; max_len = cfg.max_len })

-- Durations in nanoseconds; integers that the configuration leaves at 0 get a default.
pub record ConsumerConfig (Client : Type 0) : Type 0 where
  pub addr : Text
  pub mode : Text
  pub addresses : List Text
  pub group : Text
  pub consumer : Text
  pub security : Security
  pub block : ℤ
  pub count : ℤ
  pub claim_min_idle : ℤ
  pub max_deliveries : ℤ
  pub dead_letter : Bool
  pub client : Option Client

pub record Consumer (Client : Type 0) : Type 0 where
  pub connection : Connection Client
  pub mode : Mode
  pub addresses : List Text
  pub group : Text
  pub consumer : Text
  pub block : ℤ
  pub count : ℤ
  pub claim_min_idle : ℤ
  pub max_deliveries : ℤ
  pub dead_letter : Bool

unfoldable pub default_to : ℤ → ℤ → ℤ
default_to d (pos n) = if n == 0 then d else pos n
default_to d (negsuc n) = negsuc n

unfoldable pub seconds : ℕ → ℤ
seconds n = pos (n * 10 ^ 9)

-- `name` is the consumer name that the code makes from the clock.
unfoldable pub new_consumer :
    {Client : Type 0} → Text → ConsumerConfig Client → Result RedisError (Consumer Client)
unfolding parse_mode is_streams connect default_to seconds
new_consumer name cfg = do
  mode ← parse_mode cfg.mode
  reject (is_empty cfg.addresses) no_addresses
  reject (is_streams mode && is_empty cfg.group) group_required
  connection ← connect cfg.client cfg.addr cfg.security
  ok (record {
    connection = connection;
    mode = mode;
    addresses = cfg.addresses;
    group = cfg.group;
    consumer = if is_empty cfg.consumer then name else cfg.consumer;
    block = default_to (seconds 5) cfg.block;
    count = default_to (pos 10) cfg.count;
    claim_min_idle = default_to (seconds 30) cfg.claim_min_idle;
    max_deliveries = cfg.max_deliveries;
    dead_letter = cfg.dead_letter;
  })
