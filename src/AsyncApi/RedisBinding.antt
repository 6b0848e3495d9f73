-- ===== src/AsyncApi/RedisBinding.antt =====
-- asyncapi/parser/parse_redis.go: the typed `x-redis` extension of channels and operations.
--
-- The YAML package is a parameter: the kind of a node, its tag, and what `Decode` reads from it into a
-- string, an int64 or a map (`none` is an error). The location that wraps an error is not modelled.
pub mod Sound
use agen.Prelude.{
  Bool, true, false, not, ◌&&◌, ◌||◌, List, [], ◌∷◌, Option, none, some, ◌==◌, if◌then◌else◌,
}
use agen.Prelude.Result.{Result, ok, err, ◌>>=◌, ◌>>◌, reject}
use agen.Prelude.Int.{ℤ, pos, ltb_ℤ}
use agen.Prelude.Text.{Text, text, Map, is_empty, eq_text, lookup, insert}

pub data Kind : Type 0 where
  scalar mapping sequence alias : Kind

pub record Yaml : Type 1 where
  pub Node : Type 0
  pub is_zero : Node → Bool
  pub kind : Node → Kind
  pub tag : Node → Text
  pub decode_string : Node → Option Text
  pub decode_int : Node → Option ℤ
  pub decode_map : Node → Option (Map Node)

pub data RedisError : Type 0 where
  unpublished_binding must_be_mapping version_must_be_string : RedisError
  must_be_string must_be_integer unknown_field unsupported_version bad_type : Text → RedisError
  type_required max_len_on_pubsub max_len_too_small : RedisError
  group_not_on_receive group_needs_stream : RedisError

abbrev pub Checked {ℓ} : Type ℓ → Type ℓ
Checked A = Result RedisError A

abbrev pub redis_type_stream : Text
redis_type_stream = text "stream"

abbrev pub redis_type_pubsub : Text
redis_type_pubsub = text "pubsub"

abbrev pub redis_binding_version : Text
redis_binding_version = text "0.2.0"

abbrev pub x_redis_extension : Text
x_redis_extension = text "x-redis"

pub record RedisChannelBinding : Type 0 where
  pub type_of : Text
  pub max_len : ℤ
  pub binding_version : Text

pub record RedisOperationBinding : Type 0 where
  pub consumer_group : Text
  pub binding_version : Text

pub data Action : Type 0 where
  send receive : Action

-- `len(k) > 1 && k[0] == 'x' && k[1] == '-'`: a nested specification extension.
unfoldable pub is_nested : Text → Bool
is_nested (a ∷ b ∷ k) = a == b'x' && b == b'-'
is_nested _ = false

abbrev pub is_some {ℓ} : {A : Type ℓ} → Option A → Bool
is_some none = false
is_some (some a) = true

unfoldable pub contains : List Text → Text → Bool
unfolding eq_text
contains [] k = false
contains (j ∷ known) k = eq_text k j || contains known k

module _ (y : Yaml) where
  open y use {Node, is_zero, kind, tag, decode_string, decode_int, decode_map}

  pub record RedisExtensionFields : Type 0 where
    pub fields : Map Node
    pub version : Text
    pub has_field : Bool

  -- An object under `bindings.redis`.
  pub record Binding : Type 0 where
    pub fields : Map Node
    pub binding_version : Text

  unfoldable pub has : RedisExtensionFields → Text → Bool
  has f key = is_some (lookup key f.fields)

  unfoldable pub read_string : Text → Option Node → Text → Checked Text
  read_string key none dst = ok dst
  read_string key (some n) dst = elim (decode_string n) [
    | none ↦ err (must_be_string key)
    | some v ↦ ok v
  ]

  -- `string`: the field, or what was there before where it is missing.
  unfoldable pub string_field : RedisExtensionFields → Text → Text → Checked Text
  unfolding read_string
  string_field f key dst = read_string key (lookup key f.fields) dst

  abbrev is_scalar : Kind → Bool
  is_scalar scalar = true
  is_scalar _ = false

  abbrev is_mapping : Kind → Bool
  is_mapping mapping = true
  is_mapping _ = false

  unfoldable pub read_integer : Text → Option Node → ℤ → Checked ℤ
  read_integer key none dst = ok dst
  read_integer key (some n) dst =
      if not (is_scalar (kind n)) || not (eq_text (tag n) (text "!!int"))
      then err (must_be_integer key)
      else elim (decode_int n) [ none ↦ err (must_be_integer key) | some v ↦ ok v ]

  unfoldable pub integer_field : RedisExtensionFields → Text → ℤ → Checked ℤ
  unfolding read_integer
  integer_field f key dst = read_integer key (lookup key f.fields) dst

  unfoldable pub check_known : List Text → Map Node → Checked (Unit {0})
  unfolding is_nested contains
  check_known known [] = ok tt
  check_known known ((k, n) ∷ rest) =
      let later = check_known known rest in
      if is_nested k then later else if contains known k then later else err (unknown_field k)

  unfoldable pub check_unknown_fields : RedisExtensionFields → List Text → Checked (Unit {0})
  unfolding check_known
  check_unknown_fields f known = check_known known f.fields

  unfoldable pub check_binding_version : RedisExtensionFields → Checked (Unit {0})
  unfolding eq_text
  check_binding_version f =
      reject (not (is_empty f.version || eq_text f.version redis_binding_version))
        (unsupported_version f.version)

  unfoldable pub add_version : RedisExtensionFields → Option Text → Checked RedisExtensionFields
  add_version out none = err version_must_be_string
  add_version out (some v) = ok (record out { version = v })

  -- One round of the loop of `xRedisExtensionFields`.
  unfoldable pub add_field : RedisExtensionFields → Text → Node → Checked RedisExtensionFields
  unfolding add_version is_nested eq_text
  add_field out k v =
      if eq_text k (text "bindingVersion")
      then add_version out (decode_string v)
      else if is_nested k
      then ok out
      else ok (record out { fields = insert k v out.fields; has_field = true })

  unfoldable pub add_fields : RedisExtensionFields → Map Node → Checked RedisExtensionFields
  unfolding add_field
  add_fields out [] = ok out
  add_fields out ((k, v) ∷ raw) = do out' ← add_field out k v; add_fields out' raw

  abbrev no_fields : RedisExtensionFields
  no_fields = record { fields = []; version = []; has_field = false }

  unfoldable pub read_fields : Option (Map Node) → Checked (Option RedisExtensionFields)
  unfolding add_fields
  read_fields none = err must_be_mapping
  read_fields (some raw) = do out ← add_fields no_fields raw; ok (some out)

  unfoldable pub extension_fields : Option Node → Checked (Option RedisExtensionFields)
  unfolding read_fields
  extension_fields none = ok none
  extension_fields (some extension) =
      if is_zero extension
      then ok none
      else if not (is_mapping (kind extension))
      then err must_be_mapping
      else read_fields (decode_map extension)

  -- A missing extension, or nil extensions, is the zero node.
  unfoldable pub x_redis_extension_fields : Map Node → Checked (Option RedisExtensionFields)
  unfolding extension_fields
  x_redis_extension_fields extensions = extension_fields (lookup x_redis_extension extensions)

  unfoldable pub reject_unpublished_binding : Option (Option Binding) → Checked (Unit {0})
  unfolding eq_text
  reject_unpublished_binding none = ok tt
  reject_unpublished_binding (some none) = ok tt
  reject_unpublished_binding (some (some b)) =
      reject (not (is_empty b.fields && not (eq_text b.binding_version redis_binding_version)))
        unpublished_binding

  -- The checks of the channel binding behind the version.
  unfoldable pub check_channel :
      RedisExtensionFields → RedisChannelBinding → Checked (Option RedisChannelBinding)
  unfolding has eq_text
  check_channel f out = do
    reject (not (has f (text "type"))) type_required
    reject
        (not (eq_text out.type_of redis_type_stream) && not (eq_text out.type_of redis_type_pubsub))
        (bad_type out.type_of)
    reject (has f (text "maxLen") && eq_text out.type_of redis_type_pubsub) max_len_on_pubsub
    reject (has f (text "maxLen") && ltb_ℤ out.max_len (pos 1)) max_len_too_small
    ok (some out)

  unfoldable pub channel_binding :
      Option RedisExtensionFields → Checked (Option RedisChannelBinding)
  unfolding string_field integer_field check_unknown_fields check_binding_version check_channel
  channel_binding none = ok none
  channel_binding (some f) = do
    type' ← string_field f (text "type") []
    max_len' ← integer_field f (text "maxLen") (pos 0)
    check_unknown_fields f (text "type" ∷ text "maxLen" ∷ [])
    if not f.has_field then ok none else do
      check_binding_version f
      check_channel f (record { type_of = type'; max_len = max_len'; binding_version = f.version })

  unfoldable pub parse_redis_channel_binding :
      Map (Option Binding) → Map Node → Checked (Option RedisChannelBinding)
  unfolding reject_unpublished_binding x_redis_extension_fields channel_binding
  parse_redis_channel_binding bindings extensions = do
    reject_unpublished_binding (lookup (text "redis") bindings)
    f ← x_redis_extension_fields extensions
    channel_binding f

  unfoldable pub operation_binding :
      Option RedisExtensionFields → Checked (Option RedisOperationBinding)
  unfolding string_field check_unknown_fields check_binding_version
  operation_binding none = ok none
  operation_binding (some f) = do
    group ← string_field f (text "consumerGroup") []
    check_unknown_fields f (text "consumerGroup" ∷ [])
    if not f.has_field then ok none else do
      check_binding_version f
      ok (some (record { consumer_group = group; binding_version = f.version }))

  unfoldable pub parse_redis_operation_binding :
      Map (Option Binding) → Map Node → Checked (Option RedisOperationBinding)
  unfolding reject_unpublished_binding x_redis_extension_fields operation_binding
  parse_redis_operation_binding bindings extensions = do
    reject_unpublished_binding (lookup (text "redis") bindings)
    f ← x_redis_extension_fields extensions
    operation_binding f

-- `op.Channel == nil || op.Channel.Redis == nil || op.Channel.Redis.Type != RedisTypeStream`; a channel
-- is given by its binding.
unfoldable pub is_stream : Option (Option RedisChannelBinding) → Bool
unfolding eq_text
is_stream (some (some b)) = eq_text b.type_of redis_type_stream
is_stream _ = false

abbrev pub is_receive : Action → Bool
is_receive receive = true
is_receive send = false

unfoldable pub validate_redis_operation_binding :
    Option RedisOperationBinding → Action → Option (Option RedisChannelBinding) → Checked (Unit {0})
unfolding is_stream
validate_redis_operation_binding none action channel = ok tt
validate_redis_operation_binding (some r) action channel =
    if is_empty r.consumer_group then ok tt else do
      reject (not (is_receive action)) group_not_on_receive
      reject (not (is_stream channel)) group_needs_stream
