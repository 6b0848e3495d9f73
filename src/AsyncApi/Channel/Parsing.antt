-- ===== src/AsyncApi/Channel/Parsing.antt =====
-- asyncapi/parser/parse_operation.go: parseChannel, and references to channels with their cache.
pub mod Sharing
pub mod Declared
use agen.Prelude.{ℕ, not, List, [], ◌∷◌, Option, none, some, if◌then◌else◌}
use agen.Prelude.Result.{ok, err, ◌>>=◌, ◌>>◌, reject}
use agen.Prelude.Text.{Text, Map, lookup, insert, is_empty}
use agen.AsyncApi.{
  Parsed, cannot_resolve, cannot_decode, address_required, invalid_redis, out_of_fuel, Pointers,
  or_err,
}
use agen.AsyncApi.Address.{validate_address_params}
use agen.AsyncApi.RedisBinding.{Yaml, Binding, Checked, parse_redis_channel_binding}
use agen.AsyncApi.Message.{MessageRef, Message, Reader}
use agen.AsyncApi.Message.Pointer.{
  Store, alloc, cache, ptr_last_segment, sorted_entries, parse_messages_map,
}
use agen.AsyncApi.Channel.{
  ParameterRef, Parameter, RawChannel, ChannelRef, Channel, State, parse_server_ref,
  parse_parameter,
}
use agen.AsyncApi.Channel.Traits.{Document, merge_channel_traits}

-- An error of the redis bindings.
unfoldable pub redis_or_err {ℓ} : {A : Type ℓ} → Checked A → Parsed A
redis_or_err (ok a) = ok a
redis_or_err (err e) = err (invalid_redis e)

-- The check of the address; the loop over its tokens always has enough fuel.
unfoldable pub address_or_err : Option (Parsed (Unit {0})) → Parsed (Unit {0})
address_or_err none = err out_of_fuel
address_or_err (some r) = r

abbrev and_server : Parsed Text → List Text → List Text
and_server (err e) servers = servers
and_server (ok name) servers = name ∷ servers

module _ (p : Pointers) where
  -- The servers of a channel, less those that cannot be resolved.
  unfoldable pub channel_servers : p.Ctx → List (Option Text) → List Text
  unfolding parse_server_ref
  channel_servers ctx [] = []
  channel_servers ctx (none ∷ servers) = channel_servers ctx servers
  channel_servers ctx (some ref ∷ servers) =
      and_server (parse_server_ref p ctx ref) (channel_servers ctx servers)

  module _ {B Tag Node MessageRefs : Type 0} (d : Document p B Tag Node MessageRefs) where
    -- The loop over the parameters of a channel, in the order of `sortedKeys`.
    unfoldable pub parse_parameters :
        p.Ctx
        → Map (Option ParameterRef)
        → Map ℕ
        → Store Parameter
        → Parsed (Map ℕ × Store Parameter)
    unfolding parse_parameter insert
    parse_parameters ctx [] dst st = ok (dst, st)
    parse_parameters ctx ((pname, none) ∷ refs) dst st = parse_parameters ctx refs dst st
    parse_parameters ctx ((pname, some pref) ∷ refs) dst st = do
      parsed ← parse_parameter p d.decode_parameter ctx pname pref st
      parse_parameters ctx refs (insert pname (parsed.0) dst) (parsed.1)

-- The channel before its traits are merged.
unfoldable pub initial_channel :
    {B Tag Node MessageRefs : Type 0}
    → Text
    → RawChannel B Tag Node MessageRefs
    → List Text
    → Channel B Tag Node
initial_channel name raw servers = record {
  name_of = name;
  address = raw.address;
  title_of = raw.title_of;
  summary_of = raw.summary_of;
  description_of = raw.description_of;
  messages_of = [];
  parameters_of = [];
  servers_of = servers;
  bindings_of = raw.bindings_of;
  redis = none;
  tags_of = raw.tags_of;
  extensions = raw.extensions;
}

module _ {MessageBinding Correlation Tag RawSchema Schema : Type 0}
    (w : Reader MessageBinding Correlation Tag RawSchema Schema) (y : Yaml)
    (d : Document w.pointers
      (Binding y)
      Tag
      y.Node
      (MessageRef MessageBinding Correlation Tag RawSchema Schema)) where
  open w use {pointers}
  open pointers use {Ctx, Key, key, add_key, ptr, resolve}

  abbrev pub ParsedChannel : Type 0
  ParsedChannel = Channel (Binding y) Tag y.Node

  abbrev pub Raw : Type 0
  Raw =
      RawChannel (Binding y) Tag y.Node (MessageRef MessageBinding Correlation Tag RawSchema Schema)

  abbrev pub Parser : Type 0
  Parser = State Ctx (Message MessageBinding Correlation Tag RawSchema Schema) ParsedChannel

  -- The messages, where a channel has some; `n` is fuel for their references.
  unfoldable pub channel_messages : ℕ → Raw → Parser → Parsed (List ℕ × Parser)
  unfolding parse_messages_map
  channel_messages n raw st =
      if is_empty raw.messages_of
      then ok ([], st)
      else (parse_messages_map w n st.ctx raw.messages_of st.messages >>= λ parsed.
          ok (parsed.0, record st { messages = parsed.1 }))

  -- The steps behind the traits.
  unfoldable pub finish_channel : ℕ → Raw → ParsedChannel → Parser → Parsed (ParsedChannel × Parser)
  unfolding redis_or_err parse_redis_channel_binding parse_parameters sorted_entries
      channel_messages address_or_err validate_address_params
  finish_channel n raw semantic st = do
    redis' ← redis_or_err (parse_redis_channel_binding y semantic.bindings_of raw.extensions)
    params ← parse_parameters pointers d st.ctx (sorted_entries raw.parameters_of) [] st.parameters
    msgs ← channel_messages n raw (record st { parameters = params.1 })
    address_or_err (validate_address_params semantic.address (params.0))
    ok (record semantic { redis = redis'; parameters_of = params.0; messages_of = msgs.0 }, msgs.1)

  unfoldable pub parse_channel : ℕ → Text → Raw → Parser → Parsed (ParsedChannel × Parser)
  unfolding initial_channel channel_servers merge_channel_traits finish_channel
  parse_channel n name raw st = do
    reject (is_empty raw.address) address_required
    merged ←
        merge_channel_traits pointers d raw.traits_of
          (initial_channel name raw (channel_servers pointers st.ctx raw.servers_of)) st
    finish_channel n raw (merged.0) (merged.1)

  -- `&Channel{…}`
  unfoldable pub store_channel : ParsedChannel × Parser → ℕ × Parser
  unfolding alloc
  store_channel (c, st) =
      let stored = alloc c st.channels in (stored.0, record st { channels = stored.1 })

  -- `p.channels[key.Ptr] = semantic`, and the deferred `ctx.Delete(key)`.
  unfoldable pub keep_channel : Key → ParsedChannel × Parser → ℕ × Parser
  unfolding alloc cache
  keep_channel k (c, st) =
      let kept = cache (ptr k) (alloc c st.channels) in
      (kept.0, record st { ctx = d.delete st.ctx k; channels = kept.1 })

  -- Behind a miss in the cache.
  unfoldable pub load_channel : ℕ → Text → Key → Parser → Parsed (ℕ × Parser)
  unfolding or_err ptr_last_segment parse_channel keep_channel
  load_channel n ref k st = do
    inner ← or_err (cannot_resolve ref) (add_key st.ctx k)
    node ← or_err (cannot_resolve ref) (resolve (ptr k))
    raw ← or_err (cannot_decode ref) (d.decode_channel node)
    parsed ← parse_channel n (ptr_last_segment (ptr k)) raw (record st { ctx = inner })
    ok (keep_channel k parsed)

  unfoldable pub cached_channel : ℕ → Text → Key → Parser → Option ℕ → Parsed (ℕ × Parser)
  unfolding load_channel
  cached_channel n ref k st (some i) = ok (i, st)
  cached_channel n ref k st none = load_channel n ref k st

  unfoldable pub parse_channel_pointer : ℕ → Text → Parser → Parsed (ℕ × Parser)
  unfolding or_err cached_channel lookup
  parse_channel_pointer n ref st = do
    k ← or_err (cannot_resolve ref) (key st.ctx ref)
    cached_channel n ref k st (lookup (ptr k) st.channels.cached)

  -- An inline channel is named after its operation, and not cached.
  unfoldable pub parse_channel_ref :
      ℕ
      → Text
      → ChannelRef
          (Binding y)
          Tag
          y.Node
          (MessageRef MessageBinding Correlation Tag RawSchema Schema)
      → Parser
      → Parsed (ℕ × Parser)
  unfolding parse_channel_pointer parse_channel store_channel
  parse_channel_ref n inline_name ref st =
      if not (is_empty ref.ref)
      then parse_channel_pointer n ref.ref st
      else (parse_channel n inline_name ref.channel st >>= λ parsed. ok (store_channel parsed))
