-- ===== src/AsyncApi/Channel.antt =====
-- asyncapi/parser/parse_operation.go: channels, with the state of the parser.
--
-- A `*Channel`, `*Parameter` or `*Message` is its place in the heap of its `Store`. The context is a
-- part of the state, since the code leaves a key behind in it.
pub mod Traits
pub mod Parsing
pub mod Storing
pub mod Growing
pub mod Built
pub mod Decoded
pub mod WellFormed
pub mod Referred
pub mod Renamed
use agen.Prelude.{ℕ, not, List, Option, none, some, if◌then◌else◌}
use agen.Prelude.Result.{ok, ◌>>=◌, ◌>>◌}
use agen.Prelude.Text.{Text, Map, lookup, is_empty}
use agen.AsyncApi.{Parsed, cannot_resolve, cannot_decode, Pointers, or_err}
use agen.AsyncApi.RedisBinding
use agen.AsyncApi.RedisBinding.{RedisChannelBinding}
use agen.AsyncApi.Message.Pointer.{Store, alloc, cache, update, ptr_last_segment}

-- `asyncapi.Parameter` and `asyncapi.ParameterRef`
pub record RawParameter : Type 0 where
  pub enum_of : List Text
  pub default_of : Text
  pub description_of : Text
  pub location_of : List Text

pub record ParameterRef : Type 0 where
  pub ref : Text
  pub parameter : RawParameter

-- `Parameter` of asyncapi/parser/api.go
pub record Parameter : Type 0 where
  pub name_of : Text
  pub enum_of : List Text
  pub default_of : Text
  pub description_of : Text
  pub location_of : List Text

module _ (Binding Tag Node MessageRefs : Type 0) where
  -- `asyncapi.ChannelTrait`; `none` is nil, and a `ServerRef` is its reference.
  pub record ChannelTrait : Type 0 where
    pub ref : Text
    pub title_of : Text
    pub summary_of : Text
    pub description_of : Text
    pub servers_of : List (Option Text)
    pub parameters_of : Map (Option ParameterRef)
    pub bindings_of : Map (Option Binding)

  -- `asyncapi.Channel` and `asyncapi.ChannelRef`
  pub record RawChannel : Type 0 where
    pub address : Text
    pub servers_of : List (Option Text)
    pub messages_of : Map (Option MessageRefs)
    pub parameters_of : Map (Option ParameterRef)
    pub title_of : Text
    pub summary_of : Text
    pub description_of : Text
    pub bindings_of : Map (Option Binding)
    pub tags_of : List Tag
    pub traits_of : List (Option ChannelTrait)
    pub extensions : Map Node

  pub record ChannelRef : Type 0 where
    pub ref : Text
    pub channel : RawChannel

module _ (Binding Tag Node : Type 0) where
  -- `Channel` of asyncapi/parser/api.go
  pub record Channel : Type 0 where
    pub name_of : Text
    pub address : Text
    pub title_of : Text
    pub summary_of : Text
    pub description_of : Text
    pub messages_of : List ℕ
    pub parameters_of : Map ℕ
    pub servers_of : List Text
    pub bindings_of : Map (Option Binding)
    pub redis : Option RedisChannelBinding
    pub tags_of : List Tag
    pub extensions : Map Node

module _ (Ctx M C : Type 0) where
  -- The state of `parser`, and the context.
  pub record State : Type 0 where
    pub ctx : Ctx
    pub parameters : Store Parameter
    pub channels : Store C
    pub messages : Store M

-- `parameterFrom`
unfoldable pub parameter_from : Text → RawParameter → Parameter
parameter_from name raw = record {
  name_of = name;
  enum_of = raw.enum_of;
  default_of = raw.default_of;
  description_of = raw.description_of;
  location_of = raw.location_of;
}

-- `param.Name = pname`
abbrev pub rename : Text → Parameter → Parameter
rename name param = record param { name_of = name }

module _ (p : Pointers) where
  open p use {Ctx, Key, Node, key, add_key, ptr, resolve}

  -- `parseServerRef`
  unfoldable pub parse_server_ref : Ctx → Text → Parsed Text
  unfolding or_err ptr_last_segment
  parse_server_ref ctx ref = do
    k ← or_err (cannot_resolve ref) (key ctx ref)
    inner ← or_err (cannot_resolve ref) (add_key ctx k)
    node ← or_err (cannot_resolve ref) (resolve (ptr k))
    ok (ptr_last_segment (ptr k))

  module _ (decode : Node → Option RawParameter) where
    -- Behind a miss in the cache.
    unfoldable pub load_parameter :
        Ctx → Text → Key → Store Parameter → Parsed (ℕ × Store Parameter)
    unfolding or_err parameter_from ptr_last_segment alloc cache
    load_parameter ctx ref k st = do
      inner ← or_err (cannot_resolve ref) (add_key ctx k)
      node ← or_err (cannot_resolve ref) (resolve (ptr k))
      raw ← or_err (cannot_decode ref) (decode node)
      ok (cache (ptr k) (alloc (parameter_from (ptr_last_segment (ptr k)) raw) st))

    unfoldable pub cached_parameter :
        Ctx → Text → Key → Store Parameter → Option ℕ → Parsed (ℕ × Store Parameter)
    unfolding load_parameter
    cached_parameter ctx ref k st (some i) = ok (i, st)
    cached_parameter ctx ref k st none = load_parameter ctx ref k st

    unfoldable pub parse_parameter_pointer :
        Ctx → Text → Store Parameter → Parsed (ℕ × Store Parameter)
    unfolding or_err cached_parameter lookup
    parse_parameter_pointer ctx ref st = do
      k ← or_err (cannot_resolve ref) (key ctx ref)
      cached_parameter ctx ref k st (lookup (ptr k) st.cached)

    -- A parameter of a channel or a trait, under its name there. A referenced one is renamed where it
    -- is, in the cache.
    unfoldable pub parse_parameter :
        Ctx → Text → ParameterRef → Store Parameter → Parsed (ℕ × Store Parameter)
    unfolding parse_parameter_pointer update parameter_from alloc
    parse_parameter ctx name pref st =
        if not (is_empty pref.ref)
        then (parse_parameter_pointer ctx pref.ref st >>= λ found.
            ok (found.0, update (found.0) (rename name) (found.1)))
        else ok (alloc (parameter_from name pref.parameter) st)
