-- ===== src/Gen/Parts.antt =====
-- buildChannel, buildMessage and prettyDescription of gen/generator.go, and what buildOperation does to
-- find a channel or a message that is built.
--
-- The engine that lowers schemas to Go types is a parameter, with its state. Its `Generate` calls
-- nameSchemaRef, so it changes the names too. `interface` and `implement` stand for `ir.Interface` and
-- the method `Implement`, of internal/ir.
use agen.Prelude.{
  ℕ, ◌&&◌, List, [], ◌∷◌, ◌++◌, Option, none, some, if◌then◌else◌, ◌==◌, length, get_or_else,
}
use agen.Prelude.Result.{ok, err, ◌>>=◌}
use agen.Prelude.Text.{Text, text, Map, lookup, is_empty}
use agen.AsyncApi.Address.{address_tokens}
use agen.AsyncApi.RedisBinding.{Action, send, receive}
use agen.AsyncApi.Message
use agen.AsyncApi.Channel.{Parameter}
use agen.AsyncApi.Channel
use agen.Gen.{Generated, nil_dereference, generate_failed, save_failed}
use agen.Gen.Names.{GoNames, Names, go_name_of, reserve_name, split_from}
use agen.Gen.Ir

pub record Engine (Schema : Type 0) : Type 1 where
  pub State : Type 0
  pub GoType : Type 0
  pub generate : State → Names → Text → Schema → Option (GoType × State × Names)
  pub add_feature : State → GoType → Text → State
  -- The struct type of a message: its name, its description, its payload and its headers.
  pub envelope : State → Text → Text → Option GoType → Option GoType → GoType × State
  pub interface : State → Text → Text → GoType × State
  pub implement : State → GoType → GoType → State
  pub save_type : State → GoType → Option State

-- `strings.TrimRight(doc, "\n")`
unfoldable pub trim_newlines : Text → Text
trim_newlines [] = []
trim_newlines (c ∷ t) =
    let rest = trim_newlines t in if is_empty rest && c == 10 then [] else c ∷ rest

abbrev pub or_text : Text → Text → Text
or_text a b = if is_empty a then b else a

-- `prettyDescription`, from the description and the summary.
unfoldable pub pretty_description : Text → Text → List Text
unfolding trim_newlines split_from
pretty_description description summary =
    let doc = or_text description summary in
    if is_empty doc then [] else split_from 10 [] (trim_newlines doc)

unfoldable pub or_nil {ℓ} : {A : Type ℓ} → Option A → Generated A
or_nil none = err nil_dereference
or_nil (some a) = ok a

-- A map with pointers for keys.
unfoldable pub find : ℕ → List (ℕ × ℕ) → Option ℕ
find k [] = none
find k ((j, i) ∷ m) = if j == k then some i else find k m

-- `string(op.Action)`
abbrev pub action_text : Action → Text
action_text send = text "send"
action_text receive = text "receive"

module _ (MessageBinding Correlation Requirement B Tag Node RawSchema Schema : Type 0) where
  -- What the generator reads: the heaps that the parser leaves, the extensions of its messages, the
  -- value of a scalar node, the rules for names, and `naming.Capitalize`.
  pub record Model : Type 0 where
    pub channel_at : ℕ → Option (Channel.Channel B Tag Node)
    pub parameter_at : ℕ → Option Parameter
    pub message_at : ℕ → Option (Message.Message MessageBinding Correlation Tag RawSchema Schema)
    pub message_extensions : ℕ → Map Node
    pub scalar : Node → Option Text
    pub rules : GoNames
    pub capitalize : Text → Text

module _ {MessageBinding Correlation Requirement B Tag Node RawSchema Schema : Type 0}
    (model : Model MessageBinding Correlation Requirement B Tag Node RawSchema Schema)
    (engine : Engine Schema) where
  -- The parts of `Generator` that building changes, and `seenChannels`. A `*ir.Channel` or
  -- `*ir.Message` is its place in the list.
  pub record State : Type 0 where
    pub engine_state : engine.State
    pub names : Names
    pub channels : List Ir.Channel
    pub seen_channels : List (ℕ × ℕ)
    pub messages : List (Ir.Message engine.GoType)
    pub built_msgs : List (ℕ × ℕ)
    pub sum_types : Map engine.GoType

  unfoldable pub param_go_name : Text → Text
  param_go_name name =
      if model.rules.initialisms
      then get_or_else (model.capitalize name) (model.rules.pascal_special_initialisms name)
      else model.capitalize name

  unfoldable pub built_param : Parameter → Ir.ChannelParam
  unfolding param_go_name
  built_param p = record {
    name = p.name_of;
    go_name = param_go_name p.name_of;
    enum = p.enum_of;
    default = p.default_of;
    description = p.description_of;
  }

  -- The loop over the tokens of the address; one without a parameter is skipped.
  unfoldable pub channel_params : Map ℕ → List Text → Generated (List Ir.ChannelParam)
  unfolding built_param or_nil lookup
  channel_params parameters [] = ok []
  channel_params parameters (token ∷ tokens) =
      let rest = channel_params parameters tokens in
      elim (lookup token parameters) [
        | none ↦ rest
        | some i ↦
            (or_nil (model.parameter_at i) >>= λ p. rest >>= λ params. ok (built_param p ∷ params))
      ]

  unfoldable pub build_channel : Channel.Channel B Tag Node → Names → Generated (Ir.Channel × Names)
  unfolding go_name_of reserve_name channel_params address_tokens
  build_channel ch names = do
    go_name ← go_name_of model.scalar model.rules ch.extensions ch.name_of
    params ← channel_params ch.parameters_of (get_or_else [] (address_tokens ch.address))
    ok (
      record {
        name = ch.name_of;
        go_name = go_name;
        address = ch.address;
        description = ch.description_of;
        params = params;
      },
      reserve_name go_name names,
    )

  -- The channel of an operation, which is built at its first use.
  unfoldable pub new_channel : ℕ → State → Generated (ℕ × State)
  unfolding or_nil build_channel
  new_channel k st = do
    ch ← or_nil (model.channel_at k)
    built ← build_channel ch st.names
    ok (
      length st.channels,
      record st {
        names = built.1;
        channels = st.channels ++ (built.0 ∷ []);
        seen_channels = (k, length st.channels) ∷ st.seen_channels;
      },
    )

  unfoldable pub channel_for : ℕ → State → Generated (ℕ × State)
  unfolding find new_channel
  channel_for k st = elim (find k st.seen_channels) [
    | none ↦ new_channel k st
    | some i ↦ ok (i, st)
  ]

  -- The payload or the headers of a message.
  unfoldable pub build_part :
      Text → Option Schema → State → Generated (Option engine.GoType × State)
  build_part name none st = ok (none, st)
  build_part name (some schema) st = elim (engine.generate st.engine_state st.names name schema) [
    | none ↦ err (generate_failed name)
    | some (t, s, names) ↦
        ok
          (some t, record st { engine_state = engine.add_feature s t (text "json"); names = names })
  ]

  unfoldable pub saved : engine.GoType → Text → State → Generated State
  saved t name st = elim (engine.save_type st.engine_state t) [
    | none ↦ err (save_failed name)
    | some s ↦ ok (record st { engine_state = s })
  ]

  unfoldable pub reserve_message : Text → State → State
  unfolding reserve_name
  reserve_message name st = record st {
    names =
        reserve_name (name ++ text "Headers")
          (reserve_name (name ++ text "Payload") (reserve_name name st.names));
  }

  unfoldable pub build_message :
      Map Node
      → Message.Message MessageBinding Correlation Tag RawSchema Schema
      → State
      → Generated (Ir.Message engine.GoType × State)
  unfolding go_name_of reserve_message build_part saved
  build_message extensions msg st = do
    go_name ← go_name_of model.scalar model.rules extensions msg.name_of
    payload' ← build_part (go_name ++ text "Payload") msg.payload_of (reserve_message go_name st)
    headers' ← build_part (go_name ++ text "Headers") msg.headers_of (payload'.1)
    let doc = or_text msg.description_of (or_text msg.summary_of msg.title_of)
    let envelope = engine.envelope (headers'.1).engine_state go_name doc (payload'.0) (headers'.0)
    after ← saved (envelope.0) go_name (record (headers'.1) { engine_state = envelope.1 })
    ok (
      record {
        name = go_name;
        spec_name = msg.spec_name;
        title = msg.title_of;
        description = msg.description_of;
        type_of = envelope.0;
        headers = headers'.0;
        payload = payload'.0;
        content_type = msg.content_type_of;
        sum_marker = [];
      },
      after,
    )

  unfoldable pub new_message : ℕ → State → Generated (ℕ × State)
  unfolding or_nil build_message
  new_message k st = do
    msg ← or_nil (model.message_at k)
    built ← build_message (model.message_extensions k) msg st
    ok (
      length (built.1).messages,
      record (built.1) {
        messages = (built.1).messages ++ (built.0 ∷ []);
        built_msgs = (k, length (built.1).messages) ∷ (built.1).built_msgs;
      },
    )

  unfoldable pub message_for : ℕ → State → Generated (ℕ × State)
  unfolding find new_message
  message_for k st = elim (find k st.built_msgs) [ none ↦ new_message k st | some i ↦ ok (i, st) ]

  -- The loop over the messages of an operation.
  unfoldable pub messages_for : List ℕ → State → Generated (List ℕ × State)
  unfolding message_for
  messages_for [] st = ok ([], st)
  messages_for (k ∷ ks) st = do
    first ← message_for k st
    rest ← messages_for ks (first.1)
    ok (first.0 ∷ rest.0, rest.1)
