-- ===== src/AsyncApi/Channel/Parsing/Declared.antt =====
-- The parameters and the address of a parsed channel.
use agen.Prelude.{
  ℕ, ◌≡◌, refl, ap, ◌∙◌, Bool, true, false, ◌||◌, List, [], ◌∷◌, Option, none, some, arith, is_some,
}
use agen.Prelude.Result.{ok, bind-ok, reject-bind}
use agen.Prelude.Text.{Text, Map, lookup, insert, lookup-insert, eq_text, is_empty}
use agen.AsyncApi.{Parsed, Pointers, address_required}
use agen.AsyncApi.{title, summary, description}
use agen.AsyncApi.Address.{address_tokens, check_tokens, validate_address_params}
use agen.AsyncApi.Traits.{set_string, merge_bindings}
use agen.AsyncApi.RedisBinding.{Yaml, Binding, parse_redis_channel_binding}
use agen.AsyncApi.Message.{MessageRef, Reader}
use agen.AsyncApi.Message.Pointer.{Store, insert_sorted, sorted_entries}
use agen.AsyncApi.Channel.{ParameterRef, Parameter, ChannelTrait, Channel, State, parse_parameter}
use agen.AsyncApi.Channel.Traits.{
  Document, resolve_channel_trait, merge_channel_trait, merge_channel_traits, add_servers,
  add_parameters,
}
use agen.AsyncApi.Channel.Parsing.{
  Parser, ParsedChannel, Raw, initial_channel, channel_servers, parse_parameters, channel_messages,
  redis_or_err, address_or_err, finish_channel, parse_channel,
}

-- The document declares a parameter under the name, and it is not null.
abbrev pub declares : Text → Map (Option ParameterRef) → Bool
declares k [] = false
declares k ((j, none) ∷ refs) = declares k refs
declares k ((j, some pref) ∷ refs) = eq_text j k || declares k refs

declares-insert_sorted :
    (k j : Text) (o : Option ParameterRef) (m : Map (Option ParameterRef))
    → declares k (insert_sorted j o m) ≡ declares k ((j, o) ∷ m)
unfolding insert_sorted
declares-insert_sorted k j o [] = refl
declares-insert_sorted k j none ((l, none) ∷ m) = ground (arith, declares-insert_sorted k j none m)
declares-insert_sorted k j none ((l, some q) ∷ m) =
    ground (arith, declares-insert_sorted k j none m)
declares-insert_sorted k j (some p) ((l, none) ∷ m) =
    ground (arith, declares-insert_sorted k j (some p) m)
declares-insert_sorted k j (some p) ((l, some q) ∷ m) =
    ground (arith, declares-insert_sorted k j (some p) m)

cons-declares :
    (k j : Text) (o : Option ParameterRef) (m m' : Map (Option ParameterRef))
    → declares k m ≡ declares k m'
    → declares k ((j, o) ∷ m) ≡ declares k ((j, o) ∷ m')
cons-declares k j none m m' e = e
cons-declares k j (some p) m m' e = ap (λ b. eq_text j k || b) e

declares-sorted_entries :
    (k : Text) (m : Map (Option ParameterRef)) → declares k (sorted_entries m) ≡ declares k m
unfolding sorted_entries
declares-sorted_entries k [] = refl
declares-sorted_entries k ((j, o) ∷ m) =
    declares-insert_sorted k j o (sorted_entries m)
    ∙ cons-declares k j o (sorted_entries m) m (declares-sorted_entries k m)

module _ (p : Pointers) {B Tag Node MessageRefs : Type 0}
    (d : Document p B Tag Node MessageRefs) where
  lookup-parse_parameters :
      (ctx : p.Ctx) (refs : Map (Option ParameterRef)) (dst dst' : Map ℕ) (st st' : Store Parameter)
      (k : Text)
      → parse_parameters p d ctx refs dst st ≡ ok (dst', st')
      → is_some (lookup k dst') ≡ (declares k refs || is_some (lookup k dst))
  unfolding parse_parameters
  lookup-parse_parameters ctx [] dst dst' st st' k h = ground arith
  lookup-parse_parameters ctx ((j, none) ∷ refs) dst dst' st st' k h =
      lookup-parse_parameters ctx refs dst dst' st st' k h
  lookup-parse_parameters ctx ((j, some pref) ∷ refs) dst dst' st st' k h =
      let (parsed, _, h₁) = bind-ok (parse_parameter p d.decode_parameter ctx j pref st) _ h in
      let ih =
        lookup-parse_parameters ctx refs (insert j (parsed.0) dst) dst' (parsed.1) st' k h₁ in
      ground (arith, ih, lookup-insert j k (parsed.0) dst)

  -- Traits leave the name, the address and the extensions of a channel alone.
  abbrev SameKey : Channel B Tag Node → Channel B Tag Node → Type 0
  SameKey c c' =
      (c'.name_of ≡ c.name_of) × (c'.address ≡ c.address) × (c'.extensions ≡ c.extensions)

  merge_channel_trait-SameKey :
      {M : Type 0} (dst : Channel B Tag Node) (trait : ChannelTrait B Tag Node MessageRefs)
      (st : State p.Ctx M (Channel B Tag Node))
      (r : Channel B Tag Node × State p.Ctx M (Channel B Tag Node))
      → merge_channel_trait p d dst trait st ≡ ok r
      → SameKey dst (r.0)
  unfolding merge_channel_trait
  merge_channel_trait-SameKey dst trait st r h =
      let (t, _, h₁) = bind-ok (set_string dst.title_of trait.title_of title) _ h in
      let (s, _, h₂) = bind-ok (set_string dst.summary_of trait.summary_of summary) _ h₁ in
      let (e, _, h₃) =
        bind-ok (set_string dst.description_of trait.description_of description) _ h₂ in
      let (b, _, h₄) = bind-ok (merge_bindings dst.bindings_of trait.bindings_of) _ h₃ in
      let (served, _, h₅) = bind-ok (add_servers p d trait.servers_of st.ctx dst.servers_of) _ h₄ in
      let (added, _, h₆) =
        bind-ok (add_parameters p d (served.0) trait.parameters_of dst.parameters_of st.parameters)
          _ h₅ in
      ground arith

  merge_channel_traits-SameKey :
      {M : Type 0} (traits : List (Option (ChannelTrait B Tag Node MessageRefs)))
      (dst : Channel B Tag Node) (st : State p.Ctx M (Channel B Tag Node))
      (r : Channel B Tag Node × State p.Ctx M (Channel B Tag Node))
      → merge_channel_traits p d traits dst st ≡ ok r
      → SameKey dst (r.0)
  unfolding merge_channel_traits
  merge_channel_traits-SameKey [] dst st r h = ground arith
  merge_channel_traits-SameKey (trait ∷ traits) dst st r h =
      let (resolved, _, h₁) = bind-ok (resolve_channel_trait p d st.ctx trait) _ h in
      let (merged, e, h₂) = bind-ok (merge_channel_trait p d dst resolved st) _ h₁ in
      let (name, address, extensions) = merge_channel_trait-SameKey dst resolved st merged e in
      let (name', address', extensions') =
        merge_channel_traits-SameKey traits (merged.0) (merged.1) r h₂ in
      (name' ∙ name, address' ∙ address, extensions' ∙ extensions)

-- Each of them is declared in the document.
abbrev pub AllDeclare : Map (Option ParameterRef) → List Text → Type 0
AllDeclare refs [] = Unit
AllDeclare refs (t ∷ ts) = (declares t refs ≡ true) × AllDeclare refs ts

checked-AllDeclare :
    (refs : Map (Option ParameterRef)) (params : Map ℕ) (ts : List Text)
    → ((k : Text) → is_some (lookup k params) ≡ declares k refs)
    → check_tokens params ts ≡ ok tt
    → AllDeclare refs ts
unfolding check_tokens
checked-AllDeclare refs params [] same h = tt
checked-AllDeclare refs params (t ∷ ts) same h =
    (ground (arith, same t), checked-AllDeclare refs params ts same (ground arith))

or_none : (a b : Bool) → b ≡ false → (a || b) ≡ a
or_none true b h = refl
or_none false b h = h

unit_is_tt : (r : Parsed (Unit {0})) (u : Unit {0}) → r ≡ ok u → r ≡ ok tt
unit_is_tt r u h = h

checked_address :
    (refs : Map (Option ParameterRef)) (params : Map ℕ) (o : Option (List Text)) (u : Unit {0})
    → ((k : Text) → is_some (lookup k params) ≡ declares k refs)
    → address_or_err (elim o [ none ↦ none | some ts ↦ some (check_tokens params ts) ]) ≡ ok u
    → (ts : List Text) × (o ≡ some ts) × AllDeclare refs ts
unfolding address_or_err
checked_address refs params none u same h = cc
checked_address refs params (some ts) u same h =
    (ts, refl, checked-AllDeclare refs params ts same (unit_is_tt (check_tokens params ts) u h))

module _ {MessageBinding Correlation Tag RawSchema Schema : Type 0}
    (w : Reader MessageBinding Correlation Tag RawSchema Schema) (y : Yaml)
    (d : Document w.pointers
      (Binding y)
      Tag
      y.Node
      (MessageRef MessageBinding Correlation Tag RawSchema Schema)) where
  -- What holds of a parsed channel, by its name and the channel of the document.
  pub record IsChannel (name : Text) (raw : Raw w y d) (c : ParsedChannel w y d) : Type 0 where
    pub named : c.name_of ≡ name
    pub has_address : is_empty c.address ≡ false
    pub addressed : c.address ≡ raw.address
    pub own_parameters :
        (k : Text) → is_some (lookup k c.parameters_of) ≡ declares k raw.parameters_of
    pub tokens : List Text
    pub tokenized : address_tokens c.address ≡ some tokens
    pub declared : AllDeclare raw.parameters_of tokens
    pub bound :
        redis_or_err (parse_redis_channel_binding y c.bindings_of raw.extensions) ≡ ok c.redis

  finish_channel-IsChannel :
      (n : ℕ) (name : Text) (raw : Raw w y d) (semantic : ParsedChannel w y d) (st : Parser w y d)
      (c : ParsedChannel w y d) (st' : Parser w y d)
      → semantic.name_of ≡ name
      → is_empty raw.address ≡ false
      → semantic.address ≡ raw.address
      → finish_channel w y d n raw semantic st ≡ ok (c, st')
      → IsChannel name raw c
  unfolding finish_channel validate_address_params
  finish_channel-IsChannel n name raw semantic st c st' named some_address addressed h =
      let bound =
        redis_or_err (parse_redis_channel_binding y semantic.bindings_of raw.extensions) in
      let refs = sorted_entries raw.parameters_of in
      let (redis', e₁, h₁) = bind-ok bound _ h in
      let (params, e₂, h₂) =
        bind-ok (parse_parameters w.pointers d st.ctx refs [] st.parameters) _ h₁ in
      let (msgs, _, h₃) =
        bind-ok (channel_messages w y d n raw (record st { parameters = params.1 })) _ h₂ in
      let (u, e₄, h₄) =
        bind-ok (address_or_err (validate_address_params semantic.address (params.0))) _ h₃ in
      let own : (k : Text) → is_some (lookup k (params.0)) ≡ declares k raw.parameters_of = λ k.
        lookup-parse_parameters w.pointers d st.ctx refs [] (params.0) st.parameters (params.1) k e₂
        ∙ or_none (declares k refs) (is_some (lookup {V = ℕ} k [])) (unfold lookup in refl)
        ∙ declares-sorted_entries k raw.parameters_of in
      let (tokens, tokenized, declared) =
        checked_address raw.parameters_of (params.0) (address_tokens semantic.address) u own e₄ in
      let built : record semantic { redis = redis'; parameters_of = params.0; messages_of = msgs.0 }
          ≡ c =
        ground arith in
      rw (← built) (record {
        named = named;
        has_address = rw addressed some_address;
        addressed = addressed;
        own_parameters = own;
        tokens = tokens;
        tokenized = tokenized;
        declared = declared;
        bound = e₁;
      })

  -- A parsed channel has its name, a non-empty address that is the document's, and, under each name,
  -- a parameter exactly if its own object in the document declares one there: the parameters of its
  -- traits are lost. Every token of the address is declared by that object. The redis binding is what
  -- the merged bindings and the extensions say.
  pub parse_channel-IsChannel :
      (n : ℕ) (name : Text) (raw : Raw w y d) (st : Parser w y d) (c : ParsedChannel w y d)
      (st' : Parser w y d)
      → parse_channel w y d n name raw st ≡ ok (c, st')
      → IsChannel name raw c
  unfolding parse_channel initial_channel
  parse_channel-IsChannel n name raw st c st' h =
      let first = initial_channel name raw (channel_servers w.pointers st.ctx raw.servers_of) in
      let (some_address, h₁) = reject-bind (is_empty raw.address) address_required _ h in
      let (merged, e, h₂) =
        bind-ok (merge_channel_traits w.pointers d raw.traits_of first st) _ h₁ in
      let (named, addressed, _) =
        merge_channel_traits-SameKey w.pointers d raw.traits_of first st merged e in
      finish_channel-IsChannel n name raw (merged.0) (merged.1) c st' named some_address addressed
        h₂
