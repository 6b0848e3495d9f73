-- ===== src/AsyncApi/Channel/Traits.antt =====
-- asyncapi/parser/traits.go: merging the traits of a channel.
use agen.Prelude.{ℕ, not, List, [], ◌∷◌, ◌++◌, Option, none, some, if◌then◌else◌, length, drop}
use agen.Prelude.Result.{ok, err, ◌>>=◌}
use agen.Prelude.Text.{Text, text, Map, lookup, insert, is_empty}
use agen.AsyncApi.{
  Parsed, title, summary, description, parameters, trait_overrides_entry, cannot_resolve,
  cannot_decode, cannot_add_key, chained_reference, nil_dereference, Pointers, or_err,
}
use agen.AsyncApi.Traits.{set_string, merge_bindings}
use agen.AsyncApi.Message.{has_prefix}
use agen.AsyncApi.Message.Pointer.{Store, ptr_last_segment}
use agen.AsyncApi.Channel.{
  RawParameter, ParameterRef, Parameter, ChannelTrait, RawChannel, Channel, State, parse_parameter,
}

-- `strings.TrimPrefix`
unfoldable pub trim_prefix : Text → Text → Text
unfolding has_prefix
trim_prefix prefix t = if has_prefix prefix t then drop (length prefix) t else t

module _ (p : Pointers) (Binding Tag Node MessageRefs : Type 0) where
  -- What the parser reads from the document, and two operations on contexts: the key without an
  -- address, and `ctx.Delete`.
  pub record Document : Type 0 where
    pub decode_parameter : p.Node → Option RawParameter
    pub decode_channel : p.Node → Option (RawChannel Binding Tag Node MessageRefs)
    pub decode_channel_trait : p.Node → Option (ChannelTrait Binding Tag Node MessageRefs)
    pub empty_key : p.Key
    pub delete : p.Ctx → p.Key → p.Ctx

module _ {Binding Tag Node MessageRefs : Type 0} (p : Pointers)
    (d : Document p Binding Tag Node MessageRefs) where
  open p use {Ctx, Key, key, add_key, ptr, resolve}
  open d use {decode_parameter, decode_channel_trait, empty_key}

  unfoldable pub reject_chained_channel_trait :
      Text
      → ChannelTrait Binding Tag Node MessageRefs
      → Parsed (ChannelTrait Binding Tag Node MessageRefs)
  reject_chained_channel_trait ref out =
      if not (is_empty out.ref) then err (chained_reference ref) else ok out

  unfoldable pub follow_channel_trait :
      Ctx → Text → Parsed (ChannelTrait Binding Tag Node MessageRefs)
  unfolding or_err reject_chained_channel_trait
  follow_channel_trait ctx ref = do
    k ← or_err (cannot_resolve ref) (key ctx ref)
    inner ← or_err (cannot_resolve ref) (add_key ctx k)
    node ← or_err (cannot_resolve ref) (resolve (ptr k))
    out ← or_err (cannot_decode ref) (decode_channel_trait node)
    reject_chained_channel_trait ref out

  -- A nil trait is read, not skipped.
  unfoldable pub resolve_channel_trait :
      Ctx
      → Option (ChannelTrait Binding Tag Node MessageRefs)
      → Parsed (ChannelTrait Binding Tag Node MessageRefs)
  unfolding follow_channel_trait
  resolve_channel_trait ctx none = err nil_dereference
  resolve_channel_trait ctx (some trait) =
      if is_empty trait.ref then ok trait else follow_channel_trait ctx trait.ref

  -- The servers of a trait. The key that is added for each stays in the context.
  unfoldable pub add_servers : List (Option Text) → Ctx → List Text → Parsed (Ctx × List Text)
  unfolding or_err trim_prefix ptr_last_segment
  add_servers [] ctx dst = ok (ctx, dst)
  add_servers (none ∷ servers) ctx dst = add_servers servers ctx dst
  add_servers (some ref ∷ servers) ctx dst = do
    ctx' ← or_err cannot_add_key (add_key ctx empty_key)
    add_servers servers ctx' (dst ++ (ptr_last_segment (trim_prefix (text "#/servers/") ref) ∷ []))

  -- One round of the loop over the parameters of a trait, on what the channel has under the name.
  unfoldable pub add_parameter :
      Ctx
      → Map ℕ
      → Text
      → ParameterRef
      → Store Parameter
      → Option ℕ
      → Parsed (Map ℕ × Store Parameter)
  unfolding parse_parameter insert
  add_parameter ctx dst pname param st (some _) = err (trait_overrides_entry parameters pname)
  add_parameter ctx dst pname param st none = do
    parsed ← parse_parameter p decode_parameter ctx pname param st
    ok (insert pname (parsed.0) dst, parsed.1)

  unfoldable pub add_parameters :
      Ctx → Map (Option ParameterRef) → Map ℕ → Store Parameter → Parsed (Map ℕ × Store Parameter)
  unfolding add_parameter lookup
  add_parameters ctx [] dst st = ok (dst, st)
  add_parameters ctx ((pname, none) ∷ refs) dst st = add_parameters ctx refs dst st
  add_parameters ctx ((pname, some param) ∷ refs) dst st = do
    added ← add_parameter ctx dst pname param st (lookup pname dst)
    add_parameters ctx refs (added.0) (added.1)

  module _ {M : Type 0} where
    -- The body of the loop of `mergeChannelTraits`, behind the resolution.
    unfoldable pub merge_channel_trait :
        Channel Binding Tag Node
        → ChannelTrait Binding Tag Node MessageRefs
        → State Ctx M (Channel Binding Tag Node)
        → Parsed (Channel Binding Tag Node × State Ctx M (Channel Binding Tag Node))
    unfolding set_string merge_bindings add_servers add_parameters
    merge_channel_trait dst trait st = do
      t ← set_string dst.title_of trait.title_of title
      s ← set_string dst.summary_of trait.summary_of summary
      d' ← set_string dst.description_of trait.description_of description
      b ← merge_bindings dst.bindings_of trait.bindings_of
      served ← add_servers trait.servers_of st.ctx dst.servers_of
      added ← add_parameters (served.0) trait.parameters_of dst.parameters_of st.parameters
      ok (
        record dst {
          title_of = t;
          summary_of = s;
          description_of = d';
          bindings_of = b;
          servers_of = served.1;
          parameters_of = added.0;
        },
        record st { ctx = served.0; parameters = added.1 },
      )

    unfoldable pub merge_channel_traits :
        List (Option (ChannelTrait Binding Tag Node MessageRefs))
        → Channel Binding Tag Node
        → State Ctx M (Channel Binding Tag Node)
        → Parsed (Channel Binding Tag Node × State Ctx M (Channel Binding Tag Node))
    unfolding resolve_channel_trait merge_channel_trait
    merge_channel_traits [] dst st = ok (dst, st)
    merge_channel_traits (trait ∷ traits) dst st = do
      resolved ← resolve_channel_trait st.ctx trait
      merged ← merge_channel_trait dst resolved st
      merge_channel_traits traits (merged.0) (merged.1)
