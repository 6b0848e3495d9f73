-- ===== src/AsyncApi/Channel/Growing.antt =====
-- The steps of parseChannel keep the stores of the parser well formed.
use agen.Prelude.{ℕ, ◌<◌, ◌≤◌, ◌≡◌, refl, ◌∙◌, List, [], ◌∷◌, Option, none, some, arith, length}
use mathlib.Core.Path.{subst}
use agen.Prelude.Result.{ok, bind-ok}
use agen.Prelude.Text.{Text, Map, lookup, insert}
use agen.AsyncApi.{Pointers, title, summary, description}
use agen.AsyncApi.Traits.{set_string, merge_bindings}
use agen.AsyncApi.Message.Pointer.{Store}
use agen.AsyncApi.Message.Pointer.Heap.{AllBelow, AllBelow-mono, AllBelow-insert}
use agen.AsyncApi.Channel.{ParameterRef, Parameter, ChannelTrait, Channel, State, parse_parameter}
use agen.AsyncApi.Channel.Storing.{IsInside, Steps, parse_parameter-Steps}
use agen.AsyncApi.Channel.Traits.{
  Document, resolve_channel_trait, merge_channel_trait, merge_channel_traits, add_servers,
  add_parameter, add_parameters,
}
use agen.AsyncApi.Channel.Parsing.{parse_parameters}

-- What a step leaves of the parameters.
abbrev pub Longer : Store Parameter → Store Parameter → Type 0
Longer st st' = IsInside st' × (length st.heap ≤ length st'.heap)

pub Longer-trans : (st s st' : Store Parameter) → Longer st s → Longer s st' → Longer st st'
Longer-trans st s st' a b = (b.0, omega (arith, a.1, b.1))

Steps-Longer : (i : ℕ) (st st' : Store Parameter) → Steps i st st' → Longer st st'
unfolding Steps
Steps-Longer i st st' (inside, below, longer) = (inside, longer)

module _ (p : Pointers) {B Tag Node MessageRefs : Type 0}
    (d : Document p B Tag Node MessageRefs) where
  add_parameter-Longer :
      (ctx : p.Ctx) (dst : Map ℕ) (pname : Text) (param : ParameterRef) (st : Store Parameter)
      (o : Option ℕ) (r : Map ℕ × Store Parameter)
      → IsInside st
      → add_parameter p d ctx dst pname param st o ≡ ok r
      → Longer st (r.1)
  unfolding add_parameter
  add_parameter-Longer ctx dst pname param st (some i) r inside h = cc
  add_parameter-Longer ctx dst pname param st none r inside h =
      let ((i, s), e, h₁) = bind-ok (parse_parameter p d.decode_parameter ctx pname param st) _ h in
      let same : s ≡ r.1 = ground arith in
      subst (λ x. Longer st x) same
        (Steps-Longer i st s
          (parse_parameter-Steps p d.decode_parameter ctx pname param st s i inside e))

  add_parameters-Longer :
      (ctx : p.Ctx) (refs : Map (Option ParameterRef)) (dst : Map ℕ) (st : Store Parameter)
      (r : Map ℕ × Store Parameter)
      → IsInside st
      → add_parameters p d ctx refs dst st ≡ ok r
      → Longer st (r.1)
  unfolding add_parameters
  add_parameters-Longer ctx [] dst st r inside h =
      let same : st ≡ r.1 = ground arith in subst (λ x. Longer st x) same (inside, omega arith)
  add_parameters-Longer ctx ((j, none) ∷ refs) dst st r inside h =
      add_parameters-Longer ctx refs dst st r inside h
  add_parameters-Longer ctx ((j, some param) ∷ refs) dst st r inside h =
      let (added, e, h₁) = bind-ok (add_parameter p d ctx dst j param st (lookup j dst)) _ h in
      let first = add_parameter-Longer ctx dst j param st (lookup j dst) added inside e in
      Longer-trans st (added.1) (r.1) first
        (add_parameters-Longer ctx refs (added.0) (added.1) r first.0 h₁)

  -- The pointers to the parameters of a channel are in the heap.
  pub parse_parameters-Longer :
      (ctx : p.Ctx) (refs : Map (Option ParameterRef)) (dst : Map ℕ) (st : Store Parameter)
      (r : Map ℕ × Store Parameter)
      → IsInside st
      → AllBelow (length st.heap) dst
      → parse_parameters p d ctx refs dst st ≡ ok r
      → Longer st (r.1) × AllBelow (length (r.1).heap) (r.0)
  unfolding parse_parameters
  parse_parameters-Longer ctx [] dst st r inside below h =
      let same : (dst, st) ≡ r = ground arith in
      subst (λ x. Longer st (x.1) × AllBelow (length (x.1).heap) (x.0)) same
        ((inside, omega arith), below)
  parse_parameters-Longer ctx ((j, none) ∷ refs) dst st r inside below h =
      parse_parameters-Longer ctx refs dst st r inside below h
  parse_parameters-Longer ctx ((j, some pref) ∷ refs) dst st r inside below h =
      let ((i, s), e, h₁) = bind-ok (parse_parameter p d.decode_parameter ctx j pref st) _ h in
      let steps = parse_parameter-Steps p d.decode_parameter ctx j pref st s i inside e in
      let longer = Steps-Longer i st s steps in
      let placed : i < length s.heap = unfold Steps in steps.1 in
      let (more, all) =
        parse_parameters-Longer ctx refs (insert j i dst) s r longer.0
          (AllBelow-insert (length s.heap) i j dst placed
            (AllBelow-mono (length st.heap) (length s.heap) dst longer.1 below))
          h₁ in
      (Longer-trans st s (r.1) longer more, all)

  -- Traits change the context and the parameters alone.
  abbrev pub Traited :
      {M : Type 0}
      → State p.Ctx M (Channel B Tag Node)
      → State p.Ctx M (Channel B Tag Node)
      → Type 0
  Traited st st' =
      (st'.channels ≡ st.channels)
      × (st'.messages ≡ st.messages)
      × Longer st.parameters st'.parameters

  merge_channel_trait-Traited :
      {M : Type 0} (dst : Channel B Tag Node) (trait : ChannelTrait B Tag Node MessageRefs)
      (st : State p.Ctx M (Channel B Tag Node))
      (r : Channel B Tag Node × State p.Ctx M (Channel B Tag Node))
      → IsInside st.parameters
      → merge_channel_trait p d dst trait st ≡ ok r
      → Traited st (r.1)
  unfolding merge_channel_trait
  merge_channel_trait-Traited dst trait st r inside h =
      let (t, _, h₁) = bind-ok (set_string dst.title_of trait.title_of title) _ h in
      let (s, _, h₂) = bind-ok (set_string dst.summary_of trait.summary_of summary) _ h₁ in
      let (e, _, h₃) =
        bind-ok (set_string dst.description_of trait.description_of description) _ h₂ in
      let (b, _, h₄) = bind-ok (merge_bindings dst.bindings_of trait.bindings_of) _ h₃ in
      let (served, _, h₅) = bind-ok (add_servers p d trait.servers_of st.ctx dst.servers_of) _ h₄ in
      let (added, e₆, h₆) =
        bind-ok (add_parameters p d (served.0) trait.parameters_of dst.parameters_of st.parameters)
          _ h₅ in
      let longer =
        add_parameters-Longer (served.0) trait.parameters_of dst.parameters_of st.parameters added
          inside e₆ in
      let same : added.1 ≡ (r.1).parameters = ground arith in
      (ground arith, ground arith, subst (λ x. Longer st.parameters x) same longer)

  pub merge_channel_traits-Traited :
      {M : Type 0} (traits : List (Option (ChannelTrait B Tag Node MessageRefs)))
      (dst : Channel B Tag Node) (st : State p.Ctx M (Channel B Tag Node))
      (r : Channel B Tag Node × State p.Ctx M (Channel B Tag Node))
      → IsInside st.parameters
      → merge_channel_traits p d traits dst st ≡ ok r
      → Traited st (r.1)
  unfolding merge_channel_traits
  merge_channel_traits-Traited [] dst st r inside h =
      let same : st ≡ r.1 = ground arith in
      subst (λ x. Traited st x) same (refl, refl, (inside, omega arith))
  merge_channel_traits-Traited (trait ∷ traits) dst st r inside h =
      let (resolved, _, h₁) = bind-ok (resolve_channel_trait p d st.ctx trait) _ h in
      let (merged, e, h₂) = bind-ok (merge_channel_trait p d dst resolved st) _ h₁ in
      let (channels, messages, longer) =
        merge_channel_trait-Traited dst resolved st merged inside e in
      let (channels', messages', longer') =
        merge_channel_traits-Traited traits (merged.0) (merged.1) r longer.0 h₂ in
      (
        channels' ∙ channels,
        messages' ∙ messages,
        Longer-trans st.parameters (merged.1).parameters (r.1).parameters longer longer',
      )
