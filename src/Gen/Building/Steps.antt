-- ===== src/Gen/Building/Steps.antt =====
-- Each step of buildOperation keeps what is built, and the maps that find it.
use agen.Prelude.{ℕ, ◌≡◌, refl, sym, [], ◌∷◌, ◌++◌, Option, none, some, length, get_or_else}
use mathlib.Core.Path.{subst}
use agen.Prelude.Result.{ok, bind-ok, ok-subst}
use agen.AsyncApi.Address.{address_tokens}
use agen.AsyncApi.Channel
use agen.AsyncApi.Channel.Storing.{get_elem?-last}
use agen.Gen.Ir
use agen.Gen.Names.{Names, go_name_of}
use agen.Gen.Parts.{
  Model, Engine, State, find, or_nil, build_channel, channel_params, new_channel, channel_for,
}
use agen.Gen.Building.Placed.{
  AllPairs, AllPairs-mono, AllPairs-find, ShowsChannel, ShowsMessage, ShowsChannel-append,
}

pub or_nil-some {ℓ} : {A : Type ℓ} (o : Option A) (a : A) → or_nil o ≡ ok a → o ≡ some a
unfolding or_nil
or_nil-some none a h = cc
or_nil-some (some b) a h = cc

module _ {MessageBinding Correlation Requirement B Tag Node RawSchema Schema : Type 0}
    (model : Model MessageBinding Correlation Requirement B Tag Node RawSchema Schema)
    (engine : Engine Schema) where
  -- What the maps find is at its place.
  abbrev pub IsSound : State model engine → Type 0
  IsSound st =
      AllPairs (ShowsChannel model st.channels) st.seen_channels
      × AllPairs (ShowsMessage model st.messages) st.built_msgs

  -- What a place shows, it shows still.
  abbrev pub Grows : State model engine → State model engine → Type 0
  Grows st st' =
      ((k i : ℕ) → ShowsChannel model st.channels k i → ShowsChannel model st'.channels k i)
      × ((k i : ℕ) → ShowsMessage model st.messages k i → ShowsMessage model st'.messages k i)

  -- A step that leaves the channels and the messages alone.
  abbrev pub Leaves : State model engine → State model engine → Type 0
  Leaves st st' =
      (st'.channels ≡ st.channels)
      × (st'.seen_channels ≡ st.seen_channels)
      × (st'.messages ≡ st.messages)
      × (st'.built_msgs ≡ st.built_msgs)

  abbrev pub Sound : State model engine → State model engine → Type 0
  Sound st st' = Grows st st' × IsSound st'

  pub Grows-trans : (st s st' : State model engine) → Grows st s → Grows s st' → Grows st st'
  Grows-trans st s st' (c, m) (c', m') = (λ k i h. c' k i (c k i h), λ k i h. m' k i (m k i h))

  pub Leaves-Sound : (st st' : State model engine) → Leaves st st' → IsSound st → Sound st st'
  Leaves-Sound st st' (c, sc, m, bm) (a, b) = (
    (
      λ k i h. subst (λ x. ShowsChannel model x k i) (sym c) h,
      λ k i h. subst (λ x. ShowsMessage model x k i) (sym m) h,
    ),
    (
      subst (λ x. AllPairs (ShowsChannel model x) st'.seen_channels) (sym c)
          (subst (AllPairs (ShowsChannel model st.channels)) (sym sc) a),
      subst (λ x. AllPairs (ShowsMessage model x) st'.built_msgs) (sym m)
          (subst (AllPairs (ShowsMessage model st.messages)) (sym bm) b),
    ),
  )

  build_channel-Shows :
      (ch : Channel.Channel B Tag Node) (names : Names) (r : Ir.Channel × Names)
      → build_channel model engine ch names ≡ ok r
      → ((r.0).name ≡ ch.name_of)
        × ((r.0).address ≡ ch.address)
        × ((r.0).description ≡ ch.description_of)
  unfolding build_channel
  build_channel-Shows ch names r h =
      let (go_name, e, h₁) =
        bind-ok (go_name_of model.scalar model.rules ch.extensions ch.name_of) _ h in
      let (params, e₁, h₂) =
        bind-ok
          (channel_params model engine ch.parameters_of
            (get_or_else [] (address_tokens ch.address)))
          _ h₁ in
      ok-subst
        (λ x.
          ((x.0).name ≡ ch.name_of)
          × ((x.0).address ≡ ch.address)
          × ((x.0).description ≡ ch.description_of))
        h₂ (refl, refl, refl)

  new_channel-Sound :
      (k : ℕ) (st : State model engine) (r : ℕ × State model engine)
      → IsSound st
      → new_channel model engine k st ≡ ok r
      → Sound st (r.1) × ShowsChannel model (r.1).channels k (r.0)
  unfolding new_channel AllPairs
  new_channel-Sound k st r (a, b) h =
      let (ch, e, h₁) = bind-ok (or_nil (model.channel_at k)) _ h in
      let (built, e₁, h₂) = bind-ok (build_channel model engine ch st.names) _ h₁ in
      let (n, d, c) = build_channel-Shows ch st.names built e₁ in
      let shown : ShowsChannel model (st.channels ++ (built.0 ∷ [])) k (length st.channels) = (
        ch,
        built.0,
        or_nil-some (model.channel_at k) ch e,
        get_elem?-last st.channels (built.0),
        n,
        d,
        c,
      ) in
      ok-subst (λ x. Sound st (x.1) × ShowsChannel model (x.1).channels k (x.0)) h₂
        (
          (
            (ShowsChannel-append model st.channels (built.0), λ k' i h'. h'),
            (
              (
                shown,
                AllPairs-mono (ShowsChannel model st.channels)
                    (ShowsChannel model (st.channels ++ (built.0 ∷ []))) st.seen_channels
                    (ShowsChannel-append model st.channels (built.0)) a,
              ),
              b,
            ),
          ),
          shown,
        )

  pub channel_for-Sound :
      (k : ℕ) (st : State model engine) (r : ℕ × State model engine)
      → IsSound st
      → channel_for model engine k st ≡ ok r
      → Sound st (r.1) × ShowsChannel model (r.1).channels k (r.0)
  unfolding channel_for
  channel_for-Sound k st r sound h =
      elim (find k st.seen_channels)
          as (λ o.
            find k st.seen_channels ≡ o
            → (elim o [ none ↦ new_channel model engine k st | some i ↦ ok (i, st) ]) ≡ ok r
            → Sound st (r.1) × ShowsChannel model (r.1).channels k (r.0)) [
              | none ↦ λ _ e. new_channel-Sound k st r sound e
              | some i ↦ λ found e.
                  ok-subst (λ x. Sound st (x.1) × ShowsChannel model (x.1).channels k (x.0)) e
                    (
                      ((λ k' i' h'. h', λ k' i' h'. h'), sound),
                      AllPairs-find (ShowsChannel model st.channels) k i st.seen_channels found
                          sound.0,
                    )
            ]
        refl h
