-- ===== src/Gen/Building/Quiet.antt =====
-- The steps of buildOperation that leave the sum types alone, and keep the Go types that are made.
use agen.Prelude.{ℕ, ◌≡◌, refl, ◌∙◌, List, [], ◌∷◌, ◌++◌, Option, none, some, get_elem?, set}
use agen.Prelude.Result.{ok, err, bind-ok, ok-subst}
use agen.Prelude.Text.{Text, Map, text}
use agen.AsyncApi.Message
use agen.Gen.{generate_failed, save_failed}
use agen.Gen.Ir
use agen.Gen.Names.{Names, go_name_of}
use agen.Gen.Parts.{
  Model, Engine, State, find, or_nil, or_text, build_channel, new_channel, channel_for, build_part,
  saved, reserve_message, build_message, new_message, message_for, messages_for,
}
use agen.Gen.Building.{mark_messages}

-- What the engine is relied on for: a `*ir.Type` that is made stays made, and `ir.Interface`, which
-- returns `&Type{…}`, gives a pointer other than those made before.
pub record Allocates {Schema : Type 0} (engine : Engine Schema) : Type 1 where
  pub IsMade : engine.State → engine.GoType → Type 0
  pub generate_keeps :
      (s s' : engine.State) (names names' : Names) (name : Text) (schema : Schema)
      (t u : engine.GoType)
      → engine.generate s names name schema ≡ some (t, s', names')
      → IsMade s u
      → IsMade s' u
  pub add_feature_keeps :
      (s : engine.State) (t u : engine.GoType) (feature : Text)
      → IsMade s u
      → IsMade (engine.add_feature s t feature) u
  pub envelope_keeps :
      (s : engine.State) (name doc : Text) (payload headers : Option engine.GoType)
      (u : engine.GoType)
      → IsMade s u
      → IsMade (engine.envelope s name doc payload headers).1 u
  pub implement_keeps :
      (s : engine.State) (t iface u : engine.GoType)
      → IsMade s u
      → IsMade (engine.implement s t iface) u
  pub save_keeps :
      (s s' : engine.State) (t u : engine.GoType)
      → engine.save_type s t ≡ some s'
      → IsMade s u
      → IsMade s' u
  pub interface_keeps :
      (s : engine.State) (name marker : Text) (u : engine.GoType)
      → IsMade s u
      → IsMade (engine.interface s name marker).1 u
  pub interface_made :
      (s : engine.State) (name marker : Text)
      → IsMade (engine.interface s name marker).1 (engine.interface s name marker).0
  pub interface_new :
      (s : engine.State) (name marker : Text) → ¬ (IsMade s (engine.interface s name marker).0)

module _ {MessageBinding Correlation Requirement B Tag Node RawSchema Schema : Type 0}
    (model : Model MessageBinding Correlation Requirement B Tag Node RawSchema Schema)
    (engine : Engine Schema) (a : Allocates engine) where
  -- The sum types are the same, and what was made is made still.
  abbrev pub Quiet : State model engine → State model engine → Type 0
  Quiet st st' =
      (st'.sum_types ≡ st.sum_types)
      × ((u : engine.GoType) → a.IsMade st.engine_state u → a.IsMade st'.engine_state u)

  pub Quiet-trans : (st s st' : State model engine) → Quiet st s → Quiet s st' → Quiet st st'
  Quiet-trans st s st' (e, keep) (e', keep') = (e' ∙ e, λ u h. keep' u (keep u h))

  new_channel-Quiet :
      (k : ℕ) (st : State model engine) (r : ℕ × State model engine)
      → new_channel model engine k st ≡ ok r
      → Quiet st (r.1)
  unfolding new_channel
  new_channel-Quiet k st r h =
      let (ch, _, h₁) = bind-ok (or_nil (model.channel_at k)) _ h in
      let (built, _, h₂) = bind-ok (build_channel model engine ch st.names) _ h₁ in
      ok-subst (λ x. Quiet st (x.1)) h₂ (refl, λ u made. made)

  pub channel_for-Quiet :
      (k : ℕ) (st : State model engine) (r : ℕ × State model engine)
      → channel_for model engine k st ≡ ok r
      → Quiet st (r.1)
  unfolding channel_for
  channel_for-Quiet k st r h =
      elim (find k st.seen_channels)
          as (λ o.
            (elim o [ none ↦ new_channel model engine k st | some i ↦ ok (i, st) ]) ≡ ok r
            → Quiet st (r.1)) [
              | none ↦ λ e. new_channel-Quiet k st r e
              | some i ↦ λ e. ok-subst (λ x. Quiet st (x.1)) e (refl, λ u made. made)
            ]
        h

  build_part-Quiet :
      (name : Text) (schema : Option Schema) (st : State model engine)
      (r : Option engine.GoType × State model engine)
      → build_part model engine name schema st ≡ ok r
      → Quiet st (r.1)
  unfolding build_part
  build_part-Quiet name none st r h = ok-subst (λ x. Quiet st (x.1)) h (refl, λ u made. made)
  build_part-Quiet name (some schema) st r h =
      elim (engine.generate st.engine_state st.names name schema)
          as (λ o.
            engine.generate st.engine_state st.names name schema ≡ o
            → (elim o [
              | none ↦ err (generate_failed name)
              | some (t, s, names) ↦ ok (
                some t,
                record st { engine_state = engine.add_feature s t (text "json"); names = names },
              )
            ])
              ≡ ok r
            → Quiet st (r.1)) [
              | none ↦ λ _ e. cc
              | some (t, s, names) ↦ λ generated e.
                  ok-subst (λ x. Quiet st (x.1)) e
                    (
                      refl,
                      λ u made. a.add_feature_keeps s t u (text "json") (
                          a.generate_keeps st.engine_state s st.names names name schema t u
                            generated made),
                    )
            ]
        refl h

  pub saved-Quiet :
      (t : engine.GoType) (name : Text) (st st' : State model engine)
      → saved model engine t name st ≡ ok st'
      → Quiet st st'
  unfolding saved
  saved-Quiet t name st st' h =
      elim (engine.save_type st.engine_state t)
          as (λ o.
            engine.save_type st.engine_state t ≡ o
            → (elim o [
              | none ↦ err (save_failed name)
              | some s ↦ ok (record st { engine_state = s })
            ])
              ≡ ok st'
            → Quiet st st') [
              | none ↦ λ _ e. cc
              | some s ↦ λ is_saved e.
                  ok-subst (λ x. Quiet st x) e
                    (refl, λ u made. a.save_keeps st.engine_state s t u is_saved made)
            ]
        refl h

  build_message-Quiet :
      (extensions : Map Node)
      (msg : Message.Message MessageBinding Correlation Tag RawSchema Schema)
      (st : State model engine) (r : Ir.Message engine.GoType × State model engine)
      → build_message model engine extensions msg st ≡ ok r
      → Quiet st (r.1)
  unfolding build_message reserve_message
  build_message-Quiet extensions msg st r h =
      let (go_name, _, h₁) =
        bind-ok (go_name_of model.scalar model.rules extensions msg.name_of) _ h in
      let start = reserve_message model engine go_name st in
      let (payload', e₁, h₂) =
        bind-ok (build_part model engine (go_name ++ text "Payload") msg.payload_of start) _ h₁ in
      let (headers', e₂, h₃) =
        bind-ok (build_part model engine (go_name ++ text "Headers") msg.headers_of (payload'.1)) _
          h₂ in
      let doc = or_text msg.description_of (or_text msg.summary_of msg.title_of) in
      let envelope =
        engine.envelope (headers'.1).engine_state go_name doc (payload'.0) (headers'.0) in
      let enclosed : State model engine = record (headers'.1) { engine_state = envelope.1 } in
      let (after, e₃, h₄) = bind-ok (saved model engine (envelope.0) go_name enclosed) _ h₃ in
      let (s₁, keep₁) =
        build_part-Quiet (go_name ++ text "Payload") msg.payload_of start payload' e₁ in
      let (s₂, keep₂) =
        build_part-Quiet (go_name ++ text "Headers") msg.headers_of (payload'.1) headers' e₂ in
      let (s₃, keep₃) = saved-Quiet (envelope.0) go_name enclosed after e₃ in
      ok-subst (λ x. Quiet st (x.1)) h₄
        (
          s₃ ∙ s₂ ∙ s₁,
          λ u made. keep₃ u (
              a.envelope_keeps (headers'.1).engine_state go_name doc (payload'.0) (headers'.0) u
                (keep₂ u (keep₁ u made))),
        )

  new_message-Quiet :
      (k : ℕ) (st : State model engine) (r : ℕ × State model engine)
      → new_message model engine k st ≡ ok r
      → Quiet st (r.1)
  unfolding new_message
  new_message-Quiet k st r h =
      let (msg, _, h₁) = bind-ok (or_nil (model.message_at k)) _ h in
      let (built, e, h₂) =
        bind-ok (build_message model engine (model.message_extensions k) msg st) _ h₁ in
      let (same, keep) = build_message-Quiet (model.message_extensions k) msg st built e in
      ok-subst (λ x. Quiet st (x.1)) h₂ (same, keep)

  message_for-Quiet :
      (k : ℕ) (st : State model engine) (r : ℕ × State model engine)
      → message_for model engine k st ≡ ok r
      → Quiet st (r.1)
  unfolding message_for
  message_for-Quiet k st r h =
      elim (find k st.built_msgs)
          as (λ o.
            (elim o [ none ↦ new_message model engine k st | some i ↦ ok (i, st) ]) ≡ ok r
            → Quiet st (r.1)) [
              | none ↦ λ e. new_message-Quiet k st r e
              | some i ↦ λ e. ok-subst (λ x. Quiet st (x.1)) e (refl, λ u made. made)
            ]
        h

  pub messages_for-Quiet :
      (ks : List ℕ) (st : State model engine) (r : List ℕ × State model engine)
      → messages_for model engine ks st ≡ ok r
      → Quiet st (r.1)
  unfolding messages_for
  messages_for-Quiet [] st r h = ok-subst (λ x. Quiet st (x.1)) h (refl, λ u made. made)
  messages_for-Quiet (k ∷ ks) st r h =
      let (first, e, h₁) = bind-ok (message_for model engine k st) _ h in
      let (rest, e₁, h₂) = bind-ok (messages_for model engine ks (first.1)) _ h₁ in
      ok-subst (λ x. Quiet st (x.1)) h₂
        (Quiet-trans st (first.1) (rest.1) (message_for-Quiet k st first e)
          (messages_for-Quiet ks (first.1) rest e₁))

  pub mark_messages-Quiet :
      (iface : engine.GoType) (marker : Text) (is : List ℕ) (st st' : State model engine)
      → mark_messages model engine iface marker is st ≡ ok st'
      → Quiet st st'
  unfolding mark_messages
  mark_messages-Quiet iface marker [] st st' h = ok-subst (λ x. Quiet st x) h (refl, λ u made. made)
  mark_messages-Quiet iface marker (i ∷ is) st st' h =
      let (m, _, h₁) = bind-ok (or_nil (get_elem? st.messages i)) _ h in
      let marked : State model engine = record st {
        engine_state = engine.implement st.engine_state m.type_of iface;
        messages = set st.messages i (record m { sum_marker = marker });
      } in
      let (same, keep) = mark_messages-Quiet iface marker is marked st' h₁ in
      (same, λ u made. keep u (a.implement_keeps st.engine_state m.type_of iface u made))
