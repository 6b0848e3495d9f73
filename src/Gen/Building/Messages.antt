-- ===== src/Gen/Building/Messages.antt =====
-- buildMessage and the loop over the messages of an operation keep what is built.
use agen.Prelude.{
  ℕ, ◌≡◌, refl, ◌∙◌, true, false, List, [], ◌∷◌, ◌++◌, Option, none, some, length, is_some,
}
use agen.Prelude.Result.{ok, err, bind-ok, ok-subst}
use agen.Prelude.Text.{Text, Map, text}
use agen.AsyncApi.Message
use agen.AsyncApi.Channel.Storing.{get_elem?-last}
use agen.Gen.{generate_failed, save_failed}
use agen.Gen.Ir
use agen.Gen.Names.{go_name_of}
use agen.Gen.Parts.{
  Model, Engine, State, find, or_nil, or_text, build_part, saved, reserve_message, build_message,
  new_message, message_for, messages_for,
}
use agen.Gen.Building.Placed.{
  AllPairs, AllShow, AllPairs-mono, AllPairs-find, ShowsMessage, ShowsMessage-append,
}
use agen.Gen.Building.Steps.{IsSound, Leaves, Sound, Grows-trans, Leaves-Sound, or_nil-some}

module _ {MessageBinding Correlation Requirement B Tag Node RawSchema Schema : Type 0}
    (model : Model MessageBinding Correlation Requirement B Tag Node RawSchema Schema)
    (engine : Engine Schema) where
  build_part-Leaves :
      (name : Text) (schema : Option Schema) (st : State model engine)
      (r : Option engine.GoType × State model engine)
      → build_part model engine name schema st ≡ ok r
      → Leaves model engine st (r.1) × (is_some (r.0) ≡ is_some schema)
  unfolding build_part
  build_part-Leaves name none st r h =
      ok-subst (λ x. Leaves model engine st (x.1) × (is_some (x.0) ≡ false)) h
        ((refl, refl, refl, refl), refl)
  build_part-Leaves name (some schema) st r h =
      elim (engine.generate st.engine_state st.names name schema)
          as (λ o.
            (elim o [
              | none ↦ err (generate_failed name)
              | some (t, s, names) ↦ ok (
                some t,
                record st { engine_state = engine.add_feature s t (text "json"); names = names },
              )
            ])
              ≡ ok r
            → Leaves model engine st (r.1) × (is_some (r.0) ≡ true)) [
              | none ↦ λ e. cc
              | some (t, s, names) ↦ λ e.
                  ok-subst (λ x. Leaves model engine st (x.1) × (is_some (x.0) ≡ true)) e
                    ((refl, refl, refl, refl), refl)
            ]
        h

  pub saved-Leaves :
      (t : engine.GoType) (name : Text) (st st' : State model engine)
      → saved model engine t name st ≡ ok st'
      → Leaves model engine st st'
  unfolding saved
  saved-Leaves t name st st' h =
      elim (engine.save_type st.engine_state t)
          as (λ o.
            (elim o [
              | none ↦ err (save_failed name)
              | some s ↦ ok (record st { engine_state = s })
            ])
              ≡ ok st'
            → Leaves model engine st st') [
              | none ↦ λ e. cc
              | some s ↦ λ e. ok-subst (λ x. Leaves model engine st x) e (refl, refl, refl, refl)
            ]
        h

  Leaves-trans :
      (st s st' : State model engine)
      → Leaves model engine st s
      → Leaves model engine s st'
      → Leaves model engine st st'
  Leaves-trans st s st' (a, b, c, d) (a', b', c', d') = (a' ∙ a, b' ∙ b, c' ∙ c, d' ∙ d)

  -- What buildMessage builds.
  abbrev Built :
      Message.Message MessageBinding Correlation Tag RawSchema Schema
      → State model engine
      → Ir.Message engine.GoType × State model engine
      → Type 0
  Built msg st r =
      Leaves model engine st (r.1)
      × ((r.0).spec_name ≡ msg.spec_name)
      × ((r.0).content_type ≡ msg.content_type_of)
      × (is_some (r.0).payload ≡ is_some msg.payload_of)
      × (is_some (r.0).headers ≡ is_some msg.headers_of)

  build_message-Built :
      (extensions : Map Node)
      (msg : Message.Message MessageBinding Correlation Tag RawSchema Schema)
      (st : State model engine) (r : Ir.Message engine.GoType × State model engine)
      → build_message model engine extensions msg st ≡ ok r
      → Built msg st r
  unfolding build_message reserve_message
  build_message-Built extensions msg st r h =
      let (go_name, e, h₁) =
        bind-ok (go_name_of model.scalar model.rules extensions msg.name_of) _ h in
      let (payload', e₁, h₂) =
        bind-ok
          (build_part model engine (go_name ++ text "Payload") msg.payload_of
            (reserve_message model engine go_name st))
          _ h₁ in
      let (headers', e₂, h₃) =
        bind-ok (build_part model engine (go_name ++ text "Headers") msg.headers_of (payload'.1)) _
          h₂ in
      let envelope =
        engine.envelope (headers'.1).engine_state go_name
          (or_text msg.description_of (or_text msg.summary_of msg.title_of)) (payload'.0)
          (headers'.0) in
      let (after, e₃, h₄) =
        bind-ok
          (saved model engine (envelope.0) go_name
            (record (headers'.1) { engine_state = envelope.1 }))
          _ h₃ in
      let (l₁, p) =
        build_part-Leaves (go_name ++ text "Payload") msg.payload_of
          (reserve_message model engine go_name st) payload' e₁ in
      let (l₂, q) =
        build_part-Leaves (go_name ++ text "Headers") msg.headers_of (payload'.1) headers' e₂ in
      let l₃ =
        saved-Leaves (envelope.0) go_name (record (headers'.1) { engine_state = envelope.1 }) after
          e₃ in
      ok-subst (λ x. Built msg st x) h₄
        (
          Leaves-trans st (headers'.1) after (Leaves-trans st (payload'.1) (headers'.1) l₁ l₂) l₃,
          refl,
          refl,
          p,
          q,
        )

  new_message-Sound :
      (k : ℕ) (st : State model engine) (r : ℕ × State model engine)
      → IsSound model engine st
      → new_message model engine k st ≡ ok r
      → Sound model engine st (r.1) × ShowsMessage model (r.1).messages k (r.0)
  unfolding new_message AllPairs
  new_message-Sound k st r sound h =
      let (msg, e, h₁) = bind-ok (or_nil (model.message_at k)) _ h in
      let (built, e₁, h₂) =
        bind-ok (build_message model engine (model.message_extensions k) msg st) _ h₁ in
      let (leaves, n, t, p, q) = build_message-Built (model.message_extensions k) msg st built e₁ in
      let (grows, (cs, ms)) = Leaves-Sound model engine st (built.1) leaves sound in
      let old = (built.1).messages in
      let shown : ShowsMessage model (old ++ (built.0 ∷ [])) k (length old) = (
        msg,
        built.0,
        or_nil-some (model.message_at k) msg e,
        get_elem?-last old (built.0),
        n,
        t,
        p,
        q,
      ) in
      ok-subst (λ x. Sound model engine st (x.1) × ShowsMessage model (x.1).messages k (x.0)) h₂
        (
          (
            (grows.0, λ k' i h'. ShowsMessage-append model old (built.0) k' i (grows.1 k' i h')),
            (
              cs,
              (
                shown,
                AllPairs-mono (ShowsMessage model old) (ShowsMessage model (old ++ (built.0 ∷ [])))
                    (built.1).built_msgs (ShowsMessage-append model old (built.0)) ms,
              ),
            ),
          ),
          shown,
        )

  message_for-Sound :
      (k : ℕ) (st : State model engine) (r : ℕ × State model engine)
      → IsSound model engine st
      → message_for model engine k st ≡ ok r
      → Sound model engine st (r.1) × ShowsMessage model (r.1).messages k (r.0)
  unfolding message_for
  message_for-Sound k st r sound h =
      elim (find k st.built_msgs)
          as (λ o.
            find k st.built_msgs ≡ o
            → (elim o [ none ↦ new_message model engine k st | some i ↦ ok (i, st) ]) ≡ ok r
            → Sound model engine st (r.1) × ShowsMessage model (r.1).messages k (r.0)) [
              | none ↦ λ _ e. new_message-Sound k st r sound e
              | some i ↦ λ found e.
                  ok-subst
                    (λ x. Sound model engine st (x.1) × ShowsMessage model (x.1).messages k (x.0)) e
                    (
                      ((λ k' i' h'. h', λ k' i' h'. h'), sound),
                      AllPairs-find (ShowsMessage model st.messages) k i st.built_msgs found
                          sound.1,
                    )
            ]
        refl h

  pub messages_for-Sound :
      (ks : List ℕ) (st : State model engine) (r : List ℕ × State model engine)
      → IsSound model engine st
      → messages_for model engine ks st ≡ ok r
      → Sound model engine st (r.1) × AllShow (ShowsMessage model (r.1).messages) ks (r.0)
  unfolding messages_for AllShow
  messages_for-Sound [] st r sound h =
      ok-subst
        (λ x. Sound model engine st (x.1) × AllShow (ShowsMessage model (x.1).messages) [] (x.0)) h
        (((λ k' i' h'. h', λ k' i' h'. h'), sound), tt)
  messages_for-Sound (k ∷ ks) st r sound h =
      let (first, e, h₁) = bind-ok (message_for model engine k st) _ h in
      let (rest, e₁, h₂) = bind-ok (messages_for model engine ks (first.1)) _ h₁ in
      let ((grows, sound'), shown) = message_for-Sound k st first sound e in
      let ((grows', sound''), all) = messages_for-Sound ks (first.1) rest sound' e₁ in
      ok-subst
        (λ x.
          Sound model engine st (x.1) × AllShow (ShowsMessage model (x.1).messages) (k ∷ ks) (x.0))
        h₂
        (
          (Grows-trans model engine st (first.1) (rest.1) grows grows', sound''),
          (grows'.1 k (first.0) shown, all),
        )
