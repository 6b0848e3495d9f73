-- ===== src/Gen/Building/Marked.antt =====
-- The sum type of an operation, and buildOperation: what they leave of what is built.
use agen.Prelude.{
  ℕ, ◌≡◌, List, [], ◌∷◌, ◌++◌, Option, none, some, length, get_elem?, set, ltb, Bool-cases, inl,
  inr,
}
use agen.Prelude.Result.{ok, ◌>>=◌, bind-ok, ok-subst}
use agen.Prelude.Text.{Text, text, lookup}
use agen.AsyncApi.Operation
use agen.Gen.Ir
use agen.Gen.Names.{go_name_of, reserve_name, lower_first}
use agen.Gen.Sorting.{set_key}
use agen.Gen.Parts.{Model, Engine, State, or_nil, saved, channel_for, messages_for}
use agen.Gen.Building.{
  spec_names, mark_messages, new_sum_type, shared_sum_type, sum_type_for, build_operation,
}
use agen.Gen.Building.Placed.{
  AllShow, AllPairs-mono, AllShow-mono, ShowsChannel, ShowsMessage, ShowsMessage-marked,
}
use agen.Gen.Building.Steps.{
  IsSound, Sound, Grows-trans, Leaves-Sound, or_nil-some, channel_for-Sound,
}
use agen.Gen.Building.Messages.{saved-Leaves, messages_for-Sound}

module _ {MessageBinding Correlation Requirement B Tag Node RawSchema Schema : Type 0}
    (model : Model MessageBinding Correlation Requirement B Tag Node RawSchema Schema)
    (engine : Engine Schema) where
  abbrev St : Type 0
  St = State model engine

  Sound-trans :
      (st s st' : St)
      → Sound model engine st s
      → Sound model engine s st'
      → Sound model engine st st'
  Sound-trans st s st' (grows, _) (grows', sound) =
      (Grows-trans model engine st s st' grows grows', sound)

  mark_messages-Sound :
      (iface : engine.GoType) (marker : Text) (is : List ℕ) (st st' : St)
      → IsSound model engine st
      → mark_messages model engine iface marker is st ≡ ok st'
      → Sound model engine st st'
  unfolding mark_messages
  mark_messages-Sound iface marker [] st st' sound h =
      ok-subst (λ x. Sound model engine st x) h ((λ k i h'. h', λ k i h'. h'), sound)
  mark_messages-Sound iface marker (i ∷ is) st st' sound h =
      let (m, e, h₁) = bind-ok (or_nil (get_elem? st.messages i)) _ h in
      let at = or_nil-some (get_elem? st.messages i) m e in
      let marked = set st.messages i (record m { sum_marker = marker }) in
      let keeps : (k j : ℕ) → ShowsMessage model st.messages k j → ShowsMessage model marked k j =
        λ k j. ShowsMessage-marked model st.messages m marker k j i at in
      let s : St = record st {
        engine_state = engine.implement st.engine_state m.type_of iface;
        messages = marked;
      } in
      let step : Sound model engine st s = (
        (λ k j h'. h', keeps),
        (
          sound.0,
          AllPairs-mono (ShowsMessage model st.messages) (ShowsMessage model marked) st.built_msgs
              keeps sound.1,
        ),
      ) in
      Sound-trans st s st' step (mark_messages-Sound iface marker is s st' step.1 h₁)

  new_sum_type-Sound :
      (key go_name : Text) (is : List ℕ) (st : St) (r : engine.GoType × St)
      → IsSound model engine st
      → new_sum_type model engine key go_name is st ≡ ok r
      → Sound model engine st (r.1)
  unfolding new_sum_type
  new_sum_type-Sound key go_name is st r sound h =
      let marker = lower_first go_name ++ text "Message" in
      let iface = engine.interface st.engine_state (go_name ++ text "Message") marker in
      let s : St = record st { engine_state = iface.1 } in
      let (marked, e, h₁) = bind-ok (mark_messages model engine (iface.0) marker is s) _ h in
      let (after, e₁, h₂) = bind-ok (saved model engine (iface.0) go_name marked) _ h₁ in
      let first = mark_messages-Sound (iface.0) marker is s marked sound e in
      let second =
        Leaves-Sound model engine marked after
          (saved-Leaves model engine (iface.0) go_name marked after e₁) first.1 in
      let (grows, sound') = Sound-trans s marked after first second in
      ok-subst (λ x. Sound model engine st (x.1)) h₂ (grows, sound')

  shared_sum_type-Sound :
      (key go_name : Text) (is : List ℕ) (st : St) (r : Option engine.GoType × St)
      → IsSound model engine st
      → shared_sum_type model engine key go_name is st ≡ ok r
      → Sound model engine st (r.1)
  unfolding shared_sum_type
  shared_sum_type-Sound key go_name is st r sound h =
      elim (lookup key st.sum_types)
          as (λ o.
            (elim o [
              | none ↦
                  (new_sum_type model engine key go_name is st >>= λ made.
                  ok (some (made.0), made.1))
              | some t ↦ ok (some t, st)
            ])
              ≡ ok r
            → Sound model engine st (r.1)) [
              | none ↦ λ e.
                  let (made, e₁, e₂) = bind-ok (new_sum_type model engine key go_name is st) _ e in
                  ok-subst (λ x. Sound model engine st (x.1)) e₂
                    (new_sum_type-Sound key go_name is st made sound e₁)
              | some t ↦ λ e.
                  ok-subst (λ x. Sound model engine st (x.1)) e
                    ((λ k i h'. h', λ k i h'. h'), sound)
            ]
        h

  sum_type_for-Sound :
      (go_name : Text) (is : List ℕ) (st : St) (r : Option engine.GoType × St)
      → IsSound model engine st
      → sum_type_for model engine go_name is st ≡ ok r
      → Sound model engine st (r.1)
  unfolding sum_type_for
  sum_type_for-Sound go_name is st r sound h = elim (Bool-cases (ltb 1 (length is))) [
    | inl many ↦
        let (specs, e, h₁) = bind-ok (spec_names model engine is st) _ (rw many at h) in
        shared_sum_type-Sound (set_key specs) go_name is st r sound h₁
    | inr few ↦
        ok-subst (λ x. Sound model engine st (x.1)) (rw few at h)
          ((λ k i h'. h', λ k i h'. h'), sound)
  ]

  -- The channel and the messages of an operation are those that the document links it to.
  abbrev pub IsLinked :
      Operation.Operation Requirement B Tag Node → Ir.Operation engine.GoType → St → Type 0
  IsLinked op o st =
      ShowsChannel model st.channels op.channel o.channel
      × AllShow (ShowsMessage model st.messages) op.messages_of o.messages

  pub build_operation-IsLinked :
      (op : Operation.Operation Requirement B Tag Node) (st : St)
      (r : Ir.Operation engine.GoType × St)
      → IsSound model engine st
      → build_operation model engine op st ≡ ok r
      → Sound model engine st (r.1) × IsLinked op (r.0) (r.1)
  unfolding build_operation
  build_operation-IsLinked op st r sound h =
      let (go_name, e, h₁) =
        bind-ok (go_name_of model.scalar model.rules op.extensions op.name_of) _ h in
      let s : St = record st { names = reserve_name go_name st.names } in
      let (found, e₁, h₂) = bind-ok (channel_for model engine op.channel s) _ h₁ in
      let (msgs, e₂, h₃) = bind-ok (messages_for model engine op.messages_of (found.1)) _ h₂ in
      let (ch, e₃, h₄) = bind-ok (or_nil (get_elem? (msgs.1).channels (found.0))) _ h₃ in
      let (sum, e₄, h₅) = bind-ok (sum_type_for model engine ch.go_name (msgs.0) (msgs.1)) _ h₄ in
      let (one, here) = channel_for-Sound model engine op.channel s found sound e₁ in
      let (two, all) = messages_for-Sound model engine op.messages_of (found.1) msgs one.1 e₂ in
      let three = sum_type_for-Sound ch.go_name (msgs.0) (msgs.1) sum two.1 e₄ in
      let later = Sound-trans (found.1) (msgs.1) (sum.1) two three in
      let (grows, sound') = Sound-trans s (found.1) (sum.1) one later in
      ok-subst (λ x. Sound model engine st (x.1) × IsLinked op (x.0) (x.1)) h₅
        (
          (grows, sound'),
          (
            later.0.0 op.channel (found.0) here,
            AllShow-mono (ShowsMessage model (msgs.1).messages)
                (ShowsMessage model (sum.1).messages) op.messages_of (msgs.0) three.0.1 all,
          ),
        )
