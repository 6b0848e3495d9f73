-- ===== src/Gen/Building/Complete.antt =====
-- buildOperation reads no nil pointer if those of the document point at something.
use agen.Prelude.{
  ℕ, ◌≡◌, List, [], ◌∷◌, ◌++◌, Option, none, some, if_both, length, get_elem?, set, ltb,
}
use agen.Prelude.Result.{ok, err, ◌>>=◌}
use agen.Prelude.Text.{Text, Map, text, lookup}
use agen.AsyncApi.Message
use agen.AsyncApi.Operation
use agen.Gen.{Generated, generate_failed, save_failed}
use agen.Gen.Names.{go_name_of, reserve_name}
use agen.Gen.Sorting.{set_key}
use agen.Gen.Parts.{
  Model, Engine, State, find, or_nil, build_part, saved, reserve_message, build_message,
  new_message, message_for, messages_for, channel_for,
}
use agen.Gen.Building.{
  spec_names, mark_messages, new_sum_type, shared_sum_type, sum_type_for, build_operation,
}
use agen.Gen.Building.Placed.{AllShow, AllShow-mono, ShowsMessage, ShowsMessage-marked}
use agen.Gen.Building.Steps.{IsSound, channel_for-Sound, or_nil-some}
use agen.Gen.Building.Messages.{messages_for-Sound}
use agen.Gen.Building.Safe.{
  IsSafe, ok-IsSafe, bind-IsSafe, or_nil-IsSafe, go_name_of-IsSafe, AllMessages, HasChannel,
  channel_for-IsSafe,
}

module _ {MessageBinding Correlation Requirement B Tag Node RawSchema Schema : Type 0}
    (model : Model MessageBinding Correlation Requirement B Tag Node RawSchema Schema)
    (engine : Engine Schema) where
  build_part-IsSafe :
      (name : Text) (schema : Option Schema) (st : State model engine)
      → IsSafe (build_part model engine name schema st)
  unfolding build_part
  build_part-IsSafe name none st = ok-IsSafe _
  build_part-IsSafe name (some schema) st =
      elim (engine.generate st.engine_state st.names name schema)
        as (λ o. IsSafe {A = Option engine.GoType × State model engine} (elim o [
          | none ↦ err (generate_failed name)
          | some (t, s, names) ↦ ok (
            some t,
            record st { engine_state = engine.add_feature s t (text "json"); names = names },
          )
        ])) [ none ↦ λ e. cc | some (t, s, names) ↦ ok-IsSafe _ ]

  saved-IsSafe :
      (t : engine.GoType) (name : Text) (st : State model engine)
      → IsSafe (saved model engine t name st)
  unfolding saved
  saved-IsSafe t name st =
      elim (engine.save_type st.engine_state t)
        as (λ o. IsSafe {A = State model engine} (elim o [
          | none ↦ err (save_failed name)
          | some s ↦ ok (record st { engine_state = s })
        ])) [ none ↦ λ e. cc | some s ↦ ok-IsSafe _ ]

  build_message-IsSafe :
      (extensions : Map Node)
      (msg : Message.Message MessageBinding Correlation Tag RawSchema Schema)
      (st : State model engine)
      → IsSafe (build_message model engine extensions msg st)
  unfolding build_message
  build_message-IsSafe extensions msg st =
      bind-IsSafe (go_name_of model.scalar model.rules extensions msg.name_of) _
        (go_name_of-IsSafe model.scalar model.rules extensions msg.name_of)
        (λ go_name _.
          bind-IsSafe
            (build_part model engine (go_name ++ text "Payload") msg.payload_of
              (reserve_message model engine go_name st))
            _
            (build_part-IsSafe (go_name ++ text "Payload") msg.payload_of
              (reserve_message model engine go_name st))
            (λ payload' _.
              bind-IsSafe
                (build_part model engine (go_name ++ text "Headers") msg.headers_of (payload'.1)) _
                (build_part-IsSafe (go_name ++ text "Headers") msg.headers_of (payload'.1))
                (λ headers' _.
                  bind-IsSafe _ _ (saved-IsSafe _ go_name _) (λ after _. ok-IsSafe _))))

  new_message-IsSafe :
      (k : ℕ) (st : State model engine)
      → ((m : Message.Message MessageBinding Correlation Tag RawSchema Schema) × (model.message_at k
            ≡ some m))
      → IsSafe (new_message model engine k st)
  unfolding new_message
  new_message-IsSafe k st (m, at) =
      bind-IsSafe (or_nil (model.message_at k)) _ (or_nil-IsSafe (model.message_at k) m at)
        (λ msg _.
          bind-IsSafe (build_message model engine (model.message_extensions k) msg st) _
            (build_message-IsSafe (model.message_extensions k) msg st) (λ built _. ok-IsSafe _))

  messages_for-IsSafe :
      (ks : List ℕ) (st : State model engine)
      → AllMessages model engine ks
      → IsSafe (messages_for model engine ks st)
  unfolding messages_for message_for AllMessages
  messages_for-IsSafe [] st all = ok-IsSafe _
  messages_for-IsSafe (k ∷ ks) st (first, all) =
      bind-IsSafe (message_for model engine k st) _
        (elim (find k st.built_msgs)
          as (λ o.
            IsSafe {A = ℕ × State model engine}
              (elim o [ none ↦ new_message model engine k st | some i ↦ ok (i, st) ])) [
                | none ↦ new_message-IsSafe k st first
                | some i ↦ ok-IsSafe (i, st)
              ])
        (λ found _.
          bind-IsSafe (messages_for model engine ks (found.1)) _
            (messages_for-IsSafe ks (found.1) all) (λ rest _. ok-IsSafe _))

  -- The places show the messages of the operation.
  spec_names-IsSafe :
      (ks is : List ℕ) (st : State model engine)
      → AllShow (ShowsMessage model st.messages) ks is
      → IsSafe (spec_names model engine is st)
  unfolding spec_names AllShow
  spec_names-IsSafe [] [] st all = ok-IsSafe []
  spec_names-IsSafe [] (i ∷ is) st all = absurd all
  spec_names-IsSafe (k ∷ ks) [] st all = absurd all
  spec_names-IsSafe (k ∷ ks) (i ∷ is) st ((msg, m, e, at, _, _, _, _), all) =
      bind-IsSafe (or_nil (get_elem? st.messages i)) _
        (or_nil-IsSafe (get_elem? st.messages i) m at)
        (λ m' _.
          bind-IsSafe (spec_names model engine is st) _ (spec_names-IsSafe ks is st all)
            (λ rest _. ok-IsSafe _))

  mark_messages-IsSafe :
      (iface : engine.GoType) (marker : Text) (ks is : List ℕ) (st : State model engine)
      → AllShow (ShowsMessage model st.messages) ks is
      → IsSafe (mark_messages model engine iface marker is st)
  unfolding mark_messages AllShow
  mark_messages-IsSafe iface marker [] [] st all = ok-IsSafe st
  mark_messages-IsSafe iface marker [] (i ∷ is) st all = absurd all
  mark_messages-IsSafe iface marker (k ∷ ks) [] st all = absurd all
  mark_messages-IsSafe iface marker (k ∷ ks) (i ∷ is) st ((_, m, _, at, _, _, _, _), all) =
      bind-IsSafe (or_nil (get_elem? st.messages i)) _
        (or_nil-IsSafe (get_elem? st.messages i) m at)
        (λ m' e.
          let marked = set st.messages i (record m' { sum_marker = marker }) in
          mark_messages-IsSafe iface marker ks is _ (
            AllShow-mono (ShowsMessage model st.messages) (ShowsMessage model marked) ks is
              (λ k' j.
                ShowsMessage-marked model st.messages m' marker k' j i
                  (or_nil-some (get_elem? st.messages i) m' e))
              all))

  new_sum_type-IsSafe :
      (key go_name : Text) (ks is : List ℕ) (st : State model engine)
      → AllShow (ShowsMessage model st.messages) ks is
      → IsSafe (new_sum_type model engine key go_name is st)
  unfolding new_sum_type
  new_sum_type-IsSafe key go_name ks is st all =
      bind-IsSafe _ _ (mark_messages-IsSafe _ _ ks is _ all)
        (λ marked _. bind-IsSafe _ _ (saved-IsSafe _ go_name marked) (λ after _. ok-IsSafe _))

  shared_sum_type-IsSafe :
      (key go_name : Text) (ks is : List ℕ) (st : State model engine)
      → AllShow (ShowsMessage model st.messages) ks is
      → IsSafe (shared_sum_type model engine key go_name is st)
  unfolding shared_sum_type
  shared_sum_type-IsSafe key go_name ks is st all =
      elim (lookup key st.sum_types)
        as (λ o. IsSafe {A = Option engine.GoType × State model engine} (elim o [
          | none ↦
              (new_sum_type model engine key go_name is st >>= λ made. ok (some (made.0), made.1))
          | some t ↦ ok (some t, st)
        ])) [
          | none ↦
              bind-IsSafe (new_sum_type model engine key go_name is st) _
                (new_sum_type-IsSafe key go_name ks is st all) (λ made _. ok-IsSafe _)
          | some t ↦ ok-IsSafe _
        ]

  sum_type_for-IsSafe :
      (go_name : Text) (ks is : List ℕ) (st : State model engine)
      → AllShow (ShowsMessage model st.messages) ks is
      → IsSafe (sum_type_for model engine go_name is st)
  unfolding sum_type_for
  sum_type_for-IsSafe go_name ks is st all =
      if_both (λ (x : Generated (Option engine.GoType × State model engine)). IsSafe x)
        (ltb 1 (length is))
        (λ _.
          bind-IsSafe (spec_names model engine is st) _ (spec_names-IsSafe ks is st all)
            (λ specs _. shared_sum_type-IsSafe (set_key specs) go_name ks is st all))
        (λ _. ok-IsSafe _)

  -- The channel and the messages of an operation are there, with the parameters of the channel.
  abbrev pub HasAll : Operation.Operation Requirement B Tag Node → Type 0
  HasAll op = HasChannel model engine op.channel × AllMessages model engine op.messages_of

  pub build_operation-IsSafe :
      (op : Operation.Operation Requirement B Tag Node) (st : State model engine)
      → IsSound model engine st
      → HasAll op
      → IsSafe (build_operation model engine op st)
  unfolding build_operation
  build_operation-IsSafe op st sound (channel, messages) =
      bind-IsSafe (go_name_of model.scalar model.rules op.extensions op.name_of) _
        (go_name_of-IsSafe model.scalar model.rules op.extensions op.name_of)
        (λ go_name _.
          let s : State model engine = record st { names = reserve_name go_name st.names } in
          bind-IsSafe (channel_for model engine op.channel s) _
            (channel_for-IsSafe model engine op.channel s channel)
            (λ found e.
              let ((grows, sound'), here) =
                channel_for-Sound model engine op.channel s found sound e in
              bind-IsSafe (messages_for model engine op.messages_of (found.1)) _
                (messages_for-IsSafe op.messages_of (found.1) messages)
                (λ msgs e₁.
                  let ((grows', _), all) =
                    messages_for-Sound model engine op.messages_of (found.1) msgs sound' e₁ in
                  let (ch, c, _, at, _, _, _) = grows'.0 op.channel (found.0) here in
                  bind-IsSafe (or_nil (get_elem? (msgs.1).channels (found.0))) _
                    (or_nil-IsSafe (get_elem? (msgs.1).channels (found.0)) c at)
                    (λ c' _.
                      bind-IsSafe (sum_type_for model engine c'.go_name (msgs.0) (msgs.1)) _
                        (sum_type_for-IsSafe c'.go_name op.messages_of (msgs.0) (msgs.1) all)
                        (λ sum _. ok-IsSafe _)))))
