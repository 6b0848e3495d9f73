-- ===== src/Gen/Building.antt =====
-- buildOperation of gen/generator.go, with the sum types of operations that have several messages.
pub mod Placed
pub mod Steps
pub mod Messages
pub mod Marked
pub mod Safe
pub mod Complete
pub mod Quiet
pub mod Shared
pub mod Typed
use agen.Prelude.{
  ℕ, false, List, [], ◌∷◌, ◌++◌, Option, none, some, if◌then◌else◌, ltb, length, get_elem?, set,
}
use agen.Prelude.Result.{ok, ◌>>=◌, ◌>>◌}
use agen.Prelude.Text.{Text, text, lookup, insert}
use agen.AsyncApi.Message
use agen.AsyncApi.Channel
use agen.AsyncApi.Operation
use agen.Gen.{Generated}
use agen.Gen.Names.{go_name_of, reserve_name, lower_first}
use agen.Gen.Sorting.{set_key}
use agen.Gen.Ir
use agen.Gen.Parts.{
  Model, Engine, State, or_nil, saved, channel_for, messages_for, pretty_description, action_text,
}

module _ {MessageBinding Correlation Requirement B Tag Node RawSchema Schema : Type 0}
    (model : Model MessageBinding Correlation Requirement B Tag Node RawSchema Schema)
    (engine : Engine Schema) where
  unfoldable pub spec_names : List ℕ → State model engine → Generated (List Text)
  unfolding or_nil
  spec_names [] st = ok []
  spec_names (i ∷ is) st = do
    m ← or_nil (get_elem? st.messages i)
    rest ← spec_names is st
    ok (m.spec_name ∷ rest)

  -- The loop that marks the messages of a new sum type.
  unfoldable pub mark_messages :
      engine.GoType → Text → List ℕ → State model engine → Generated (State model engine)
  unfolding or_nil
  mark_messages iface marker [] st = ok st
  mark_messages iface marker (i ∷ is) st = do
    m ← or_nil (get_elem? st.messages i)
    mark_messages iface marker is (record st {
      engine_state = engine.implement st.engine_state m.type_of iface;
      messages = set st.messages i (record m { sum_marker = marker });
    })

  unfoldable pub new_sum_type :
      Text → Text → List ℕ → State model engine → Generated (engine.GoType × State model engine)
  unfolding lower_first mark_messages saved
  new_sum_type key go_name is st = do
    let marker = lower_first go_name ++ text "Message"
    let iface = engine.interface st.engine_state (go_name ++ text "Message") marker
    marked ← mark_messages (iface.0) marker is (record st { engine_state = iface.1 })
    after ← saved model engine (iface.0) go_name marked
    ok (iface.0, record after { sum_types = insert key (iface.0) after.sum_types })

  -- Operations with the same messages share the sum type.
  unfoldable pub shared_sum_type :
      Text
      → Text
      → List ℕ
      → State model engine
      → Generated (Option engine.GoType × State model engine)
  unfolding lookup new_sum_type
  shared_sum_type key go_name is st = elim (lookup key st.sum_types) [
    | none ↦ (new_sum_type key go_name is st >>= λ made. ok (some (made.0), made.1))
    | some t ↦ ok (some t, st)
  ]

  unfoldable pub sum_type_for :
      Text → List ℕ → State model engine → Generated (Option engine.GoType × State model engine)
  unfolding spec_names set_key shared_sum_type
  sum_type_for go_name is st =
      if ltb 1 (length is)
      then (spec_names is st >>= λ specs. shared_sum_type (set_key specs) go_name is st)
      else ok (none, st)

  unfoldable pub build_operation :
      Operation.Operation Requirement B Tag Node
      → State model engine
      → Generated (Ir.Operation engine.GoType × State model engine)
  unfolding go_name_of reserve_name channel_for messages_for or_nil sum_type_for pretty_description
  build_operation op st = do
    go_name ← go_name_of model.scalar model.rules op.extensions op.name_of
    found ←
        channel_for model engine op.channel (record st { names = reserve_name go_name st.names })
    msgs ← messages_for model engine op.messages_of (found.1)
    ch ← or_nil (get_elem? (msgs.1).channels (found.0))
    sum ← sum_type_for ch.go_name (msgs.0) (msgs.1)
    ok (
      record {
        name = go_name;
        operation_id = op.name_of;
        action = action_text op.action;
        description = op.merged.description_of;
        deprecated = false;
        channel = found.0;
        messages = msgs.0;
        sum_type = sum.0;
        go_doc = pretty_description op.merged.description_of op.merged.summary_of;
      },
      sum.1,
    )
