-- ===== src/Gen/Generator/EndToEnd.antt =====
-- From the parser to the generator: what parseOperations leaves is what NewGenerator needs.
pub mod Servers
use agen.Prelude.{ℕ, Option, get_elem?}
use agen.Prelude.Result.{◌>>=◌}
use agen.Prelude.Text.{Text, Map}
use agen.AsyncApi.RedisBinding.{Yaml, Binding}
use agen.AsyncApi.Server
use agen.AsyncApi.Message.{MessageRef, Reader}
use agen.AsyncApi.Channel.Traits.{Document}
use agen.AsyncApi.Channel.Parsing.{Parser}
use agen.AsyncApi.Operation.{Operation}
use agen.Gen.Names.{GoNames}
use agen.Gen.Parts.{Model, Engine}

module _ {MessageBinding Correlation Tag RawSchema Schema : Type 0}
    (w : Reader MessageBinding Correlation Tag RawSchema Schema) (y : Yaml)
    (d : Document w.pointers
      (Binding y)
      Tag
      y.Node
      (MessageRef MessageBinding Correlation Tag RawSchema Schema)) where
  module _ (Requirement : Type 0) (scalar : y.Node → Option Text)
      (message_extensions : ℕ → Map y.Node) (rules : GoNames) (capitalize : Text → Text)
      (engine : Engine Schema) where
    -- What the generator reads of the heaps of the parser.
    abbrev pub parsed_model :
        Parser w y d
        → Model MessageBinding Correlation Requirement (Binding y) Tag y.Node RawSchema Schema
    parsed_model st = record {
      channel_at = get_elem? st.channels.heap;
      parameter_at = get_elem? st.parameters.heap;
      message_at = get_elem? st.messages.heap;
      message_extensions = message_extensions;
      scalar = scalar;
      rules = rules;
      capitalize = capitalize;
    }
