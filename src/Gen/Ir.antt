-- ===== src/Gen/Ir.antt =====
-- internal/ir/operation.go: the operations, channels and messages to generate.
--
-- The types of internal/ir/type.go are a parameter. A `*Channel` or `*Message` is its place in a list.
use agen.Prelude.{ℕ, Bool, true, false, not, List, [], ◌∷◌, ◌++◌, Option, none, some}
use agen.Prelude.Text.{Text, text, is_empty, eq_text}

pub record ChannelParam : Type 0 where
  pub name : Text
  pub go_name : Text
  pub enum : List Text
  pub default : Text
  pub description : Text

pub record Channel : Type 0 where
  pub name : Text
  pub go_name : Text
  pub address : Text
  pub description : Text
  pub params : List ChannelParam

-- `HasParams` and `BuilderName`
unfoldable pub has_params : Channel → Bool
has_params c = not (is_empty c.params)

unfoldable pub builder_name : Channel → Text
builder_name c = text "Build" ++ c.go_name ++ text "Address"

module _ (GoType : Type 0) where
  pub record Message : Type 0 where
    pub name : Text
    pub spec_name : Text
    pub title : Text
    pub description : Text
    pub type_of : GoType
    pub headers : Option GoType
    pub payload : Option GoType
    pub content_type : Text
    pub sum_marker : Text

  pub record Operation : Type 0 where
    pub name : Text
    pub operation_id : Text
    pub action : Text
    pub description : Text
    pub deprecated : Bool
    pub channel : ℕ
    pub messages : List ℕ
    pub sum_type : Option GoType
    pub go_doc : List Text

module _ {GoType : Type 0} where
  unfoldable pub has_headers : Message GoType → Bool
  has_headers m = elim m.headers [ none ↦ false | some t ↦ true ]

  unfoldable pub has_payload : Message GoType → Bool
  has_payload m = elim m.payload [ none ↦ false | some t ↦ true ]

  unfoldable pub is_send : Operation GoType → Bool
  unfolding eq_text
  is_send o = eq_text o.action (text "send")

  unfoldable pub is_receive : Operation GoType → Bool
  unfolding eq_text
  is_receive o = eq_text o.action (text "receive")

  -- `at` is what a pointer to a message points at.
  module _ (at : ℕ → Option (Message GoType)) where
    unfoldable pub first_type : List ℕ → Option GoType
    first_type [] = none
    first_type (i ∷ is) = elim (at i) [ none ↦ none | some m ↦ some m.type_of ]

    -- `Operation.Type` and `Operation.ArgGo`; `type_name` is the name of a type.
    unfoldable pub operation_type : Operation GoType → Option GoType
    unfolding first_type
    operation_type o = elim o.sum_type [ none ↦ first_type o.messages | some t ↦ some t ]

    unfoldable pub arg_go : (GoType → Text) → Operation GoType → Text
    unfolding first_type
    arg_go type_name o = elim o.sum_type [
      | some t ↦ type_name t
      | none ↦ elim (first_type o.messages) [ none ↦ [] | some t ↦ text "*" ++ type_name t ]
    ]
