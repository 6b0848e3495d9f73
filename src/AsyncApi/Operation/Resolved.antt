-- ===== src/AsyncApi/Operation/Resolved.antt =====
-- Which operation of the document resolveOperationRef of asyncapi/parser/parse_operation.go takes, and
-- its action.
use agen.Prelude.{◌≡◌, refl, true, false, not, Option, some, arith, if_both}
use agen.Prelude.Result.{ok, bind-ok, ok-subst}
use agen.Prelude.Text.{Text, text, is_empty, eq_text, eq_text_iff}
use agen.AsyncApi.{cannot_resolve, cannot_decode, or_err, or_err-ok}
use agen.AsyncApi.RedisBinding.{Yaml, Binding, Action, send, receive}
use agen.AsyncApi.Message.{MessageRef, Reader}
use agen.AsyncApi.Channel.Traits.{Document}
use agen.AsyncApi.Traits.{OperationTrait}
use agen.AsyncApi.Operation.{
  RawOperation, Messages, Channels, Raw, action_of, resolve_operation, resolve_operation_ref,
}

-- The text of an action.
unfoldable pub IsAction : Text → Action → Type 0
IsAction t send = t ≡ text "send"
IsAction t receive = t ≡ text "receive"

pub action_of-IsAction : (t : Text) (a : Action) → action_of t ≡ ok a → IsAction t a
unfolding action_of IsAction
action_of-IsAction t a =
    if_both (λ x. x ≡ ok a → IsAction t a) (eq_text t (text "send"))
      (λ e h. ok-subst (λ x. IsAction t x) h ((eq_text_iff t (text "send")).0 e))
      (λ _.
        if_both (λ x. x ≡ ok a → IsAction t a) (eq_text t (text "receive"))
          (λ e h. ok-subst (λ x. IsAction t x) h ((eq_text_iff t (text "receive")).0 e))
          (λ _ h. cc))

module _ {MessageBinding Correlation Tag RawSchema Schema : Type 0}
    (w : Reader MessageBinding Correlation Tag RawSchema Schema) (y : Yaml)
    (d : Document w.pointers
      (Binding y)
      Tag
      y.Node
      (MessageRef MessageBinding Correlation Tag RawSchema Schema))
    {Requirement : Type 0}
    (decode : w.pointers.Node
      → Option (RawOperation y.Node (Channels w y d) (Messages w y d) Requirement (Binding y) Tag))
    (decode_trait : w.pointers.Node → Option (OperationTrait Requirement (Binding y))) where
  open w use {pointers}
  open pointers use {Ctx, Key, key, ptr, resolve}

  -- The operation is the one that is written in the entry, or the one that its reference is to.
  pub data IsResolved (ctx : Ctx) (raw own : Raw w y d decode decode_trait) : Type 0 where
    written : is_empty raw.ref ≡ true → own ≡ raw → IsResolved ctx raw own
    referred :
        is_empty raw.ref ≡ false
        → (k : Key) (node : pointers.Node) → key ctx raw.ref ≡ some k
        → resolve (ptr k) ≡ some node
        → decode node ≡ some own
        → IsResolved ctx raw own

  pub resolve_operation-IsResolved :
      (ctx : Ctx) (raw own : Raw w y d decode decode_trait)
      → resolve_operation w y d decode decode_trait ctx raw ≡ ok own
      → IsResolved ctx raw own
  unfolding resolve_operation resolve_operation_ref
  resolve_operation-IsResolved ctx raw own =
      if_both (λ x. x ≡ ok own → IsResolved ctx raw own) (not (is_empty raw.ref))
        (λ some_ref h.
          let (k, e, h₁) = bind-ok (or_err (cannot_resolve raw.ref) (key ctx raw.ref)) _ h in
          let (inner, _, h₂) =
            bind-ok (or_err (cannot_resolve raw.ref) (pointers.add_key ctx k)) _ h₁ in
          let (node, e₂, h₃) = bind-ok (or_err (cannot_resolve raw.ref) (resolve (ptr k))) _ h₂ in
          referred (ground arith) k node (or_err-ok (cannot_resolve raw.ref) (key ctx raw.ref) k e)
            (or_err-ok (cannot_resolve raw.ref) (resolve (ptr k)) node e₂)
            (or_err-ok (cannot_decode raw.ref) (decode node) own h₃))
        (λ no_ref h. written (ground arith) (ok-subst (λ x. x ≡ raw) h refl))
