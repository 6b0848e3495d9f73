-- ===== src/Gen/RedisDefaults.antt =====
-- `redisBindingDefaults` of gen/generator.go: the wiring that the x-redis extensions declare.
pub mod Agreement
use agen.Prelude.{ℕ, Bool, false, not, List, [], ◌∷◌, Option, none, some, if◌then◌else◌, ◌==◌}
use agen.Prelude.Result.{ok, err, ◌>>=◌}
use agen.Prelude.Int.{ℤ, pos, negsuc}
use agen.Prelude.Text.{Text, is_empty, eq_text}
use agen.AsyncApi.RedisBinding.{
  Action, send, receive, RedisChannelBinding, RedisOperationBinding, redis_type_stream,
}
use agen.AsyncApi.Channel.{Channel}
use agen.AsyncApi.Operation.{Operation}
use agen.Gen.{Generated, type_required, mixed_types, group_required, mixed_groups, mixed_max_lens}

abbrev pub eq_ℤ : ℤ → ℤ → Bool
eq_ℤ (pos a) (pos b) = a == b
eq_ℤ (negsuc a) (negsuc b) = a == b
eq_ℤ _ _ = false

-- `mode, group string, maxLen int64`
pub record Wiring : Type 0 where
  pub mode : Text
  pub group : Text
  pub max_len : ℤ

-- `op.Redis.ConsumerGroup`, with "" where there is no binding.
unfoldable pub group_of : Option RedisOperationBinding → Text
group_of none = []
group_of (some r) = r.consumer_group

-- The test of the type, with the mode behind it.
unfoldable pub with_mode : Text → Text → Wiring → Generated Wiring
unfolding eq_text
with_mode name type' w =
    if is_empty w.mode
    then ok (record w { mode = type' })
    else if not (eq_text w.mode type')
    then err (mixed_types name)
    else ok w

unfoldable pub with_group : Text → Text → Wiring → Generated Wiring
unfolding eq_text
with_group name g w =
    if is_empty g
    then (if eq_text w.mode redis_type_stream then err (group_required name) else ok w)
    else if is_empty w.group
    then ok (record w { group = g })
    else if not (eq_text w.group g)
    then err (mixed_groups name)
    else ok w

unfoldable pub with_max_len : Text → ℤ → Wiring → Generated Wiring
with_max_len name n w =
    if eq_ℤ n (pos 0)
    then ok w
    else if eq_ℤ w.max_len (pos 0)
    then ok (record w { max_len = n })
    else if not (eq_ℤ w.max_len n)
    then err (mixed_max_lens name)
    else ok w

-- The switch on the action.
unfoldable pub with_action :
    Action
    → Text
    → Text
    → Option RedisOperationBinding
    → RedisChannelBinding
    → Wiring
    → Generated Wiring
unfolding with_group with_max_len group_of
with_action receive op channel r b w = with_group op (group_of r) w
with_action send op channel r b w = with_max_len channel b.max_len w

module _ {Requirement B Tag Node : Type 0} where
  -- The body of the loop, by the binding of the channel.
  unfoldable pub with_binding :
      Operation Requirement B Tag Node
      → Channel B Tag Node
      → Option RedisChannelBinding
      → Wiring
      → Generated Wiring
  unfolding with_mode with_action
  with_binding op ch none w = err (type_required ch.name_of)
  with_binding op ch (some b) w = do
    w' ← with_mode ch.name_of b.type_of w
    with_action op.action op.name_of ch.name_of op.redis b w'

  -- The body of the loop; a nil channel is skipped.
  unfoldable pub with_operation :
      Operation Requirement B Tag Node → Option (Channel B Tag Node) → Wiring → Generated Wiring
  unfolding with_binding
  with_operation op none w = ok w
  with_operation op (some ch) w = with_binding op ch ch.redis w

  -- `at` is what a pointer to a channel points at.
  module _ (at : ℕ → Option (Channel B Tag Node)) where
    unfoldable pub defaults_from :
        List (Operation Requirement B Tag Node) → Wiring → Generated Wiring
    unfolding with_operation
    defaults_from [] w = ok w
    defaults_from (op ∷ ops) w = do w' ← with_operation op (at op.channel) w; defaults_from ops w'

    unfoldable pub redis_binding_defaults :
        List (Operation Requirement B Tag Node) → Generated Wiring
    unfolding defaults_from
    redis_binding_defaults ops =
        defaults_from ops (record { mode = []; group = []; max_len = pos 0 })
