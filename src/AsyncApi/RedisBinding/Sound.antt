-- ===== src/AsyncApi/RedisBinding/Sound.antt =====
-- What an accepted binding is.
use mathlib.Core.Bool.{false≢true}
use mathlib.Core.Path.{subst}
use agen.Prelude.{
  sym, ◌∙◌, ◌&&◌, ◌||◌, ◌≡◌, ◌↔◌, ◌⊎◌, inl, inr, refl, Bool, true, false, not, [], ◌∷◌, Option,
  none, some, arith, Bool-cases, if◌then◌else◌,
}
use agen.Prelude.Result.{ok, ◌>>=◌, ◌>>◌, bind-ok, reject, reject-ok, reject-bind}
use agen.Prelude.Int.{ℤ, pos, ◌≤ℤ◌, ltb_ℤ}
use agen.Prelude.Text.{Text, text, Map, is_empty, eq_text, eq_text_iff, lookup}
use agen.AsyncApi.RedisBinding.{
  Checked, Yaml, redis_type_stream, redis_type_pubsub, redis_binding_version, RedisChannelBinding,
  RedisOperationBinding, Action, send, receive, RedisExtensionFields, Binding, has, check_channel,
  channel_binding, string_field, integer_field, check_unknown_fields, check_binding_version,
  parse_redis_channel_binding, group_not_on_receive, group_needs_stream, is_receive, is_stream,
  validate_redis_operation_binding, x_redis_extension_fields, reject_unpublished_binding,
}

-- The draft binding: a stream or a pub/sub channel, of the known version, and a limit only for a stream.
pub record IsChannelBinding (b : RedisChannelBinding) : Type 0 where
  pub known_type : (b.type_of ≡ redis_type_stream) ⊎ (b.type_of ≡ redis_type_pubsub)
  pub known_version : (b.binding_version ≡ []) ⊎ (b.binding_version ≡ redis_binding_version)
  pub limit : (b.max_len ≡ pos 0) ⊎ ((b.type_of ≡ redis_type_stream) × (pos 1 ≤ℤ b.max_len))

abbrev IsType : RedisChannelBinding → Type 0
IsType b = (b.type_of ≡ redis_type_stream) ⊎ (b.type_of ≡ redis_type_pubsub)

abbrev HasLimit : RedisChannelBinding → Type 0
HasLimit b = (b.max_len ≡ pos 0) ⊎ ((b.type_of ≡ redis_type_stream) × (pos 1 ≤ℤ b.max_len))

known-IsType :
    (b : RedisChannelBinding)
    → (not (eq_text b.type_of redis_type_stream) && not (eq_text b.type_of redis_type_pubsub))
      ≡ false
    → IsType b
known-IsType b h = elim (Bool-cases (eq_text b.type_of redis_type_stream)) [
  | inl e ↦ inl ((eq_text_iff _ _).0 e)
  | inr n ↦ inr ((eq_text_iff _ _).0 (second _ (rw n at h)))
]
  where
    second : (c : Bool) → (true && not c) ≡ false → c ≡ true
    second true h = refl
    second false h = cc

limit-HasLimit :
    (there : Bool) (b : RedisChannelBinding)
    → (there ≡ false → b.max_len ≡ pos 0)
    → (there && eq_text b.type_of redis_type_pubsub) ≡ false
    → (there && ltb_ℤ b.max_len (pos 1)) ≡ false
    → IsType b
    → HasLimit b
limit-HasLimit false b unset p l t = inl (unset refl)
limit-HasLimit true b unset p l (inl s) = inr (s, ground arith)
limit-HasLimit true b unset p l (inr q) = absurd (false≢true (sym p ∙ (eq_text_iff _ _).1 q))

version-known :
    (v : Text)
    → not (is_empty v || eq_text v redis_binding_version) ≡ false
    → (v ≡ []) ⊎ (v ≡ redis_binding_version)
version-known [] h = inl refl
version-known (c ∷ v) h = inr ((eq_text_iff _ _).0 (ground arith))

module _ (y : Yaml) where
  -- What the checks of a channel have found, when all of them pass.
  record Passed (f : RedisExtensionFields y) (out b : RedisChannelBinding) : Type 0 where
    known :
        (not (eq_text out.type_of redis_type_stream) && not (eq_text out.type_of redis_type_pubsub))
        ≡ false
    no_pubsub : (has y f (text "maxLen") && eq_text out.type_of redis_type_pubsub) ≡ false
    large : (has y f (text "maxLen") && ltb_ℤ out.max_len (pos 1)) ≡ false
    same : out ≡ b

  check_channel-Passed :
      (f : RedisExtensionFields y) (out b : RedisChannelBinding)
      → check_channel y f out ≡ ok (some b)
      → Passed f out b
  unfolding check_channel
  check_channel-Passed f out b e =
      let (present, e₁) = reject-bind (not (has y f (text "type"))) _ _ {a = some b} e in
      let (known, e₂) =
        reject-bind
          (not (eq_text out.type_of redis_type_stream)
            && not (eq_text out.type_of redis_type_pubsub))
          _ _ {a = some b} e₁ in
      let (pubsub, e₃) =
        reject-bind (has y f (text "maxLen") && eq_text out.type_of redis_type_pubsub) _ _
          {a = some b} e₂ in
      let (small, e₄) =
        reject-bind (has y f (text "maxLen") && ltb_ℤ out.max_len (pos 1)) _ _ {a = some b} e₃ in
      record { known = known; no_pubsub = pubsub; large = small; same = ok_some out b e₄ }
    where
      ok_some :
          (x z : RedisChannelBinding)
          → ◌≡◌ {A = Checked (Option RedisChannelBinding)} (ok (some x)) (ok (some z))
          → x ≡ z
      ok_some x z h = cc

  check_channel_sound :
      (f : RedisExtensionFields y) (out b : RedisChannelBinding)
      → (has y f (text "maxLen") ≡ false → out.max_len ≡ pos 0)
      → check_channel y f out ≡ ok (some b)
      → (out ≡ b) × IsType b × HasLimit b
  check_channel_sound f out b unset e =
      let p = check_channel-Passed f out b e in
      let t = known-IsType out p.known in
      (
        p.same,
        subst IsType p.same t,
        subst HasLimit p.same (limit-HasLimit _ out unset p.no_pubsub p.large t),
      )

  integer_field-unset :
      (f : RedisExtensionFields y) (key : Text) (v : ℤ)
      → integer_field y f key (pos 0) ≡ ok v
      → has y f key ≡ false
      → v ≡ pos 0
  unfolding integer_field has
  integer_field-unset f key v e h = ground arith

  channel_binding-parts :
      (f : RedisExtensionFields y) (b : RedisChannelBinding)
      → channel_binding y (some f) ≡ ok (some b)
      → (t : Text) × (n : ℤ) × (integer_field y f (text "maxLen") (pos 0) ≡ ok n)
        × ((f.version ≡ []) ⊎ (f.version ≡ redis_binding_version))
        × (check_channel y f (record { type_of = t; max_len = n; binding_version = f.version })
            ≡ ok (some b))
  unfolding channel_binding
  channel_binding-parts f b e =
      let (t, et, e₁) = bind-ok (string_field y f (text "type") []) _ {b = some b} e in
      let (n, en, e₂) = bind-ok (integer_field y f (text "maxLen") (pos 0)) _ {b = some b} e₁ in
      let (u, eu, e₃) =
        bind-ok (check_unknown_fields y f (text "type" ∷ text "maxLen" ∷ [])) _ {b = some b} e₂ in
      typed f.has_field t n en e₃
    where
      typed :
          (h : Bool) (t : Text) (n : ℤ)
          → integer_field y f (text "maxLen") (pos 0) ≡ ok n
          → (if not h
              then ok none
              else (check_binding_version y f >>= λ _.
                  check_channel y f
                    (record { type_of = t; max_len = n; binding_version = f.version })))
            ≡ ok (some b)
          → (t : Text) × (n : ℤ) × (integer_field y f (text "maxLen") (pos 0) ≡ ok n)
            × ((f.version ≡ []) ⊎ (f.version ≡ redis_binding_version))
            × (check_channel y f (record { type_of = t; max_len = n; binding_version = f.version })
                ≡ ok (some b))
      typed false t n en h = cc
      typed true t n en h =
          let (v, ev, c) =
            bind-ok (check_binding_version y f)
              (λ _.
                check_channel y f
                  (record { type_of = t; max_len = n; binding_version = f.version }))
              {b = some b} h in
          (
            t,
            n,
            en,
            version-known f.version (
                reject-ok (not (is_empty f.version || eq_text f.version redis_binding_version)) _
                  (unfold check_binding_version in ev)),
            c,
          )

  channel_binding_sound :
      (f : Option (RedisExtensionFields y)) (b : RedisChannelBinding)
      → channel_binding y f ≡ ok (some b)
      → IsChannelBinding b
  channel_binding_sound none b e = absurd (no_extension e)
    where
      no_extension : channel_binding y none ≡ ok (some b) → ⊥
      no_extension e = unfold channel_binding in cc
  channel_binding_sound (some f) b e =
      let (t, n, i, v, c) = channel_binding-parts f b e in
      let (same, known, limit) =
        check_channel_sound f _ b (integer_field-unset f (text "maxLen") n i) c in
      record {
        known_type = known;
        known_version =
            subst
              (λ (b : RedisChannelBinding).
                (b.binding_version ≡ []) ⊎ (b.binding_version ≡ redis_binding_version))
              same v;
        limit = limit;
      }

  -- A binding of a channel that is accepted names a stream or a pub/sub channel, declares no version or
  -- the one that is known, and limits the length only of a stream, to one entry or more.
  pub parse_redis_channel_binding-IsChannelBinding :
      (bindings : Map (Option (Binding y))) (extensions : Map y.Node) (b : RedisChannelBinding)
      → parse_redis_channel_binding y bindings extensions ≡ ok (some b)
      → IsChannelBinding b
  unfolding parse_redis_channel_binding
  parse_redis_channel_binding-IsChannelBinding bindings extensions b e =
      let (u, published, e₁) =
        bind-ok (reject_unpublished_binding y (lookup (text "redis") bindings)) _ {b = some b} e in
      let (f, read, e₂) = bind-ok (x_redis_extension_fields y extensions) _ {b = some b} e₁ in
      channel_binding_sound f b e₂

-- The channel is a stream.
abbrev pub IsStream : Option (Option RedisChannelBinding) → Type 0
IsStream channel =
    (b : RedisChannelBinding) × (channel ≡ some (some b)) × (b.type_of ≡ redis_type_stream)

is_stream-IsStream : (c : Option (Option RedisChannelBinding)) → is_stream c ≡ true → IsStream c
unfolding is_stream
is_stream-IsStream (some (some b)) h = (b, refl, (eq_text_iff b.type_of redis_type_stream).0 h)
is_stream-IsStream (some none) h = cc
is_stream-IsStream none h = cc

IsStream-is_stream : (c : Option (Option RedisChannelBinding)) → IsStream c → is_stream c ≡ true
unfolding is_stream
IsStream-is_stream c (b, e, t) = rw e ((eq_text_iff b.type_of redis_type_stream).1 t)

group_iff :
    (g : Text) (action : Action) (channel : Option (Option RedisChannelBinding))
    → ((if is_empty g then ok tt else do
      reject (not (is_receive action)) group_not_on_receive
      reject (not (is_stream channel)) group_needs_stream)
        ≡ ok tt)
      ↔ ((g ≡ []) ⊎ ((action ≡ receive) × IsStream channel))
group_iff [] action channel = (λ h. inl refl, λ h. refl)
group_iff (c ∷ g) send channel = (λ h. cc, λ h. elim h [ inl e ↦ cc | inr (e, s) ↦ cc ])
group_iff (c ∷ g) receive channel = (
  λ h. inr (refl, is_stream-IsStream channel (stream_of h)),
  λ h. elim h [ inl e ↦ cc | inr (e, s) ↦ rw (IsStream-is_stream channel s) refl ],
)
  where
    stream_of :
        reject (not (is_stream channel)) group_needs_stream ≡ ok tt → is_stream channel ≡ true
    stream_of h = let n = reject-ok (not (is_stream channel)) group_needs_stream h in ground arith

-- A consumer group is accepted exactly on a receive operation whose channel is a stream.
pub validate_redis_operation_binding_iff :
    (r : RedisOperationBinding) (action : Action) (channel : Option (Option RedisChannelBinding))
    → (validate_redis_operation_binding (some r) action channel ≡ ok tt)
      ↔ ((r.consumer_group ≡ []) ⊎ ((action ≡ receive) × IsStream channel))
validate_redis_operation_binding_iff r action channel =
    unfold validate_redis_operation_binding in group_iff r.consumer_group action channel
