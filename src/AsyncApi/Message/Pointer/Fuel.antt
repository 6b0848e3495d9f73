-- ===== src/AsyncApi/Message/Pointer/Fuel.antt =====
-- The references to messages end.
use agen.Prelude.{
  ℕ, zero, suc, ◌<◌, ◌≡◌, ◌≢◌, refl, Bool, true, false, not, ◌&&◌, List, [], ◌∷◌, Option, none,
  some, arith, if_both, is_some,
}
use agen.Prelude.Result.{ok, err, ◌>>=◌, reject}
use agen.Prelude.Text.{Text, Map, lookup, is_empty, text, lists}
use agen.AsyncApi.{
  Parsed, Field, avro_not_supported, schema_format_not_supported, Error, out_of_fuel,
  cannot_resolve, cannot_decode, invalid_payload, invalid_headers, trait_overrides_headers,
  trait_overrides_correlation_id, or_err, or_err-ok,
}
use agen.AsyncApi.Traits.{set_absent, set_string, merge_bindings, add_binding}
use agen.AsyncApi.Message.{
  Message, schema_formats, contains_text, MessageTrait, RawMessage, Reader, parse_message,
  merge_message_trait, merge_message_traits, resolve_message_trait, follow_message_trait,
  reject_chained_trait, parse_optional, validate_schema_format, validate_content_type,
  content_type_or_default,
}
use agen.AsyncApi.Message.Pointer.{
  Stored, ptr_last_segment, follow_message, load_message, cached_message, parse_message_pointer,
}

-- The result is one of the code's.
Ends : {A : Type 0} → Parsed A → Type 0
Ends r = r ≢ err out_of_fuel

ok-Ends : {A : Type 0} (a : A) → Ends (ok a)
unfolding Ends
ok-Ends a e = cc

err-Ends : (e : Error) → e ≢ out_of_fuel → Ends {A = Unit {0}} (err e)
unfolding Ends
err-Ends e h = λ p. h (ground arith)

bind-Ends :
    {A B : Type 0} (step : Parsed A) (next : A → Parsed B)
    → Ends step
    → ((a : A) → Ends (next a))
    → Ends (step >>= next)
unfolding Ends
bind-Ends (ok a) next h k = k a
bind-Ends (err e) next h k = λ p. h (ground arith)

bind-Ends_at :
    {A B : Type 0} (step : Parsed A) (next : A → Parsed B)
    → Ends step
    → ((a : A) → step ≡ ok a → Ends (next a))
    → Ends (step >>= next)
unfolding Ends
bind-Ends_at (ok a) next h k = k a refl
bind-Ends_at (err e) next h k = λ p. h (ground arith)

or_err-Ends : {A : Type 0} (e : Error) (o : Option A) → e ≢ out_of_fuel → Ends (or_err e o)
unfolding Ends or_err
or_err-Ends e none h = λ p. h (ground arith)
or_err-Ends e (some a) h = ok-Ends a

reject-Ends : (b : Bool) (e : Error) → e ≢ out_of_fuel → Ends (reject b e)
unfolding Ends
reject-Ends true e h = λ p. h (ground arith)
reject-Ends false e h = ok-Ends tt

set_string-Ends : (dst src : Text) (field : Field) → Ends (set_string dst src field)
unfolding Ends set_string set_absent
set_string-Ends dst src field = λ p. ground arith

add_binding-Ends :
    {B : Type 0} (dst : Map (Option B)) (proto : Text) (b : B) (o : Option (Option B))
    → Ends (add_binding dst proto b o)
unfolding Ends add_binding
add_binding-Ends dst proto b none = λ p. cc
add_binding-Ends dst proto b (some o) = λ p. cc

merge_bindings-Ends : {B : Type 0} (dst src : Map (Option B)) → Ends (merge_bindings dst src)
unfolding merge_bindings
merge_bindings-Ends dst [] = ok-Ends dst
merge_bindings-Ends dst ((proto, none) ∷ src) = merge_bindings-Ends dst src
merge_bindings-Ends dst ((proto, some b) ∷ src) =
    bind-Ends _ _ (add_binding-Ends dst proto b (lookup proto dst)) (λ d. merge_bindings-Ends d src)

validate_schema_format-Ends : (format : Text) → Ends (validate_schema_format format)
unfolding validate_schema_format Ends
validate_schema_format-Ends format =
    if_both Ends (lists format schema_formats) (λ _. ok-Ends tt)
      (λ _.
        if_both Ends (contains_text (text "avro") format)
          (λ _. err-Ends (avro_not_supported format) (λ p. cc))
          (λ _. err-Ends (schema_format_not_supported format) (λ p. cc)))

validate_content_type-Ends : (ct : Text) → Ends (validate_content_type ct)
unfolding validate_content_type Ends
validate_content_type-Ends ct = λ p. ground arith

module _ {Binding Correlation Tag RawSchema Schema : Type 0} where
  merge_message_trait-Ends :
      (raw : Option RawSchema) (dst : Message Binding Correlation Tag RawSchema Schema)
      (t : MessageTrait Binding Correlation Tag RawSchema Schema)
      → Ends (merge_message_trait raw dst t)
  unfolding merge_message_trait
  merge_message_trait-Ends raw dst t = bind-Ends _ _ (set_string-Ends dst.name_of t.name_of _) (λ _.
      bind-Ends _ _ (set_string-Ends dst.title_of t.title_of _) (λ _.
        bind-Ends _ _ (set_string-Ends dst.summary_of t.summary_of _) (λ _.
          bind-Ends _ _ (set_string-Ends dst.description_of t.description_of _) (λ _.
            bind-Ends _ _ (set_string-Ends dst.content_type_of t.content_type_of _) (λ _.
              bind-Ends _ _ (merge_bindings-Ends dst.bindings_of t.bindings_of) (λ _.
                bind-Ends _ _
                  (reject-Ends (is_some t.headers_of && is_some raw) trait_overrides_headers
                    (λ p. cc))
                  (λ _.
                    bind-Ends _ _
                      (reject-Ends (is_some t.correlation_id && is_some dst.correlation_id)
                        trait_overrides_correlation_id (λ p. cc))
                      (λ _. ok-Ends _))))))))

  module _ (w : Reader Binding Correlation Tag RawSchema Schema) where
    open w use {pointers, decode_trait, decode_message, parse_schema}
    open pointers use {Ctx, Key, key, add_key, ptr, resolve}

    resolve_message_trait-Ends :
        (ctx : Ctx) (t : MessageTrait Binding Correlation Tag RawSchema Schema)
        → Ends (resolve_message_trait w ctx t)
    unfolding resolve_message_trait follow_message_trait reject_chained_trait Ends
    resolve_message_trait-Ends ctx t =
        if_both Ends (is_empty t.ref) (λ _. ok-Ends t)
          (λ _. bind-Ends _ _ (or_err-Ends (cannot_resolve t.ref) _ (λ p. cc)) (λ k.
            bind-Ends _ _ (or_err-Ends (cannot_resolve t.ref) (add_key ctx k) (λ p. cc)) (λ _.
              bind-Ends _ _ (or_err-Ends (cannot_resolve t.ref) (resolve (ptr k)) (λ p. cc))
                (λ node.
                  bind-Ends _ _ (or_err-Ends (cannot_decode t.ref) (decode_trait node) (λ p. cc))
                    (λ out.
                      if_both Ends (not (is_empty out.ref)) (λ _ p. cc) (λ _. ok-Ends out))))))

    merge_message_traits-Ends :
        (ctx : Ctx) (raw : Option RawSchema)
        (dst : Message Binding Correlation Tag RawSchema Schema)
        (ts : List (Option (MessageTrait Binding Correlation Tag RawSchema Schema)))
        → Ends (merge_message_traits w ctx raw dst ts)
    unfolding merge_message_traits
    merge_message_traits-Ends ctx raw dst [] = ok-Ends dst
    merge_message_traits-Ends ctx raw dst (none ∷ ts) = merge_message_traits-Ends ctx raw dst ts
    merge_message_traits-Ends ctx raw dst (some t ∷ ts) =
        bind-Ends _ _ (resolve_message_trait-Ends ctx t) (λ r.
          bind-Ends _ _ (merge_message_trait-Ends raw dst r)
            (λ d. merge_message_traits-Ends ctx raw d ts))

    parse_optional-Ends :
        (e : Error) (ctx : Ctx) (raw : Option RawSchema)
        → e ≢ out_of_fuel
        → Ends (parse_optional w e ctx raw)
    unfolding parse_optional
    parse_optional-Ends e ctx none h = ok-Ends none
    parse_optional-Ends e ctx (some raw) h =
        bind-Ends _ _ (or_err-Ends e (parse_schema ctx raw) h) (λ s. ok-Ends (some s))

    parse_message-Ends :
        (ctx : Ctx) (n : Text) (raw : RawMessage Binding Correlation Tag RawSchema Schema)
        → Ends (parse_message w ctx n raw)
    unfolding parse_message
    parse_message-Ends ctx n raw =
        bind-Ends _ _ (validate_schema_format-Ends raw.schema_format) (λ _.
          bind-Ends _ _ (merge_message_traits-Ends ctx raw.headers_of _ raw.traits_of) (λ m.
            bind-Ends _ _ (parse_optional-Ends invalid_payload ctx raw.payload_of (λ p. cc)) (λ _.
              bind-Ends _ _ (parse_optional-Ends invalid_headers ctx raw.headers_of (λ p. cc)) (λ _.
                bind-Ends _ _
                  (validate_content_type-Ends (content_type_or_default w m.content_type_of))
                  (λ _. ok-Ends _)))))

    -- How many keys a context can still take, by the depth limit.
    module _ (room : Ctx → ℕ)
        (add_key-room : (c : Ctx) (k : Key) (c' : Ctx)
          → add_key c k ≡ some c'
          → room c' < room c) where
      load_message-Ends :
          (n : ℕ)
          → ((c : Ctx) (r : Text) (s : Stored w)
              → room c < n
              → Ends (parse_message_pointer w n c r s))
          → (ctx : Ctx) (ref : Text) (k : Key) (st : Stored w) → room ctx < suc n
          → Ends (load_message w (λ c r s. parse_message_pointer w n c r s) ctx ref k st)
      unfolding load_message follow_message
      load_message-Ends n ends ctx ref k st enough =
          bind-Ends_at _ _ (or_err-Ends (cannot_resolve ref) (add_key ctx k) (λ p. cc)) (λ inner e.
            bind-Ends _ _ (or_err-Ends (cannot_resolve ref) (resolve (ptr k)) (λ p. cc)) (λ node.
              bind-Ends _ _ (or_err-Ends (cannot_decode ref) (decode_message node) (λ p. cc))
                (λ raw.
                  if_both Ends (not (is_empty raw.ref))
                    (λ _. ends inner raw.ref st (
                      omega (
                        arith,
                        add_key-room ctx k inner
                            (or_err-ok (cannot_resolve ref) (add_key ctx k) inner e),
                      )))
                    (λ _.
                      bind-Ends _ _
                        (parse_message-Ends inner (ptr_last_segment (ptr k)) raw.message)
                        (λ m. ok-Ends _)))))

      -- If adding a key to a context leaves less room in it, then with more fuel than there is room,
      -- the references from any pointer to a message end: they give a message or an error of the code.
      pub parse_message_pointer_ends :
          (n : ℕ) (ctx : Ctx) (ref : Text) (st : Stored w)
          → room ctx < n
          → parse_message_pointer w n ctx ref st ≢ err out_of_fuel
      unfolding parse_message_pointer cached_message Ends
      parse_message_pointer_ends zero ctx ref st enough = absurd (omega arith)
      parse_message_pointer_ends (suc n) ctx ref st enough =
          bind-Ends _ _ (or_err-Ends (cannot_resolve ref) (key ctx ref) (λ p. cc)) (λ k.
            elim (lookup (ptr k) st.cached)
              as (λ o.
                Ends (cached_message w (λ c r s. parse_message_pointer w n c r s) ctx ref k st o)) [
                  | some i ↦ ok-Ends (i, st)
                  | none ↦
                      load_message-Ends n (λ c r s. parse_message_pointer_ends n c r s) ctx ref k st
                        enough
                ])
