-- ===== src/Gen/Building/Safe.antt =====
-- buildChannel and buildMessage read no nil pointer if those of the document point at something.
use agen.Prelude.{
  ℕ, ◌≡◌, ◌≢◌, refl, sym, ap, ◌∙◌, not, List, [], ◌∷◌, Option, none, some, if_both, get_or_else,
}
use mathlib.Core.Path.{subst}
use agen.Prelude.Result.{ok, err, ◌>>=◌}
use agen.Prelude.Text.{Text, Map, lookup, is_empty, eq_text}
use agen.AsyncApi.Address.{address_tokens}
use agen.AsyncApi.Message
use agen.AsyncApi.Channel.{Parameter}
use agen.AsyncApi.Channel
use agen.Gen.{Generated, nil_dereference}
use agen.Gen.Names.{GoNames, Names, name_or_err, pascal, name_keys, named_by, scalar_at, go_name_of}
use agen.Gen.Parts.{
  Model, Engine, State, find, or_nil, built_param, build_channel, channel_params, new_channel,
  channel_for,
}

-- A result other than a nil pointer that is read.
abbrev pub IsSafe {ℓ} : {A : Type ℓ} → Generated A → Type ℓ
IsSafe r = r ≢ err nil_dereference

pub ok-IsSafe {ℓ} : {A : Type ℓ} (a : A) → IsSafe (ok a)
ok-IsSafe a e = cc

pub bind-IsSafe {ℓ κ} :
    {A : Type ℓ} {B : Type κ} (step : Generated A) (next : A → Generated B)
    → IsSafe step
    → ((a : A) → step ≡ ok a → IsSafe (next a))
    → IsSafe (step >>= next)
bind-IsSafe (ok a) next safe later = later a refl
bind-IsSafe (err e) next safe later = λ h. let same : e ≡ nil_dereference = cc in safe (ap err same)

pub or_nil-IsSafe {ℓ} : {A : Type ℓ} (o : Option A) (a : A) → o ≡ some a → IsSafe (or_nil o)
unfolding or_nil
or_nil-IsSafe none a e = cc
or_nil-IsSafe (some b) a e = ok-IsSafe b

or_nil-same {ℓ} : {A : Type ℓ} (o : Option A) (a b : A) → o ≡ some a → or_nil o ≡ ok b → a ≡ b
unfolding or_nil
or_nil-same none a b e h = cc
or_nil-same (some c) a b e h = cc

pub name_or_err-IsSafe : (name : Text) (o : Option Text) → IsSafe (name_or_err name o)
unfolding name_or_err
name_or_err-IsSafe name none e = cc
name_or_err-IsSafe name (some n) e = cc

module _ {Node : Type 0} (scalar : Node → Option Text) (g : GoNames) where
  named_by-IsSafe :
      (extensions : Map Node) (keys : List Text) (r : Generated Text)
      → named_by scalar g extensions keys ≡ some r
      → IsSafe r
  unfolding named_by
  named_by-IsSafe extensions [] r h = cc
  named_by-IsSafe extensions (key ∷ keys) r h =
      let name = scalar_at scalar (lookup key extensions) in
      if_both (λ x. x ≡ some r → IsSafe r) (is_empty name)
        (λ _ h'. named_by-IsSafe extensions keys r h')
        (λ _.
          if_both (λ x. x ≡ some r → IsSafe r) (not (g.is_exported name)) (λ _ h' e. cc)
            (λ _ h' e. cc))
        h

  pub go_name_of-IsSafe :
      (extensions : Map Node) (name : Text) → IsSafe (go_name_of scalar g extensions name)
  unfolding go_name_of pascal
  go_name_of-IsSafe extensions name =
      elim (named_by scalar g extensions name_keys)
          as (λ o.
            named_by scalar g extensions name_keys ≡ o
            → IsSafe (elim o [ none ↦ pascal g name | some r ↦ r ])) [
              | none ↦ λ _.
                  if_both (λ (x : Generated Text). IsSafe x) g.initialisms
                    (λ _. name_or_err-IsSafe name (g.pascal_special_initialisms name))
                    (λ _. name_or_err-IsSafe name (g.pascal_special name))
              | some r ↦ λ e. named_by-IsSafe extensions name_keys r e
            ]
        refl

module _ {MessageBinding Correlation Requirement B Tag Node RawSchema Schema : Type 0}
    (model : Model MessageBinding Correlation Requirement B Tag Node RawSchema Schema)
    (engine : Engine Schema) where
  -- What a pointer points at.
  unfoldable pub AllParameters : Map ℕ → Type 0
  AllParameters [] = Unit
  AllParameters ((name, i) ∷ m) =
      ((p : Parameter) × (model.parameter_at i ≡ some p)) × AllParameters m

  unfoldable pub AllMessages : List ℕ → Type 0
  AllMessages [] = Unit
  AllMessages (k ∷ ks) =
      ((m : Message.Message MessageBinding Correlation Tag RawSchema Schema) × (model.message_at k
          ≡ some m))
      × AllMessages ks

  abbrev pub HasChannel : ℕ → Type 0
  HasChannel k =
      (ch : Channel.Channel B Tag Node) × (model.channel_at k ≡ some ch)
      × AllParameters ch.parameters_of

  AllParameters-lookup :
      (name : Text) (i : ℕ) (m : Map ℕ)
      → lookup name m ≡ some i
      → AllParameters m
      → (p : Parameter) × (model.parameter_at i ≡ some p)
  unfolding AllParameters lookup
  AllParameters-lookup name i [] h all = cc
  AllParameters-lookup name i ((j, l) ∷ m) h (first, all) =
      if_both (λ x. x ≡ some i → (p : Parameter) × (model.parameter_at i ≡ some p)) (eq_text j name)
        (λ _ e. let same : l ≡ i = cc in (first.0, ap model.parameter_at (sym same) ∙ first.1))
        (λ _ e. AllParameters-lookup name i m e all) h

  channel_params-IsSafe :
      (parameters : Map ℕ) (tokens : List Text)
      → AllParameters parameters
      → IsSafe (channel_params model engine parameters tokens)
  unfolding channel_params
  channel_params-IsSafe parameters [] all = ok-IsSafe []
  channel_params-IsSafe parameters (token ∷ tokens) all =
      let rest = channel_params model engine parameters tokens in
      let safe = channel_params-IsSafe parameters tokens all in
      elim (lookup token parameters)
          as (λ o.
            lookup token parameters ≡ o
            → IsSafe (elim o [
              | none ↦ rest
              | some i ↦
                  (or_nil (model.parameter_at i) >>= λ p.
                  rest >>= λ params. ok (built_param model engine p ∷ params))
            ])) [
              | none ↦ λ _. safe
              | some i ↦ λ found.
                  let (p, at) = AllParameters-lookup token i parameters found all in
                  bind-IsSafe (or_nil (model.parameter_at i)) _
                    (or_nil-IsSafe (model.parameter_at i) p at)
                    (λ p' _.
                      bind-IsSafe rest _ safe
                        (λ params _. ok-IsSafe (built_param model engine p' ∷ params)))
            ]
        refl

  build_channel-IsSafe :
      (ch : Channel.Channel B Tag Node) (names : Names)
      → AllParameters ch.parameters_of
      → IsSafe (build_channel model engine ch names)
  unfolding build_channel
  build_channel-IsSafe ch names all =
      bind-IsSafe (go_name_of model.scalar model.rules ch.extensions ch.name_of) _
        (go_name_of-IsSafe model.scalar model.rules ch.extensions ch.name_of)
        (λ go_name _.
          bind-IsSafe
            (channel_params model engine ch.parameters_of
              (get_or_else [] (address_tokens ch.address)))
            _
            (channel_params-IsSafe ch.parameters_of (get_or_else [] (address_tokens ch.address))
              all)
            (λ params _. ok-IsSafe _))

  new_channel-IsSafe :
      (k : ℕ) (st : State model engine) → HasChannel k → IsSafe (new_channel model engine k st)
  unfolding new_channel
  new_channel-IsSafe k st (ch, at, all) =
      bind-IsSafe (or_nil (model.channel_at k)) _ (or_nil-IsSafe (model.channel_at k) ch at)
        (λ ch' e.
          let same : ch ≡ ch' = or_nil-same (model.channel_at k) ch ch' at e in
          bind-IsSafe (build_channel model engine ch' st.names) _
            (build_channel-IsSafe ch' st.names
              (subst (λ c. AllParameters c.parameters_of) same all))
            (λ built _. ok-IsSafe _))

  pub channel_for-IsSafe :
      (k : ℕ) (st : State model engine) → HasChannel k → IsSafe (channel_for model engine k st)
  unfolding channel_for
  channel_for-IsSafe k st placed =
      elim (find k st.seen_channels)
        as (λ o. IsSafe (elim o [ none ↦ new_channel model engine k st | some i ↦ ok (i, st) ])) [
          | none ↦ new_channel-IsSafe k st placed
          | some i ↦ ok-IsSafe (i, st)
        ]
