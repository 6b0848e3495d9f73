-- ===== src/AsyncApi/Channel/Renamed.antt =====
-- A parameter that several channels refer to is one object, and has the name of the last.
use agen.Prelude.{
  ℕ, ◌<◌, ◌≡◌, refl, sym, ap, ◌∙◌, false, Option, none, some, arith, length, get_elem?, set,
  get_elem?-set_self,
}
use mathlib.Core.Path.{subst}
use agen.Prelude.Result.{ok, ◌>>=◌, bind-ok}
use agen.Prelude.Text.{Text, lookup, lookup-insert, eq_text_iff, is_empty}
use agen.AsyncApi.{Parsed, Pointers, cannot_resolve, cannot_decode, or_err}
use agen.AsyncApi.Message.Pointer.{Store, alloc, cache, update}
use agen.AsyncApi.Channel.{
  RawParameter, ParameterRef, Parameter, rename, load_parameter, cached_parameter,
  parse_parameter_pointer, parse_parameter,
}
use agen.AsyncApi.Channel.Storing.{IsInside, Steps, parse_parameter-Steps, get_elem?-below}

update-cached :
    (i : ℕ) (f : Parameter → Parameter) (st : Store Parameter) → (update i f st).cached ≡ st.cached
unfolding update
update-cached i f st =
    elim (get_elem? st.heap i)
      as (λ o.
        (elim o as (λ _. Store Parameter) [
          | none ↦ st
          | some m ↦ record { heap = set st.heap i (f m); cached = st.cached }
        ]).cached
        ≡ st.cached) [ none ↦ refl | some m ↦ refl ]

update-named :
    (i : ℕ) (name : Text) (st : Store Parameter) (q : Parameter)
    → get_elem? st.heap i ≡ some q
    → i < length st.heap
    → get_elem? (update i (rename name) st).heap i ≡ some (rename name q)
unfolding update
update-named i name st q e below =
    ap
      (λ o.
        get_elem?
          (elim o as (λ _. Store Parameter) [
            | none ↦ st
            | some m ↦ record { heap = set st.heap i (rename name m); cached = st.cached }
          ]).heap
          i)
      e
    ∙ get_elem?-set_self st.heap i (rename name q) below

-- The second half of a referenced parameter.
abbrev named : Text → ℕ × Store Parameter → Parsed (ℕ × Store Parameter)
named name found = ok (found.0, update (found.0) (rename name) (found.1))

module _ (p : Pointers) (decode : p.Node → Option RawParameter) where
  open p use {Ctx, Key, key, add_key, ptr, resolve}

  load_parameter-hit :
      (ctx : Ctx) (ref : Text) (k : Key) (st t : Store Parameter) (i : ℕ)
      → load_parameter p decode ctx ref k st ≡ ok (i, t)
      → lookup (ptr k) t.cached ≡ some i
  unfolding load_parameter alloc cache
  load_parameter-hit ctx ref k st t i h =
      let (inner, _, h₁) = bind-ok (or_err (cannot_resolve ref) (add_key ctx k)) _ h in
      let (node, _, h₂) = bind-ok (or_err (cannot_resolve ref) (resolve (ptr k))) _ h₁ in
      let (raw, _, h₃) = bind-ok (or_err (cannot_decode ref) (decode node)) _ h₂ in
      ground (
        arith,
        lookup-insert (ptr k) (ptr k) (length st.heap) st.cached,
        eq_text_iff (ptr k) (ptr k),
      )

  cached_parameter-hit :
      (ctx : Ctx) (ref : Text) (k : Key) (st t : Store Parameter) (i : ℕ) (o : Option ℕ)
      → o ≡ lookup (ptr k) st.cached
      → cached_parameter p decode ctx ref k st o ≡ ok (i, t)
      → lookup (ptr k) t.cached ≡ some i
  unfolding cached_parameter
  cached_parameter-hit ctx ref k st t i (some j) e h = ground arith
  cached_parameter-hit ctx ref k st t i none e h = load_parameter-hit ctx ref k st t i h

  pointer-again :
      (ctx : Ctx) (ref : Text) (st t s : Store Parameter) (i : ℕ)
      → parse_parameter_pointer p decode ctx ref st ≡ ok (i, t)
      → s.cached ≡ t.cached
      → parse_parameter_pointer p decode ctx ref s ≡ ok (i, s)
  unfolding parse_parameter_pointer cached_parameter
  pointer-again ctx ref st t s i h same =
      let (k, e, h₁) = bind-ok (or_err (cannot_resolve ref) (key ctx ref)) _ h in
      rw (e, same, cached_parameter-hit ctx ref k st t i (lookup (ptr k) st.cached) refl h₁)

  referenced :
      (ctx : Ctx) (name : Text) (pref : ParameterRef) (st : Store Parameter)
      → is_empty pref.ref ≡ false
      → parse_parameter p decode ctx name pref st
        ≡ (parse_parameter_pointer p decode ctx pref.ref st >>= named name)
  unfolding parse_parameter
  referenced ctx name pref st h = rw h

  -- If two parameters of channels refer to one parameter of the document, the second, under the name
  -- `b`, gets the pointer of the first, and what it points at is then named `b`: the name that the
  -- first had given is lost.
  pub parse_parameter-shared :
      (ctx : Ctx) (a b : Text) (pref : ParameterRef) (st s : Store Parameter) (i : ℕ)
      → is_empty pref.ref ≡ false
      → IsInside st
      → parse_parameter p decode ctx a pref st ≡ ok (i, s)
      → (s' : Store Parameter) × (parse_parameter p decode ctx b pref s ≡ ok (i, s'))
        × ((q : Parameter) × (get_elem? s'.heap i ≡ some q) × (q.name_of ≡ b))
  parse_parameter-shared ctx a b pref st s i some_ref inside h =
      let pointed : (parse_parameter_pointer p decode ctx pref.ref st >>= named a) ≡ ok (i, s) =
        sym (referenced ctx a pref st some_ref) ∙ h in
      let ((j, t), e, h₁) = bind-ok (parse_parameter_pointer p decode ctx pref.ref st) _ pointed in
      let same : j ≡ i = ground arith in
      let made : update j (rename a) t ≡ s = ground arith in
      let kept : s.cached ≡ t.cached =
        ap (λ (x : Store Parameter). x.cached) (sym made) ∙ update-cached j (rename a) t in
      let found : parse_parameter_pointer p decode ctx pref.ref s ≡ ok (j, s) =
        pointer-again ctx pref.ref st t s j e kept in
      let steps = parse_parameter-Steps p decode ctx a pref st s i inside h in
      let below : i < length s.heap = unfold Steps in steps.1 in
      let (q, at) = get_elem?-below s.heap i below in
      (
        update i (rename b) s,
        referenced ctx b pref s some_ref
            ∙ subst
                (λ x.
                  (parse_parameter_pointer p decode ctx pref.ref s >>= named b)
                  ≡ ok (x, update x (rename b) s))
                same (ap (λ r. r >>= named b) found),
        (rename b q, update-named i b s q at below, refl),
      )
