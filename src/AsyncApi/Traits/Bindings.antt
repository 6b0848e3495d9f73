-- ===== src/AsyncApi/Traits/Bindings.antt =====
-- What merging bindings does to the map of a protocol.
use agen.Prelude.{
  ◌≡◌, ◌≢◌, refl, [], ◌∷◌, Option, none, some, arith, inl, inr, Option-cases, if◌then◌else◌,
}
use agen.Prelude.Result.{ok, err, bind-ok}
use agen.Prelude.Text.{Text, Map, eq_text, eq_text_iff, lookup, insert, lookup-insert}
use agen.AsyncApi.{bindings, Error, trait_overrides_entry}
use agen.AsyncApi.Traits.{add_binding, merge_bindings}

module _ {ℓ} {B : Type ℓ} where
  -- The binding that a source declares for a protocol; a nil one declares none.
  abbrev pub declared : Text → Map (Option B) → Option (Option B)
  declared k [] = none
  declared k ((j, none) ∷ src) = declared k src
  declared k ((j, some b) ∷ src) = if eq_text j k then some (some b) else declared k src

  abbrev pub or_else : Option (Option B) → Option (Option B) → Option (Option B)
  or_else (some b) o = some b
  or_else none o = o

  add_binding-lookup :
      (dst out : Map (Option B)) (j : Text) (b : B)
      → add_binding dst j b (lookup j dst) ≡ ok out
      → (lookup j dst ≡ none) × (out ≡ insert j (some b) dst)
  unfolding add_binding
  add_binding-lookup dst out j b e = (ground arith, ground arith)

  -- A successful merge keeps every binding of the destination, adds those that the source declares
  -- for other protocols, and nothing else.
  pub lookup-merge_bindings :
      (src dst out : Map (Option B)) (k : Text)
      → merge_bindings dst src ≡ ok out
      → lookup k out ≡ or_else (lookup k dst) (declared k src)
  unfolding merge_bindings
  lookup-merge_bindings [] dst out k e = ground arith
  lookup-merge_bindings ((j, none) ∷ src) dst out k e = lookup-merge_bindings src dst out k e
  lookup-merge_bindings ((j, some b) ∷ src) dst out k e =
      let (mid, added, rest) = bind-ok (add_binding dst j b (lookup j dst)) _ e in
      let (fresh, mid') = add_binding-lookup dst mid j b added in
      ground (
        arith,
        lookup-merge_bindings src mid out k rest,
        mid',
        fresh,
        lookup-insert j k (some b) dst,
        eq_text_iff j k,
      )

  -- The error of a merge names a protocol that the source declares.
  pub merge_bindings-conflict :
      (src dst : Map (Option B)) {e : Error}
      → merge_bindings dst src ≡ err e
      → (k : Text) × (e ≡ trait_overrides_entry bindings k) × (declared k src ≢ none)
  unfolding merge_bindings add_binding
  merge_bindings-conflict [] dst e = cc
  merge_bindings-conflict ((j, none) ∷ src) dst e = merge_bindings-conflict src dst e
  merge_bindings-conflict ((j, some b) ∷ src) dst {e = w} e = elim (Option-cases (lookup j dst)) [
    | inl fresh ↦
        let (k, named, there) =
          merge_bindings-conflict src (insert j (some b) dst) {e = w} (rw fresh at e) in
        (k, named, λ z. there (ground arith))
    | inr (o, old) ↦ (j, ground arith, λ z. ground (arith, eq_text_iff j j))
  ]

  -- Where the destination has a binding for a protocol that the source declares, the merge is an error.
  pub merge_bindings-refuses :
      (src dst : Map (Option B)) (k : Text)
      → declared k src ≢ none
      → lookup k dst ≢ none
      → (e : Error) × (merge_bindings dst src ≡ err e)
  unfolding merge_bindings add_binding
  merge_bindings-refuses [] dst k d l = absurd (d refl)
  merge_bindings-refuses ((j, none) ∷ src) dst k d l = merge_bindings-refuses src dst k d l
  merge_bindings-refuses ((j, some b) ∷ src) dst k d l = elim (Option-cases (lookup j dst)) [
    | inl fresh ↦
        let (e, refused) =
          merge_bindings-refuses src (insert j (some b) dst) k
            (λ z. d (ground (arith, eq_text_iff j k)))
            (λ z. l (ground (arith, lookup-insert j k (some b) dst))) in
        (e, rw fresh refused)
    | inr (o, old) ↦ (trait_overrides_entry bindings j, rw old refl)
  ]
