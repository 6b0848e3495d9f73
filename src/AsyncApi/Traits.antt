-- ===== src/AsyncApi/Traits.antt =====
-- asyncapi/parser/traits.go: merging operation traits. A trait must not override a field that the
-- object, or a trait before it, has set.
--
-- After an error the operation is given up, so its half-merged state is not modelled.
pub mod Merged
pub mod Bindings
use agen.Prelude.{not, List, [], ◌∷◌, Option, none, some, if◌then◌else◌}
use agen.Prelude.Result.{ok, err, ◌>>=◌, ◌>>◌}
use agen.Prelude.Text.{Text, Map, is_empty, lookup, insert}
use agen.AsyncApi.{
  Parsed, Field, title, summary, description, security, bindings, trait_overrides,
  trait_overrides_entry, cannot_resolve, cannot_decode, chained_reference, Pointers, or_err,
}

-- `setString`, `mergeSecurity` and `mergeTags`: take the source if the destination is empty.
unfoldable pub set_absent {ℓ} : {A : Type ℓ} → List A → List A → Field → Parsed (List A)
set_absent dst src field =
    if is_empty src
    then ok dst
    else if not (is_empty dst)
    then err (trait_overrides field)
    else ok src

unfoldable pub set_string : Text → Text → Field → Parsed Text
unfolding set_absent
set_string dst src field = set_absent dst src field

unfoldable pub merge_security {ℓ} : {A : Type ℓ} → List A → List A → Field → Parsed (List A)
unfolding set_absent
merge_security dst src field = set_absent dst src field

unfoldable pub merge_tags {ℓ} : {A : Type ℓ} → List A → List A → Field → Parsed (List A)
unfolding set_absent
merge_tags dst src field = set_absent dst src field

-- One round of the loop of `mergeBindingsOp`, on whether the protocol is there.
unfoldable pub add_binding {ℓ} :
    {B : Type ℓ} → Map (Option B) → Text → B → Option (Option B) → Parsed (Map (Option B))
add_binding dst proto b none = ok (insert proto (some b) dst)
add_binding dst proto b (some _) = err (trait_overrides_entry bindings proto)

-- `mergeBindingsOp`, `mergeBindingsChannel` and `mergeBindingsMessage`; a nil binding is skipped.
unfoldable pub merge_bindings {ℓ} :
    {B : Type ℓ} → Map (Option B) → Map (Option B) → Parsed (Map (Option B))
unfolding add_binding
merge_bindings dst [] = ok dst
merge_bindings dst ((proto, none) ∷ src) = merge_bindings dst src
merge_bindings dst ((proto, some b) ∷ src) = do
  dst' ← add_binding dst proto b (lookup proto dst)
  merge_bindings dst' src

-- Security requirements and bindings are not looked into here.
module _ (Requirement Binding : Type 0) where
  pub record OperationTrait : Type 0 where
    pub ref : Text
    pub title_of : Text
    pub summary_of : Text
    pub description_of : Text
    pub security_of : List Requirement
    pub bindings_of : Map (Option Binding)

  -- The fields of `Operation` that a trait may set.
  pub record Operation : Type 0 where
    pub title_of : Text
    pub summary_of : Text
    pub description_of : Text
    pub security_of : List Requirement
    pub bindings_of : Map (Option Binding)

  -- The body of the loop of `mergeOperationTraits`, behind the resolution.
  unfoldable pub merge_trait : Operation → OperationTrait → Parsed Operation
  unfolding set_string merge_security
  merge_trait dst resolved = do
    t ← set_string dst.title_of resolved.title_of title
    s ← set_string dst.summary_of resolved.summary_of summary
    d ← set_string dst.description_of resolved.description_of description
    q ← merge_security dst.security_of resolved.security_of security
    b ← merge_bindings dst.bindings_of resolved.bindings_of
    ok (record {
      title_of = t;
      summary_of = s;
      description_of = d;
      security_of = q;
      bindings_of = b;
    })

  -- `p` is the document, and `decode` reads a trait from a node.
  module _ (p : Pointers) (decode : p.Node → Option OperationTrait) where
    unfoldable pub reject_chained : Text → OperationTrait → Parsed OperationTrait
    reject_chained ref out = if not (is_empty out.ref) then err (chained_reference ref) else ok out

    unfoldable pub follow : p.Ctx → Text → Parsed OperationTrait
    unfolding or_err reject_chained
    follow ctx ref = do
      key ← or_err (cannot_resolve ref) (p.key ctx ref)
      inner ← or_err (cannot_resolve ref) (p.add_key ctx key)
      node ← or_err (cannot_resolve ref) (p.resolve (p.ptr key))
      out ← or_err (cannot_decode ref) (decode node)
      reject_chained ref out

    unfoldable pub resolve_operation_trait : p.Ctx → OperationTrait → Parsed OperationTrait
    unfolding follow
    resolve_operation_trait ctx trait =
        if is_empty trait.ref then ok trait else follow ctx trait.ref

    -- A nil trait is skipped.
    unfoldable pub merge_operation_traits :
        p.Ctx → Operation → List (Option OperationTrait) → Parsed Operation
    unfolding resolve_operation_trait merge_trait
    merge_operation_traits ctx dst [] = ok dst
    merge_operation_traits ctx dst (none ∷ traits) = merge_operation_traits ctx dst traits
    merge_operation_traits ctx dst (some trait ∷ traits) = do
      resolved ← resolve_operation_trait ctx trait
      dst' ← merge_trait dst resolved
      merge_operation_traits ctx dst' traits
