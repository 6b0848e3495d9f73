-- ===== src/AsyncApi/Extensions/Aliased.antt =====
-- What the renaming of asyncapi/extensions.go leaves: no x-agen key that the walk reaches, and
-- the document itself exactly if it has none.
use agen.Prelude.{◌≡◌, ◌↔◌, refl, ap, ◌∙◌, false, if_both}
use mathlib.Core.Path.{subst}
use agen.Prelude.Text.{Text, eq_text}
use agen.AsyncApi.Message.{has_prefix}
use agen.AsyncApi.Extensions.{
  Node, scalar, alias, mapping, sequence, document, Nodes, end, node, agen_extension_prefix,
  rename_text, rename_key, rename_node, rename_pairs, rename_all, alias_x_extensions,
}

-- A key that is no x-agen extension.
unfoldable pub IsPlain : Node → Type 0
IsPlain (scalar key) = has_prefix agen_extension_prefix key ≡ false
IsPlain _ = Unit

-- No key of a mapping that the walk reaches is an x-agen extension.
unfoldable mutual
  unfolding IsPlain

  pub HasNoAgen : Node → Type 0
  HasNoAgen (scalar value) = Unit
  HasNoAgen (alias name) = Unit
  HasNoAgen (mapping content) = PairsHaveNoAgen content
  HasNoAgen (sequence content) = AllHaveNoAgen content
  HasNoAgen (document end) = Unit
  HasNoAgen (document (node n end)) = HasNoAgen n
  HasNoAgen (document (node n (node m ns))) = Unit

  pub PairsHaveNoAgen : Nodes → Type 0
  PairsHaveNoAgen end = Unit
  PairsHaveNoAgen (node key end) = Unit
  PairsHaveNoAgen (node key (node value ns)) = IsPlain key × HasNoAgen value × PairsHaveNoAgen ns

  pub AllHaveNoAgen : Nodes → Type 0
  AllHaveNoAgen end = Unit
  AllHaveNoAgen (node n ns) = HasNoAgen n × AllHaveNoAgen ns

rename_text-plain : (key : Text) → has_prefix agen_extension_prefix (rename_text key) ≡ false
unfolding rename_text has_prefix
rename_text-plain key =
    if_both (λ t. has_prefix agen_extension_prefix t ≡ false) (has_prefix agen_extension_prefix key)
      (λ _. unfold eq_text in refl) (λ h. h)

rename_text-same :
    (key : Text) → has_prefix agen_extension_prefix key ≡ false → rename_text key ≡ key
unfolding rename_text
rename_text-same key h = rw h refl

rename_key-IsPlain : (key : Node) → IsPlain (rename_key key)
unfolding rename_key IsPlain
rename_key-IsPlain (scalar key) = rename_text-plain key
rename_key-IsPlain (alias name) = tt
rename_key-IsPlain (mapping content) = tt
rename_key-IsPlain (sequence content) = tt
rename_key-IsPlain (document content) = tt

rename_key-same : (key : Node) → IsPlain key → rename_key key ≡ key
unfolding rename_key IsPlain
rename_key-same (scalar key) h = ap scalar (rename_text-same key h)
rename_key-same (alias name) h = refl
rename_key-same (mapping content) h = refl
rename_key-same (sequence content) h = refl
rename_key-same (document content) h = refl

mutual
  unfolding rename_node HasNoAgen

  rename_node-HasNoAgen : (n : Node) → HasNoAgen (rename_node n)
  rename_node-HasNoAgen (scalar value) = tt
  rename_node-HasNoAgen (alias name) = tt
  rename_node-HasNoAgen (mapping content) = rename_pairs-NoAgen content
  rename_node-HasNoAgen (sequence content) = rename_all-NoAgen content
  rename_node-HasNoAgen (document end) = tt
  rename_node-HasNoAgen (document (node n end)) = rename_node-HasNoAgen n
  rename_node-HasNoAgen (document (node n (node m ns))) = tt

  rename_pairs-NoAgen : (ns : Nodes) → PairsHaveNoAgen (rename_pairs ns)
  rename_pairs-NoAgen end = tt
  rename_pairs-NoAgen (node key end) = tt
  rename_pairs-NoAgen (node key (node value ns)) =
      (rename_key-IsPlain key, rename_node-HasNoAgen value, rename_pairs-NoAgen ns)

  rename_all-NoAgen : (ns : Nodes) → AllHaveNoAgen (rename_all ns)
  rename_all-NoAgen end = tt
  rename_all-NoAgen (node n ns) = (rename_node-HasNoAgen n, rename_all-NoAgen ns)

mutual
  unfolding rename_node HasNoAgen

  rename_node-same : (n : Node) → HasNoAgen n → rename_node n ≡ n
  rename_node-same (scalar value) h = refl
  rename_node-same (alias name) h = refl
  rename_node-same (mapping content) h = ap mapping (rename_pairs-same content h)
  rename_node-same (sequence content) h = ap sequence (rename_all-same content h)
  rename_node-same (document end) h = refl
  rename_node-same (document (node n end)) h =
      ap (λ m. document (node m end)) (rename_node-same n h)
  rename_node-same (document (node n (node m ns))) h = refl

  rename_pairs-same : (ns : Nodes) → PairsHaveNoAgen ns → rename_pairs ns ≡ ns
  rename_pairs-same end h = refl
  rename_pairs-same (node key end) h = refl
  rename_pairs-same (node key (node value ns)) (plain, has, all) =
      ap (λ k. node k (node (rename_node value) (rename_pairs ns))) (rename_key-same key plain)
      ∙ ap (λ v. node key (node v (rename_pairs ns))) (rename_node-same value has)
      ∙ ap (λ m. node key (node value m)) (rename_pairs-same ns all)

  rename_all-same : (ns : Nodes) → AllHaveNoAgen ns → rename_all ns ≡ ns
  rename_all-same end h = refl
  rename_all-same (node n ns) (has, all) =
      ap (λ m. node m (rename_all ns)) (rename_node-same n has)
      ∙ ap (λ m. node n m) (rename_all-same ns all)

-- AliasXExtensions leaves no x-agen extension among the keys that it reaches, it changes a document
-- exactly if there is one, and a second run changes nothing.
pub alias_x_extensions-HasNoAgen :
    (root : Node)
    → HasNoAgen (alias_x_extensions root)
      × ((alias_x_extensions root ≡ root) ↔ HasNoAgen root)
      × (alias_x_extensions (alias_x_extensions root) ≡ alias_x_extensions root)
unfolding alias_x_extensions
alias_x_extensions-HasNoAgen root = (
  rename_node-HasNoAgen root,
  (λ e. subst HasNoAgen e (rename_node-HasNoAgen root), λ h. rename_node-same root h),
  rename_node-same (rename_node root) (rename_node-HasNoAgen root),
)
