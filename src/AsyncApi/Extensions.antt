-- ===== src/AsyncApi/Extensions.antt =====
-- asyncapi/extensions.go: the x-agen extensions of a document become x-ogen extensions.
--
-- The nodes of a document are a tree. What an alias refers to is a part of the tree itself, so the
-- code does not follow aliases.
pub mod Aliased
mod Tests
use agen.Prelude.{◌++◌, if◌then◌else◌}
use agen.Prelude.Text.{Text, text}
use agen.AsyncApi.Message.{has_prefix}
use agen.AsyncApi.Channel.Traits.{trim_prefix}

-- `yaml.Node`, by its kind.
mutual
  pub data Node : Type 0 where
    scalar alias : Text → Node
    mapping sequence document : Nodes → Node

  pub data Nodes : Type 0 where
    end : Nodes
    node : Node → Nodes → Nodes

abbrev pub agen_extension_prefix : Text
agen_extension_prefix = text "x-agen-"

unfoldable pub rename_text : Text → Text
unfolding has_prefix trim_prefix
rename_text key =
    if has_prefix agen_extension_prefix key
    then text "x-ogen-" ++ trim_prefix agen_extension_prefix key
    else key

-- Only a scalar key is renamed; what stands below a key is left alone.
unfoldable pub rename_key : Node → Node
unfolding rename_text
rename_key (scalar key) = scalar (rename_text key)
rename_key (alias name) = alias name
rename_key (mapping content) = mapping content
rename_key (sequence content) = sequence content
rename_key (document content) = document content

-- `walkRenameExtensions`, of one node, of the pairs of a mapping, and of a list of nodes.
unfoldable mutual
  unfolding rename_key

  pub rename_node : Node → Node
  rename_node (scalar value) = scalar value
  rename_node (alias name) = alias name
  rename_node (mapping content) = mapping (rename_pairs content)
  rename_node (sequence content) = sequence (rename_all content)
  rename_node (document end) = document end
  rename_node (document (node n end)) = document (node (rename_node n) end)
  rename_node (document (node n (node m ns))) = document (node n (node m ns))

  -- A key without a value is left alone.
  pub rename_pairs : Nodes → Nodes
  rename_pairs end = end
  rename_pairs (node key end) = node key end
  rename_pairs (node key (node value ns)) =
      node (rename_key key) (node (rename_node value) (rename_pairs ns))

  pub rename_all : Nodes → Nodes
  rename_all end = end
  rename_all (node n ns) = node (rename_node n) (rename_all ns)

unfoldable pub alias_x_extensions : Node → Node
unfolding rename_node
alias_x_extensions root = rename_node root
