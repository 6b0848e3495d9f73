-- ===== src/AsyncApi/Extensions/Tests.antt =====
-- A run of `AliasXExtensions`, and the theorem about it at this run.
use agen.Prelude.{◌≡◌, ◌↔◌, refl}
use agen.Prelude.Text.{text, eq_text}
use agen.AsyncApi.Extensions.{Node, scalar, alias, mapping, document, end, node, alias_x_extensions}
use agen.AsyncApi.Extensions.Aliased.{HasNoAgen, alias_x_extensions-HasNoAgen}

-- Only the first key is renamed: the value that follows is no key, nor is what an alias names.
abbrev extended : Node
extended = document (
    node
      (mapping (
        node (scalar (text "x-agen-name")) (
          node (scalar (text "x-agen-name"))
            (node (scalar (text "payload")) (node (alias (text "x-agen-type")) end)))))
      end)

renames_first :
    alias_x_extensions extended
    ≡ document (
        node
          (mapping (
            node (scalar (text "x-ogen-name")) (
              node
                (scalar (text "x-agen-name"))
                (node (scalar (text "payload")) (node (alias (text "x-agen-type")) end)))))
          end)
unfolding alias_x_extensions eq_text
renames_first = refl

alias_x_extensions-HasNoAgen_example :
    HasNoAgen (alias_x_extensions extended)
    × ((alias_x_extensions extended ≡ extended) ↔ HasNoAgen extended)
    × (alias_x_extensions (alias_x_extensions extended) ≡ alias_x_extensions extended)
alias_x_extensions-HasNoAgen_example = alias_x_extensions-HasNoAgen extended
