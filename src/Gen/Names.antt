-- ===== src/Gen/Names.antt =====
-- Go names in gen/generator.go: `goNameOf`, `pascalName`, and the names of referenced schemas, which
-- `nameSchemaRef` keeps apart.
--
-- The rules for Go names, in internal/lowering, are a parameter.
pub mod Unique
use agen.Prelude.{
  ℕ, Bool, true, false, not, ◌&&◌, List, [], ◌∷◌, ◌++◌, Option, none, some, if◌then◌else◌, ◌==◌,
  ◌+◌, ◌||◌, leb, map,
}
use agen.Prelude.Result.{ok, err, ◌>>=◌, ◌>>◌}
use agen.Prelude.Text.{Text, text, Map, lookup, insert, is_empty, eq_text, lists}
use agen.AsyncApi.Channel.Traits.{trim_prefix}
use agen.Gen.{Generated, not_exported, bad_name}

-- `lowering.PascalSpecial` and `PascalSpecialInitialisms`, where `none` is an error,
-- `token.IsExported`, and the option that chooses.
pub record GoNames : Type 0 where
  pub initialisms : Bool
  pub pascal_special : Text → Option Text
  pub pascal_special_initialisms : Text → Option Text
  pub is_exported : Text → Bool

unfoldable pub name_or_err : Text → Option Text → Generated Text
name_or_err name none = err (bad_name name)
name_or_err name (some n) = ok n

-- `strings.Join(parts, " ")`
unfoldable pub join_spaces : List Text → Text
join_spaces [] = []
join_spaces (t ∷ []) = t
join_spaces (t ∷ u ∷ s) = t ++ 32 ∷ join_spaces (u ∷ s)

unfoldable pub pascal : GoNames → Text → Generated Text
unfolding name_or_err
pascal g name =
    if g.initialisms
    then name_or_err name (g.pascal_special_initialisms name)
    else name_or_err name (g.pascal_special name)

unfoldable pub pascal_name : GoNames → List Text → Generated Text
unfolding pascal join_spaces
pascal_name g parts = pascal g (join_spaces parts)

-- The names that an extension may give, in the order in which they are tried.
abbrev pub name_keys : List Text
name_keys = text "x-agen-name" ∷ text "x-ogen-name" ∷ []

module _ {Node : Type 0} (scalar : Node → Option Text) where
  -- `scalar` is the value of a scalar node, and `none` for any other.
  unfoldable pub scalar_at : Option Node → Text
  scalar_at none = []
  scalar_at (some node) = elim (scalar node) [ none ↦ [] | some v ↦ v ]

  -- The loop of `goNameOf`, which returns the first value that is not empty.
  unfoldable pub named_by : GoNames → Map Node → List Text → Option (Generated Text)
  unfolding scalar_at lookup
  named_by g extensions [] = none
  named_by g extensions (key ∷ keys) =
      let rest = named_by g extensions keys in
      let name = scalar_at (lookup key extensions) in
      if is_empty name
      then rest
      else if not (g.is_exported name)
      then some (err (not_exported key name))
      else some (ok name)

  unfoldable pub go_name_of : GoNames → Map Node → Text → Generated Text
  unfolding named_by pascal
  go_name_of g extensions spec_name = elim (named_by g extensions name_keys) [
    | none ↦ pascal g spec_name
    | some r ↦ r
  ]

-- `strings.ToLower(s[:1]) + s[1:]`, of an ASCII first byte.
unfoldable pub lower_first : Text → Text
lower_first [] = []
lower_first (c ∷ s) = (if leb b'A' c && leb c b'Z' then c + 32 else c) ∷ s

-- `strings.Split`, at a byte, with the segment that is being read.
unfoldable pub split_from : ℕ → Text → Text → List Text
split_from sep segment [] = segment ∷ []
split_from sep segment (c ∷ t) =
    if c == sep then segment ∷ split_from sep [] t else split_from sep (segment ++ (c ∷ [])) t

-- `strings.ReplaceAll(seg, "~" + code, …)`, for a text of two bytes.
unfoldable pub replace_escape : ℕ → ℕ → Text → Text
replace_escape code by [] = []
replace_escape code by (c ∷ []) = c ∷ []
replace_escape code by (c ∷ e ∷ t) = elim (c == b'~' && e == code) [
  | true ↦ by ∷ replace_escape code by t
  | false ↦ c ∷ replace_escape code by (e ∷ t)
]

-- `strings.ReplaceAll(seg, ".", " ")`
unfoldable pub replace_dots : Text → Text
replace_dots [] = []
replace_dots (c ∷ t) = (if c == b'.' then 32 else c) ∷ replace_dots t

-- `strings.TrimSpace`, of ASCII white space.
unfoldable pub is_space : ℕ → Bool
is_space c = c == 32 || leb 9 c && leb c 13

unfoldable pub trim_left : Text → Text
unfolding is_space
trim_left [] = []
trim_left (c ∷ t) = let rest = trim_left t in if is_space c then rest else c ∷ t

unfoldable pub trim_right : Text → Text
unfolding is_space
trim_right [] = []
trim_right (c ∷ t) = let rest = trim_right t in if is_empty rest && is_space c then [] else c ∷ rest

unfoldable pub clean_segment : Text → Text
unfolding replace_escape replace_dots trim_left trim_right
clean_segment segment =
    trim_left
      (trim_right (replace_dots (replace_escape b'0' b'~' (replace_escape b'1' b'/' segment))))

-- The tails of at least two segments, the shortest first.
unfoldable pub tails_from : List Text → List (List Text)
tails_from [] = []
tails_from (s ∷ []) = []
tails_from (s ∷ t ∷ ss) = tails_from (t ∷ ss) ++ ((s ∷ t ∷ ss) ∷ [])

unfoldable pub candidates : List Text → List (List Text)
unfolding tails_from eq_text
candidates (a ∷ b ∷ c ∷ ss) =
    if eq_text a (text "components") && eq_text b (text "schemas")
    then (c ∷ ss) ∷ []
    else tails_from (a ∷ b ∷ c ∷ ss)
candidates ss = tails_from ss

-- `refNames` and `refNameUsed`
pub record Names : Type 0 where
  pub ref_names : Map Text
  pub used : List Text

unfoldable pub reserve_name : Text → Names → Names
reserve_name name names = if is_empty name then names else record names { used = name ∷ names.used }

-- The tests of a candidate's name; `rest` goes on with the other candidates.
unfoldable pub take_unused :
    Text → Names → Generated (Text × Names) → Text → Generated (Text × Names)
unfolding lists insert
take_unused ptr names rest name =
    if is_empty name
    then rest
    else if lists name names.used
    then rest
    else ok (name, record { ref_names = insert ptr name names.ref_names; used = name ∷ names.used })

-- The loop over the candidates; "" leaves the name to the default rule.
unfoldable pub first_unused : GoNames → Text → List (List Text) → Names → Generated (Text × Names)
unfolding pascal_name take_unused
first_unused g ptr [] names = ok ([], names)
first_unused g ptr (tail ∷ tails) names =
    let rest = first_unused g ptr tails names in
    if is_empty tail then rest else (pascal_name g tail >>= take_unused ptr names rest)

unfoldable pub name_ref : GoNames → Text → Option Text → Names → Generated (Text × Names)
unfolding first_unused candidates clean_segment split_from trim_prefix
name_ref g ptr (some name) names = ok (name, names)
name_ref g ptr none names =
    first_unused g ptr
      (candidates (map clean_segment (split_from b'/' [] (trim_prefix (text "#/") ptr)))) names

-- `jsonschema.Ref`: the document that a reference is into, and the pointer inside it.
pub record Ref : Type 0 where
  pub loc : Text
  pub ptr : Text

-- A pointer that does not start with `#/` is left to the default rule. The location is not looked at.
unfoldable pub name_schema_ref : GoNames → Ref → Names → Generated (Text × Names)
unfolding name_ref trim_prefix lookup eq_text
name_schema_ref g ref names =
    if not (is_empty ref.ptr) && eq_text (trim_prefix (text "#/") ref.ptr) ref.ptr
    then ok ([], names)
    else name_ref g ref.ptr (lookup ref.ptr names.ref_names) names
