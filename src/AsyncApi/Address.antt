-- ===== src/AsyncApi/Address.antt =====
-- The address templates of channels: `addressTokens` and `validateAddressParams` of
-- asyncapi/parser/parse_operation.go.
pub mod Cutting
pub mod Template
use agen.Prelude.{
  ℕ, zero, suc, ◌+◌, ◌-◌, List, [], ◌∷◌, ◌++◌, Option, none, some, ◌==◌, length, take, drop,
  if◌then◌else◌,
}
use agen.Prelude.Result.{ok, err, ◌>>=◌, ◌>>◌}
use agen.Prelude.Text.{Text, Map, lookup}
use agen.AsyncApi.{Parsed, undeclared_parameter}

-- `strings.IndexByte`
pub index_byte : Text → ℕ → Option ℕ
index_byte [] c = none
index_byte (x ∷ s) c =
    if x == c then some 0 else elim (index_byte s c) [ none ↦ none | some i ↦ some (suc i) ]

-- `s[i:j]`
abbrev pub slice : Text → ℕ → ℕ → Text
slice s i j = take (j - i) (drop i s)

-- The token between the braces, and the address behind it.
pub close : Text → ℕ → Option ℕ → Option (Text × Text)
close address start none = none
close address start (some end) =
    some (slice address (start + 1) (start + end), drop (start + end + 1) address)

pub open_brace : Text → Option ℕ → Option (Text × Text)
open_brace address none = none
open_brace address (some start) = close address start (index_byte (drop start address) b'}')

-- One round of the loop of `addressTokens`.
pub next_token : Text → Option (Text × Text)
unfolding index_byte close open_brace
next_token address = open_brace address (index_byte address b'{')

-- The loop; `none` means that the fuel ran out.
pub tokens_from : ℕ → Text → List Text → Option (List Text)
tokens_from zero address tokens = none
tokens_from (suc fuel) address tokens = elim (next_token address) [
  | none ↦ some tokens
  | some (token, rest) ↦ tokens_from fuel rest (tokens ++ token ∷ [])
]

-- Each round drops at least one byte.
unfoldable pub address_tokens : Text → Option (List Text)
unfolding tokens_from next_token
address_tokens address = tokens_from (length address + 1) address []

-- The loop of `validateAddressParams`.
unfoldable pub check_tokens {ℓ} : {P : Type ℓ} → Map P → List Text → Parsed (Unit {0})
check_tokens params [] = ok tt
check_tokens params (token ∷ tokens) =
    let rest = check_tokens params tokens in
    elim (lookup token params) [ none ↦ err (undeclared_parameter token) | some _ ↦ rest ]

-- A channel's address and parameters.
unfoldable pub validate_address_params {ℓ} :
    {P : Type ℓ} → Text → Map P → Option (Parsed (Unit {0}))
unfolding check_tokens
validate_address_params address params = elim (address_tokens address) [
  | none ↦ none
  | some tokens ↦ some (check_tokens params tokens)
]
