-- ===== src/Broker/Tests.antt =====
-- Runs of a chain of middlewares, and the theorem about it at one.
use agen.Prelude.{ℕ, ◌≡◌, refl, List, [], ◌∷◌, ◌++◌, Option, none, some}
use agen.Broker.Chain.{chain, chain-append}

-- A handler is the list of those that have wrapped it.
abbrev mark : ℕ → Option (List ℕ → List ℕ)
mark n = some (λ next. n ∷ next)

abbrev outer : List (Option (List ℕ → List ℕ))
outer = mark 1 ∷ none ∷ mark 2 ∷ []

abbrev inner : List (Option (List ℕ → List ℕ))
inner = mark 3 ∷ []

first_is_outermost : chain (outer ++ inner) (9 ∷ []) ≡ 1 ∷ 2 ∷ 3 ∷ 9 ∷ []
unfolding chain
first_is_outermost = refl

chain-append_example : chain (outer ++ inner) (9 ∷ []) ≡ chain outer (chain inner (9 ∷ []))
chain-append_example = chain-append outer inner (9 ∷ [])
