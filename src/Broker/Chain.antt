-- ===== src/Broker/Chain.antt =====
-- runtime/broker/broker.go: `Chain`. A handler is opaque here: a chain only passes handlers on.
use agen.Prelude.{ℕ, zero, suc, ◌≡◌, refl, List, [], ◌∷◌, ◌++◌, Option, none, some, length}

module _ {ℓ} {Handler : Type ℓ} where
  -- A nil middleware is skipped.
  unfoldable pub wrap_with : Option (Handler → Handler) → Handler → Handler
  wrap_with none next = next
  wrap_with (some mw) next = mw next

  -- Inside the bounds the code reads `middlewares[i]`.
  unfoldable pub middleware_at : List (Option (Handler → Handler)) → ℕ → Option (Handler → Handler)
  middleware_at [] i = none
  middleware_at (mw ∷ mws) zero = mw
  middleware_at (mw ∷ mws) (suc i) = middleware_at mws i

  -- The loop from `i - 1` down to 0.
  unfoldable pub chain_from : ℕ → List (Option (Handler → Handler)) → Handler → Handler
  unfolding wrap_with middleware_at
  chain_from zero mws next = next
  chain_from (suc i) mws next = chain_from i mws (wrap_with (middleware_at mws i) next)

  unfoldable pub chain : List (Option (Handler → Handler)) → Handler → Handler
  unfolding chain_from
  chain mws next = chain_from (length mws) mws next

  -- The loop over a list with one middleware in front.
  chain_from-cons :
      (i : ℕ) (mw : Option (Handler → Handler)) (mws : List (Option (Handler → Handler)))
      (next : Handler)
      → chain_from (suc i) (mw ∷ mws) next ≡ wrap_with mw (chain_from i mws next)
  unfolding chain_from middleware_at
  chain_from-cons zero mw mws next = refl
  chain_from-cons (suc i) mw mws next =
      chain_from-cons i mw mws (wrap_with (middleware_at mws i) next)

  -- The first middleware is the outermost: it gets what the rest makes of the handler.
  pub chain-cons :
      (mw : Option (Handler → Handler)) (mws : List (Option (Handler → Handler))) (next : Handler)
      → chain (mw ∷ mws) next ≡ wrap_with mw (chain mws next)
  unfolding chain
  chain-cons mw mws next = chain_from-cons (length mws) mw mws next

  -- For lists `outer` and `inner` of middlewares, the chain of `outer` and then `inner` is the chain
  -- of `outer` around the chain of `inner`.
  pub chain-append :
      (outer inner : List (Option (Handler → Handler))) (next : Handler)
      → chain (outer ++ inner) next ≡ chain outer (chain inner next)
  chain-append [] inner next = unfold chain chain_from in refl
  chain-append (mw ∷ outer) inner next = rw (
    chain-cons mw (outer ++ inner) next,
    chain-cons mw outer (chain inner next),
    chain-append outer inner next,
  )
