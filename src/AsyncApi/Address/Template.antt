-- ===== src/AsyncApi/Address/Template.antt =====
-- What the tokens of an address are.
use mathlib.Core.List.{append-nil, append_assoc}
use agen.Prelude.{
  ℕ, zero, suc, ◌+◌, ◌-◌, ◌<◌, ◌≤◌, ◌≡◌, ◌↔◌, ◌⊎◌, inl, inr, refl, ap, ◌∙◌, List, [], ◌∷◌, ◌++◌,
  none, some, arith, Option-cases, length, length-append, drop,
}
use agen.Prelude.Result.{ok}
use agen.Prelude.Text.{Text, Map, lookup}
use agen.AsyncApi.Address.{
  index_byte, close, open_brace, next_token, tokens_from, address_tokens, check_tokens,
  validate_address_params,
}
use agen.AsyncApi.Address.Cutting.{
  Lacks, index_byte-none, index_byte-append, Lacks-index_byte, index_byte-Cut, drop-append,
  take-append, drop-more,
}

-- A literal and the parameter behind it.
pub record Segment : Type 0 where
  pub literal : Text
  pub parameter : Text

-- The text of a template: literals, parameters in braces, and a tail.
abbrev pub render : List Segment → Text → Text
render [] tail = tail
render (s ∷ ss) tail = s.literal ++ (b'{' ∷ (s.parameter ++ (b'}' ∷ render ss tail)))

abbrev pub parameters : List Segment → List Text
parameters [] = []
parameters (s ∷ ss) = s.parameter ∷ parameters ss

-- No literal has '{', no parameter has '}'.
abbrev pub AreSegments : List Segment → Type 0
AreSegments [] = Unit
AreSegments (s ∷ ss) = Lacks b'{' s.literal × Lacks b'}' s.parameter × AreSegments ss

-- A text with no parameter left: no '{', or no '}' behind the first one.
pub data IsTail : Text → Type 0 where
  plain : {t : Text} → Lacks b'{' t → IsTail t
  unclosed :
      (literal rest : Text) {t : Text}
      → t ≡ literal ++ (b'{' ∷ rest)
      → Lacks b'{' literal
      → Lacks b'}' rest
      → IsTail t

next_token-cut :
    (address literal parameter rest : Text)
    → address ≡ literal ++ (b'{' ∷ (parameter ++ (b'}' ∷ rest)))
    → Lacks b'{' literal
    → Lacks b'}' parameter
    → next_token address ≡ some (parameter, rest)
unfolding open_brace close next_token
next_token-cut address literal parameter rest e l p =
    let behind = parameter ++ (b'}' ∷ rest) in
    let inside = b'{' ∷ parameter in
    let n = length literal in
    let m = length inside in
    let brace : drop n (literal ++ (b'{' ∷ behind)) ≡ b'{' ∷ behind = drop-append literal _ in
    let closing : index_byte (b'{' ∷ behind) b'}' ≡ some m =
      index_byte-append inside rest b'}' ((λ z. omega arith), p) in
    let token : drop (n + 1) (literal ++ (b'{' ∷ behind)) ≡ behind =
      drop-more literal (b'{' ∷ behind) 1 (n + 1) refl in
    let left : drop (n + m + 1) (literal ++ (b'{' ∷ behind)) ≡ rest =
      drop-more literal (b'{' ∷ behind) (m + 1) (n + m + 1) (omega arith)
      ∙ drop-more inside (b'}' ∷ rest) 1 (m + 1) refl in
    let width : n + m - (n + 1) ≡ length parameter = omega arith in
    rw e (
      rw (index_byte-append literal behind b'{' l, next_token)
        (rw brace
          (rw closing (rw (token, left, width) (rw (take-append parameter (b'}' ∷ rest)))))))

inside-Cut :
    (address literal behind before rest : Text)
    → address ≡ literal ++ (b'{' ∷ behind)
    → Lacks b'{' literal
    → b'{' ∷ behind ≡ before ++ (b'}' ∷ rest)
    → Lacks b'}' before
    → (p : Text) × (address ≡ literal ++ (b'{' ∷ (p ++ (b'}' ∷ rest)))) × Lacks b'}' p
inside-Cut address literal behind [] rest e l f b =
    absurd (let two : 123 ≡ 125 = head_eq f in omega arith)
  where
    head_eq : {x y : ℕ} {a b : Text} → x ∷ a ≡ y ∷ b → x ≡ y
    head_eq h = cc
inside-Cut address literal behind (x ∷ p) rest e l f (n, b) =
    let behind' : behind ≡ p ++ (b'}' ∷ rest) = ground arith in (p, e ∙ rw behind', b)

abbrev Opened : Text → Text → Text → Type 0
Opened a t r = (l : Text) × (a ≡ l ++ (b'{' ∷ (t ++ (b'}' ∷ r)))) × Lacks b'{' l × Lacks b'}' t

next_token-cases : (a : Text) → IsTail a ⊎ ((t r : Text) × Opened a t r)
next_token-cases a = elim (Option-cases (index_byte a b'{')) [
  | inl no_brace ↦ inl (plain (index_byte-none a b'{' no_brace))
  | inr (i, opened) ↦
      let c = index_byte-Cut a b'{' i opened in
      elim (Option-cases (index_byte (b'{' ∷ c.after) b'}')) [
        | inl no_brace ↦ inl (
            unclosed c.before c.after c.whole c.first
              (index_byte-none (b'{' ∷ c.after) b'}' no_brace).1)
        | inr (j, closed) ↦
            let d = index_byte-Cut (b'{' ∷ c.after) b'}' j closed in
            let (p, whole, lacks) =
              inside-Cut a c.before c.after d.before d.after c.whole c.first d.whole d.first in
            inr (p, d.after, (c.before, whole, c.first, lacks))
      ]
]

next_token-IsTail : (a : Text) → IsTail a → next_token a ≡ none
unfolding next_token open_brace close
next_token-IsTail a (plain l) = rw (Lacks-index_byte a b'{' l)
next_token-IsTail a (unclosed literal rest e l r) =
    let brace : drop (length literal) (literal ++ (b'{' ∷ rest)) ≡ b'{' ∷ rest =
      drop-append literal _ in
    let none_left : index_byte (b'{' ∷ rest) b'}' ≡ none =
      Lacks-index_byte (b'{' ∷ rest) b'}' ((λ z. omega arith), r) in
    rw e (rw (index_byte-append literal rest b'{' l) (rw brace (rw none_left)))

tokens_from-render :
    (ss : List Segment) (tail : Text) (fuel : ℕ) (tokens : List Text)
    → AreSegments ss
    → IsTail tail
    → length ss < fuel
    → tokens_from fuel (render ss tail) tokens ≡ some (tokens ++ parameters ss)
tokens_from-render ss tail zero tokens a t h = elim h [ ]
tokens_from-render [] tail (suc fuel) tokens a t h =
    unfold tokens_from in rw (next_token-IsTail tail t, tokens_from) (rw append-nil)
tokens_from-render (s ∷ ss) tail (suc fuel) tokens (l, p, a) t h =
    step (next_token-cut _ s.literal s.parameter (render ss tail) refl l p)
    ∙ tokens_from-render ss tail fuel (tokens ++ s.parameter ∷ []) a t (omega arith)
    ∙ ap some (append_assoc tokens (s.parameter ∷ []) (parameters ss))
  where
    step :
        next_token (render (s ∷ ss) tail) ≡ some (s.parameter, render ss tail)
        → tokens_from (suc fuel) (render (s ∷ ss) tail) tokens
          ≡ tokens_from fuel (render ss tail) (tokens ++ s.parameter ∷ [])
    step e = unfold tokens_from in rw (e, tokens_from)

length-render : (ss : List Segment) (tail : Text) → length ss ≤ length (render ss tail)
length-render [] tail = omega arith
length-render (s ∷ ss) tail = omega (
  arith,
  length-render ss tail,
  length-append {0} s.literal (b'{' ∷ (s.parameter ++ (b'}' ∷ render ss tail))),
  length-append {0} s.parameter (b'}' ∷ render ss tail),
)

-- The tokens of a template are its parameters, in order, whatever the literals and the tail hold.
pub address_tokens-render :
    (ss : List Segment) (tail : Text)
    → AreSegments ss
    → IsTail tail
    → address_tokens (render ss tail) ≡ some (parameters ss)
unfolding address_tokens
address_tokens-render ss tail a t =
    tokens_from-render ss tail (length (render ss tail) + 1) [] a t
      (omega (arith, length-render ss tail))

-- An address, read as a template.
pub record Template (address : Text) : Type 0 where
  pub segments : List Segment
  pub tail : Text
  pub is_rendered : address ≡ render segments tail
  pub segments_ok : AreSegments segments
  pub tail_ok : IsTail tail

template : (n : ℕ) (a : Text) → length a < n → Template a
template zero a h = elim h [ ]
template (suc n) a h = elim (next_token-cases a) [
  | inl t ↦ record { segments = []; tail = a; is_rendered = refl; segments_ok = tt; tail_ok = t }
  | inr (p, r, (l, whole, ll, lp)) ↦
      let size : length a ≡ length (l ++ (b'{' ∷ (p ++ (b'}' ∷ r)))) = ap length whole in
      let rest = template n r (
        omega (
          arith,
          length-append {0} l (b'{' ∷ (p ++ (b'}' ∷ r))),
          length-append {0} p (b'}' ∷ r),
        )) in
      record {
        segments = (record { literal = l; parameter = p }) ∷ rest.segments;
        tail = rest.tail;
        is_rendered = whole ∙ rw (← rest.is_rendered);
        segments_ok = (ll, lp, rest.segments_ok);
        tail_ok = rest.tail_ok;
      }
]

-- Every address is a template, and its tokens are the template's parameters: the loop always ends.
pub address_tokens-Template :
    (address : Text)
    → (t : Template address) × (address_tokens address ≡ some (parameters t.segments))
address_tokens-Template a =
    let t = template (length a + 1) a (omega arith) in
    (
      t,
      ap address_tokens t.is_rendered
          ∙ address_tokens-render t.segments t.tail t.segments_ok t.tail_ok,
    )

module _ {ℓ} {P : Type ℓ} (params : Map P) where
  abbrev pub AllDeclared : List Text → Type ℓ
  AllDeclared [] = Unit
  AllDeclared (t ∷ ts) = ((p : P) × (lookup t params ≡ some p)) × AllDeclared ts

  check_tokens_iff : (ts : List Text) → (check_tokens params ts ≡ ok tt) ↔ AllDeclared ts
  unfolding check_tokens
  check_tokens_iff [] = (λ h. tt, λ h. refl)
  check_tokens_iff (t ∷ ts) = (
    λ h. (ground arith, (check_tokens_iff ts).0 (ground arith)),
    λ ((p, e), h). let rest = (check_tokens_iff ts).1 h in rw (e, check_tokens) rest,
  )

  -- The address of a channel is accepted exactly if every parameter of its template is declared.
  pub validate_address_params_iff :
      (address : Text) (t : Template address)
      → (validate_address_params address params ≡ some (ok tt))
        ↔ AllDeclared (parameters t.segments)
  unfolding validate_address_params
  validate_address_params_iff address t =
      let tokens : address_tokens address ≡ some (parameters t.segments) =
        ap address_tokens t.is_rendered
        ∙ address_tokens-render t.segments t.tail t.segments_ok t.tail_ok in
      rw (tokens, validate_address_params)
        (
          λ h. (check_tokens_iff (parameters t.segments)).0 (ground arith),
          λ d. ap some ((check_tokens_iff (parameters t.segments)).1 d),
        )
