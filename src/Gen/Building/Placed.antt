-- ===== src/Gen/Building/Placed.antt =====
-- The channels and messages that are built stand at their places, with what the document says of
-- them.
use agen.Prelude.{
  ℕ, ◌≡◌, sym, ap, ◌∙◌, List, [], ◌∷◌, ◌++◌, some, ◌==◌, ==_iff, get_elem?, get_elem?-set_ne, set,
  is_some, arith, Bool-cases, inl, inr,
}
use mathlib.Core.Path.{subst}
use agen.Prelude.Text.{Text}
use agen.AsyncApi.Message
use agen.AsyncApi.Channel
use agen.AsyncApi.Channel.Storing.{get_elem?-append, get_elem?-set_at}
use agen.Gen.Ir
use agen.Gen.Parts.{Model, find}

-- A relation holds of each pair of a map, or of two lists pair by pair.
unfoldable pub AllPairs : (ℕ → ℕ → Type 0) → List (ℕ × ℕ) → Type 0
AllPairs R [] = Unit
AllPairs R ((k, i) ∷ m) = R k i × AllPairs R m

unfoldable pub AllShow : (ℕ → ℕ → Type 0) → List ℕ → List ℕ → Type 0
AllShow R [] [] = Unit
AllShow R [] (i ∷ is) = ⊥
AllShow R (k ∷ ks) [] = ⊥
AllShow R (k ∷ ks) (i ∷ is) = R k i × AllShow R ks is

pub AllPairs-mono :
    (R S : ℕ → ℕ → Type 0) (m : List (ℕ × ℕ))
    → ((k i : ℕ) → R k i → S k i)
    → AllPairs R m
    → AllPairs S m
unfolding AllPairs
AllPairs-mono R S [] step all = tt
AllPairs-mono R S ((k, i) ∷ m) step (first, all) = (step k i first, AllPairs-mono R S m step all)

pub AllShow-mono :
    (R S : ℕ → ℕ → Type 0) (ks is : List ℕ)
    → ((k i : ℕ) → R k i → S k i)
    → AllShow R ks is
    → AllShow S ks is
unfolding AllShow
AllShow-mono R S [] [] step all = tt
AllShow-mono R S [] (i ∷ is) step all = all
AllShow-mono R S (k ∷ ks) [] step all = all
AllShow-mono R S (k ∷ ks) (i ∷ is) step (first, all) =
    (step k i first, AllShow-mono R S ks is step all)

pub AllPairs-find :
    (R : ℕ → ℕ → Type 0) (k i : ℕ) (m : List (ℕ × ℕ)) → find k m ≡ some i → AllPairs R m → R k i
unfolding AllPairs find
AllPairs-find R k i [] h all = cc
AllPairs-find R k i ((j, l) ∷ m) h (first, all) = elim (Bool-cases (j == k)) [
  | inl same ↦
      let e : j ≡ k = (==_iff j k).0 same in
      let e' : l ≡ i = ground (arith, same, h) in subst (λ x. R k x) e' (subst (λ x. R x l) e first)
  | inr differs ↦ AllPairs-find R k i m (ground (arith, differs, h)) all
]

module _ {MessageBinding Correlation Requirement B Tag Node RawSchema Schema : Type 0}
    (model : Model MessageBinding Correlation Requirement B Tag Node RawSchema Schema) where
  -- The channel at place `i` has the name, address and description of the one at `k`.
  abbrev pub ShowsChannel : List Ir.Channel → ℕ → ℕ → Type 0
  ShowsChannel channels k i =
      (ch : Channel.Channel B Tag Node) × (c : Ir.Channel) × (model.channel_at k ≡ some ch)
      × (get_elem? channels i ≡ some c)
      × (c.name ≡ ch.name_of)
      × (c.address ≡ ch.address)
      × (c.description ≡ ch.description_of)

  -- The message at place `i` has the name and content type of the one at `k`, a payload exactly if it
  -- has one, and headers exactly if it has them.
  abbrev pub ShowsMessage : {GoType : Type 0} → List (Ir.Message GoType) → ℕ → ℕ → Type 0
  ShowsMessage {GoType = GoType} messages k i =
      (msg : Message.Message MessageBinding Correlation Tag RawSchema Schema) × (m : Ir.Message
        GoType)
      × (model.message_at k ≡ some msg)
      × (get_elem? messages i ≡ some m)
      × (m.spec_name ≡ msg.spec_name)
      × (m.content_type ≡ msg.content_type_of)
      × (is_some m.payload ≡ is_some msg.payload_of)
      × (is_some m.headers ≡ is_some msg.headers_of)

  pub ShowsChannel-append :
      (channels : List Ir.Channel) (c : Ir.Channel) (k i : ℕ)
      → ShowsChannel channels k i
      → ShowsChannel (channels ++ (c ∷ [])) k i
  ShowsChannel-append channels c k i (ch, c', e, at, n, a, d) =
      (ch, c', e, get_elem?-append channels (c ∷ []) i c' at, n, a, d)

  module _ {GoType : Type 0} where
    pub ShowsMessage-append :
        (messages : List (Ir.Message GoType)) (m : Ir.Message GoType) (k i : ℕ)
        → ShowsMessage messages k i
        → ShowsMessage (messages ++ (m ∷ [])) k i
    ShowsMessage-append messages m k i (msg, m', e, at, n, t, p, h) =
        (msg, m', e, get_elem?-append messages (m ∷ []) i m' at, n, t, p, h)

    -- A marker leaves what a message shows.
    pub ShowsMessage-marked :
        (messages : List (Ir.Message GoType)) (m : Ir.Message GoType) (marker : Text) (k i j : ℕ)
        → get_elem? messages j ≡ some m
        → ShowsMessage messages k i
        → ShowsMessage (set messages j (record m { sum_marker = marker })) k i
    ShowsMessage-marked messages m marker k i j at' (msg, m', e, at, n, t, p, h) =
        elim (Bool-cases (j == i)) [
          | inl here ↦
              let e' : j ≡ i = (==_iff j i).0 here in
              let same : m ≡ m' =
                cc (at', subst (λ x. get_elem? messages x ≡ some m') (sym e') at) in
              (
                msg,
                record m { sum_marker = marker },
                e,
                subst
                    (λ x.
                      get_elem? (set messages j (record m { sum_marker = marker })) x
                      ≡ some (record m { sum_marker = marker }))
                    e' (get_elem?-set_at messages j m (record m { sum_marker = marker }) at'),
                ap (λ x. x.spec_name) same ∙ n,
                ap (λ x. x.content_type) same ∙ t,
                ap (λ x. is_some x.payload) same ∙ p,
                ap (λ x. is_some x.headers) same ∙ h,
              )
          | inr there ↦ (
            msg,
            m',
            e,
            get_elem?-set_ne messages (record m { sum_marker = marker })
                  (λ e'. ground (arith, (==_iff j i).1 e', there))
                ∙ at,
            n,
            t,
            p,
            h,
          )
        ]
