-- ===== src/AsyncApi/Message/Pointer/Staying.antt =====
-- What the store of messages keeps, whatever asyncapi/parser/parse_operation.go parses into it: a stored
-- message is at most renamed, by `m.SpecName = mname` and `m.Name = mname`, and a cached pointer stays.
use agen.Prelude.{
  ℕ, ◌≡◌, refl, ap, ◌∙◌, sym, [], ◌∷◌, none, some, arith, length, get_elem?, set, ◌==◌, ==_iff,
  get_elem?-set_ne, Bool-cases, inl, inr, if_both,
}
use mathlib.Core.Path.{subst}
use agen.Prelude.Text.{Text, lookup, lookup-insert, eq_text_iff, is_empty}
use agen.AsyncApi.Message.{Message}
use agen.AsyncApi.Message.Pointer.{Store, alloc, cache, update, name_message}
use agen.AsyncApi.Channel.Storing.{get_elem?-append, get_elem?-set_at}

module _ {Binding Correlation Tag RawSchema Schema : Type 0} where
  -- All but the names is the same.
  abbrev pub IsRenamed :
      Message Binding Correlation Tag RawSchema Schema
      → Message Binding Correlation Tag RawSchema Schema
      → Type 0
  IsRenamed m m' = m' ≡ record m { spec_name = m'.spec_name; name_of = m'.name_of }

  pub IsRenamed-trans :
      (m n o : Message Binding Correlation Tag RawSchema Schema)
      → IsRenamed m n
      → IsRenamed n o
      → IsRenamed m o
  IsRenamed-trans m n o p q =
      q
      ∙ ap {A = Message Binding Correlation Tag RawSchema Schema}
          {B = Message Binding Correlation Tag RawSchema Schema}
          (λ x. record x { spec_name = o.spec_name; name_of = o.name_of }) p

  name_message-IsRenamed :
      (k : Text) (m : Message Binding Correlation Tag RawSchema Schema)
      → IsRenamed m (name_message k m)
  unfolding name_message
  name_message-IsRenamed k m =
      if_both (λ x. IsRenamed m x) (is_empty m.spec_name) (λ _. refl) (λ _. refl)

  pub record Stays (st st' : Store (Message Binding Correlation Tag RawSchema Schema))
      : Type 0 where
    pub heap_stays :
        (i : ℕ) (m : Message Binding Correlation Tag RawSchema Schema)
        → get_elem? st.heap i ≡ some m
        → (m' : Message Binding Correlation Tag RawSchema Schema) × (get_elem? st'.heap i ≡ some m')
          × IsRenamed m m'
    pub cached_stays :
        (k : Text) (i : ℕ) → lookup k st.cached ≡ some i → lookup k st'.cached ≡ some i

  pub Stays-refl : (st : Store (Message Binding Correlation Tag RawSchema Schema)) → Stays st st
  Stays-refl st = record { heap_stays = λ i m h. (m, h, refl); cached_stays = λ k i h. h }

  pub Stays-trans :
      (st s st' : Store (Message Binding Correlation Tag RawSchema Schema))
      → Stays st s
      → Stays s st'
      → Stays st st'
  Stays-trans st s st' p q = record {
    heap_stays = λ i m h.
        let (n, at, renamed) = p.heap_stays i m h in
        let (o, at', renamed') = q.heap_stays i n at in
        (o, at', IsRenamed-trans m n o renamed renamed');
    cached_stays = λ k i h. q.cached_stays k i (p.cached_stays k i h);
  }

  pub alloc-Stays :
      (m : Message Binding Correlation Tag RawSchema Schema)
      (st : Store (Message Binding Correlation Tag RawSchema Schema))
      → Stays st (alloc m st).1
  unfolding alloc
  alloc-Stays m st = record {
    heap_stays = λ i x h. (x, get_elem?-append st.heap (m ∷ []) i x h, refl);
    cached_stays = λ k i h. h;
  }

  -- At a key that was free, no entry is lost.
  pub saved-Stays :
      (k : Text) (m : Message Binding Correlation Tag RawSchema Schema)
      (st : Store (Message Binding Correlation Tag RawSchema Schema))
      → lookup k st.cached ≡ none
      → Stays st (cache k (alloc m st)).1
  unfolding cache alloc
  saved-Stays k m st free = record {
    heap_stays = λ i x h. (x, get_elem?-append st.heap (m ∷ []) i x h, refl);
    cached_stays = λ l i h.
        ground (arith, free, h, lookup-insert k l (length st.heap) st.cached, eq_text_iff k l);
  }

  pub saved-at :
      (k : Text) (m : Message Binding Correlation Tag RawSchema Schema)
      (st : Store (Message Binding Correlation Tag RawSchema Schema))
      → lookup k (cache k (alloc m st)).1.cached ≡ some (length st.heap)
  unfolding cache alloc
  saved-at k m st = ground (arith, lookup-insert k k (length st.heap) st.cached, eq_text_iff k k)

  set-Stays :
      (k : Text) (i : ℕ) (m : Message Binding Correlation Tag RawSchema Schema)
      (st : Store (Message Binding Correlation Tag RawSchema Schema))
      → get_elem? st.heap i ≡ some m
      → Stays st (record { heap = set st.heap i (name_message k m); cached = st.cached })
  set-Stays k i m st at = record {
    heap_stays = λ j x h. elim (Bool-cases (i == j)) [
      | inl here ↦
          let e : i ≡ j = (==_iff i j).0 here in
          let same : m ≡ x = cc (at, subst (λ z. get_elem? st.heap z ≡ some x) (sym e) h) in
          (
            name_message k m,
            subst (λ z. get_elem? (set st.heap i (name_message k m)) z ≡ some (name_message k m)) e
                (get_elem?-set_at st.heap i m (name_message k m) at),
            subst (λ z. IsRenamed z (name_message k m)) same (name_message-IsRenamed k m),
          )
      | inr there ↦ (
        x,
        get_elem?-set_ne st.heap (name_message k m) (λ e. ground (arith, (==_iff i j).1 e, there))
            ∙ h,
        refl,
      )
    ];
    cached_stays = λ l j h. h;
  }

  pub update-Stays :
      (k : Text) (i : ℕ) (st : Store (Message Binding Correlation Tag RawSchema Schema))
      → Stays st (update i (name_message k) st)
  unfolding update
  update-Stays k i st =
      elim (get_elem? st.heap i)
          as (λ o.
            get_elem? st.heap i ≡ o
            → Stays st (elim o [
              | none ↦ st
              | some m ↦ record { heap = set st.heap i (name_message k m); cached = st.cached }
            ])) [ none ↦ λ _. Stays-refl st | some m ↦ λ at. set-Stays k i m st at ]
        refl
