-- ===== src/Gen/Names/Unique.antt =====
-- References at distinct pointers get distinct names.
use agen.Prelude.{
  ◌≡◌, ◌≢◌, ◌↔◌, ◌⊎◌, inl, inr, refl, sym, ap, ◌∙◌, Bool, true, false, not, List, [], ◌∷◌, ◌&&◌,
  Option, none, some, Bool-cases, arith, if_both, if◌then◌else◌, map,
}
use mathlib.Core.Path.{subst}
use agen.Prelude.Result.{ok, bind-ok}
use agen.Prelude.Text.{
  Text, text, lookup, insert, is_empty, eq_text, eq_text_iff, lists, lookup-insert,
}
use agen.AsyncApi.Channel.Traits.{trim_prefix}
use agen.Gen.{Generated}
use agen.Gen.Names.{
  GoNames, Names, Ref, pascal_name, take_unused, first_unused, name_ref, name_schema_ref,
  reserve_name, candidates, clean_segment, split_from,
}

-- Every name of a reference is used, and no two references have the same.
pub record IsUnique (names : Names) : Type 0 where
  pub used :
      (ptr name : Text) → lookup ptr names.ref_names ≡ some name → lists name names.used ≡ true
  pub unique :
      (p q name : Text)
      → lookup p names.ref_names ≡ some name
      → lookup q names.ref_names ≡ some name
      → p ≡ q

-- What naming a reference, or reserving a name, leaves: nothing is forgotten.
pub record Kept (names names' : Names) : Type 0 where
  pub unique : IsUnique names'
  pub keeps : (p n : Text) → lookup p names.ref_names ≡ some n → lookup p names'.ref_names ≡ some n
  pub reserves : (n : Text) → lists n names.used ≡ true → lists n names'.used ≡ true

Kept-refl : (names : Names) → IsUnique names → Kept names names
Kept-refl names good = record { unique = good; keeps = λ p n h. h; reserves = λ n h. h }

abbrev with_name : Text → Text → Names → Names
with_name ptr name names = record {
  ref_names = insert ptr name names.ref_names;
  used = name ∷ names.used;
}

lists-head : (name : Text) (l : List Text) → lists name (name ∷ l) ≡ true
unfolding lists
lists-head name l = ground (arith, eq_text_iff name name)

lists-tail : (n name : Text) (l : List Text) → lists n l ≡ true → lists n (name ∷ l) ≡ true
unfolding lists
lists-tail n name l h = ground arith

module _ (ptr name : Text) (names : Names) (good : IsUnique names) where
  with_name-used :
      lists name names.used ≡ false
      → (p n : Text) → lookup p (insert ptr name names.ref_names) ≡ some n
      → lists n (name ∷ names.used) ≡ true
  with_name-used fresh p n h = elim (Bool-cases (eq_text ptr p)) [
    | inl e ↦
        let same : name ≡ n = ground (arith, lookup-insert ptr p name names.ref_names) in
        subst (λ x. lists x (name ∷ names.used) ≡ true) same (lists-head name names.used)
    | inr e ↦
        let old : lookup p names.ref_names ≡ some n =
          ground (arith, lookup-insert ptr p name names.ref_names) in
        lists-tail n name names.used (good.used p n old)
  ]

  -- A reference that has the fresh name is the new one.
  of_fresh :
      lists name names.used ≡ false
      → (p n : Text) → lookup p (insert ptr name names.ref_names) ≡ some n
      → ((p ≡ ptr) × (n ≡ name)) ⊎ ((lookup p names.ref_names ≡ some n) × (n ≢ name))
  of_fresh fresh p n h = elim (Bool-cases (eq_text ptr p)) [
    | inl e ↦
        inl
          (sym ((eq_text_iff ptr p).0 e), ground (arith, lookup-insert ptr p name names.ref_names))
    | inr e ↦
        let old : lookup p names.ref_names ≡ some n =
          ground (arith, lookup-insert ptr p name names.ref_names) in
        inr (old, λ same. ground (arith, good.used p n old))
  ]

  with_name_unique :
      lists name names.used ≡ false
      → (p q n : Text) → lookup p (insert ptr name names.ref_names) ≡ some n
      → lookup q (insert ptr name names.ref_names) ≡ some n
      → p ≡ q
  with_name_unique fresh p q n h k = elim (of_fresh fresh p n h) [
    | inl (e, same) ↦ elim (of_fresh fresh q n k) [
      | inl (f, _) ↦ e ∙ sym f
      | inr (_, other) ↦ absurd (other same)
    ]
    | inr (old, other) ↦ elim (of_fresh fresh q n k) [
      | inl (_, same) ↦ absurd (other same)
      | inr (old', _) ↦ good.unique p q n old old'
    ]
  ]

  with_name-Kept :
      lookup ptr names.ref_names ≡ none
      → lists name names.used ≡ false
      → Kept names (with_name ptr name names)
  with_name-Kept new fresh = record {
    unique = record { used = with_name-used fresh; unique = with_name_unique fresh };
    keeps = λ p n h. ground (arith, lookup-insert ptr p name names.ref_names, eq_text_iff ptr p);
    reserves = λ n h. lists-tail n name names.used h;
  }

-- A named reference: nothing, or the name that is recorded.
pub record Named (ptr : Text) (names : Names) (r : Text × Names) : Type 0 where
  pub kept : Kept names (r.1)
  pub recorded : (is_empty (r.0) ≡ true) ⊎ (lookup ptr (r.1).ref_names ≡ some (r.0))

Named-later :
    (ptr : Text) (names : Names) (r r' : Text × Names)
    → r ≡ r'
    → Named ptr names r
    → Named ptr names r'
Named-later ptr names r r' e named = subst (λ x. Named ptr names x) e named

take_unused-Named :
    (ptr : Text) (names : Names) (rest : Generated (Text × Names)) (name : Text)
    → IsUnique names
    → lookup ptr names.ref_names ≡ none
    → ((r : Text × Names) → rest ≡ ok r → Named ptr names r)
    → (r : Text × Names) → take_unused ptr names rest name ≡ ok r
    → Named ptr names r
unfolding take_unused
take_unused-Named ptr names rest name good new others r =
    if_both (λ x. x ≡ ok r → Named ptr names r) (is_empty name) (λ _ h. others r h)
      (λ some_name h.
        if_both (λ x. x ≡ ok r → Named ptr names r) (lists name names.used) (λ _ k. others r k)
          (λ fresh k.
            Named-later ptr names (name, with_name ptr name names) r (ground arith)
              (record {
                kept = with_name-Kept ptr name names good new fresh;
                recorded = inr (
                    ground
                      (arith, lookup-insert ptr ptr name names.ref_names, eq_text_iff ptr ptr));
              }))
          h)

first_unused-Named :
    (g : GoNames) (ptr : Text) (tails : List (List Text)) (names : Names)
    → IsUnique names
    → lookup ptr names.ref_names ≡ none
    → (r : Text × Names) → first_unused g ptr tails names ≡ ok r
    → Named ptr names r
unfolding first_unused
first_unused-Named g ptr [] names good new r h =
    Named-later ptr names ([], names) r (ground arith)
      (record { kept = Kept-refl names good; recorded = inl refl })
first_unused-Named g ptr (tail ∷ tails) names good new r h =
    let rest = first_unused g ptr tails names in
    let others : (s : Text × Names) → rest ≡ ok s → Named ptr names s =
      λ s e. first_unused-Named g ptr tails names good new s e in
    if_both (λ x. x ≡ ok r → Named ptr names r) (is_empty tail) (λ _ k. others r k)
      (λ _ k.
        let (name, _, k₁) = bind-ok (pascal_name g tail) (take_unused ptr names rest) k in
        take_unused-Named ptr names rest name good new others r k₁)
      h

name_ref-Named :
    (g : GoNames) (ptr : Text) (o : Option Text) (names : Names) (r : Text × Names)
    → IsUnique names
    → lookup ptr names.ref_names ≡ o
    → name_ref g ptr o names ≡ ok r
    → Named ptr names r
unfolding name_ref
name_ref-Named g ptr (some name) names r good e h =
    Named-later ptr names (name, names) r (ground arith)
      (record { kept = Kept-refl names good; recorded = inr e })
name_ref-Named g ptr none names r good e h =
    first_unused-Named g ptr
      (candidates (map clean_segment (split_from b'/' [] (trim_prefix (text "#/") ptr)))) names good
      e r h

name_schema_ref-Named :
    (g : GoNames) (ref : Ref) (names : Names) (r : Text × Names)
    → IsUnique names
    → name_schema_ref g ref names ≡ ok r
    → Named ref.ptr names r
unfolding name_schema_ref
name_schema_ref-Named g ref names r good h =
    let ptr = ref.ptr in
    if_both (λ x. x ≡ ok r → Named ptr names r)
      (not (is_empty ptr) && eq_text (trim_prefix (text "#/") ptr) ptr)
      (λ _ k.
        Named-later ptr names ([], names) r (ground arith)
          (record { kept = Kept-refl names good; recorded = inl refl }))
      (λ _ k. name_ref-Named g ptr (lookup ptr names.ref_names) names r good refl k) h

reserve_name-Kept :
    (name : Text) (names : Names) → IsUnique names → Kept names (reserve_name name names)
unfolding reserve_name
reserve_name-Kept name names good =
    if_both (λ x. Kept names x) (is_empty name) (λ _. Kept-refl names good)
      (λ _. record {
        unique = record {
          used = λ p n h. lists-tail n name names.used (good.used p n h);
          unique = good.unique;
        };
        keeps = λ p n h. h;
        reserves = λ n h. lists-tail n name names.used h;
      })

-- A reference that has a name keeps it.
name_schema_ref-hit :
    (g : GoNames) (ref : Ref) (n : Text) (names : Names)
    → lookup ref.ptr names.ref_names ≡ some n
    → name_schema_ref g ref names ≡ (
        if not (is_empty ref.ptr) && eq_text (trim_prefix (text "#/") ref.ptr) ref.ptr
        then ok ([], names)
        else ok (n, names))
unfolding name_schema_ref name_ref
name_schema_ref-hit g ref n names h = rw h

-- The states that the generator reaches by naming references and reserving names, in any order.
pub data Reaches (g : GoNames) (start : Names) : Names → Type 0 where
  here : Reaches g start start
  named :
      {s t : Names} (ref : Ref) (n : Text)
      → Reaches g start s
      → name_schema_ref g ref s ≡ ok (n, t)
      → Reaches g start t
  reserved : {s : Names} (name : Text) → Reaches g start s → Reaches g start (reserve_name name s)

Kept-trans : (a b c : Names) → Kept a b → Kept b c → Kept a c
Kept-trans a b c h k = record {
  unique = k.unique;
  keeps = λ p n e. k.keeps p n (h.keeps p n e);
  reserves = λ n e. k.reserves n (h.reserves n e);
}

Reaches-Kept :
    (g : GoNames) (start : Names) {s : Names} → IsUnique start → Reaches g start s → Kept start s
Reaches-Kept g start good here = Kept-refl start good
Reaches-Kept g start good (named {s} {t} ref n reached e) =
    let before = Reaches-Kept g start good reached in
    Kept-trans start s t before (name_schema_ref-Named g ref s (n, t) before.unique e).kept
Reaches-Kept g start good (reserved {s} name reached) =
    let before = Reaches-Kept g start good reached in
    Kept-trans start s (reserve_name name s) before (reserve_name-Kept name s before.unique)

abbrev pub no_names : Names
no_names = record { ref_names = []; used = [] }

no_names-IsUnique : IsUnique no_names
unfolding lookup
no_names-IsUnique = record { used = λ p n h. cc; unique = λ p q n h k. cc }

same_again :
    (b : Bool) (n m : Text) (t u : Names)
    → is_empty n ≡ false
    → is_empty m ≡ false
    → (if◌then◌else◌ {A = Generated (Text × Names)} b (ok ([], u)) (ok (n, u))) ≡ ok (m, t)
    → n ≡ m
same_again true n m t u e f h = absurd (ground arith)
same_again false n m t u e f h = ground arith

-- Whatever references the generator names and names it reserves before and in between, two references
-- that it names get the same name exactly if they have the same pointer, whatever documents they are
-- into; the empty name, by which it leaves a reference to the default rule, aside.
pub name_schema_ref_iff :
    (g : GoNames) (p q : Ref) (n m : Text) (s s' t t' : Names)
    → Reaches g no_names s
    → name_schema_ref g p s ≡ ok (n, s')
    → Reaches g s' t
    → name_schema_ref g q t ≡ ok (m, t')
    → is_empty n ≡ false
    → is_empty m ≡ false
    → (n ≡ m) ↔ (p.ptr ≡ q.ptr)
name_schema_ref_iff g p q n m s s' t t' before e between f some_n some_m =
    let at_s = Reaches-Kept g no_names no_names-IsUnique before in
    let first = name_schema_ref-Named g p s (n, s') at_s.unique e in
    let at_t = Reaches-Kept g s' first.kept.unique between in
    let second = name_schema_ref-Named g q t (m, t') at_t.unique f in
    let of_p : lookup p.ptr s'.ref_names ≡ some n = elim first.recorded [
      | inl z ↦ absurd (ground arith)
      | inr r ↦ r
    ] in
    let of_q : lookup q.ptr t'.ref_names ≡ some m = elim second.recorded [
      | inl z ↦ absurd (ground arith)
      | inr r ↦ r
    ] in
    let p_at_t = at_t.keeps p.ptr n of_p in
    let p_at_end = second.kept.keeps p.ptr n p_at_t in
    (
      λ same. second.kept.unique.unique p.ptr q.ptr m (p_at_end ∙ ap some same) of_q,
      λ same.
          let q_at_t : lookup q.ptr t.ref_names ≡ some n =
            ap (λ x. lookup x t.ref_names) (sym same) ∙ p_at_t in
          same_again (not (is_empty q.ptr) && eq_text (trim_prefix (text "#/") q.ptr) q.ptr) n m t'
            t some_n some_m (sym (name_schema_ref-hit g q n t q_at_t) ∙ f),
    )
