-- ===== src/AsyncApi/Traits/Merged.antt =====
-- What a merge of traits yields, and when it succeeds.
use agen.Prelude.{◌≡◌, ◌↔◌, refl, sym, ap, List, [], ◌∷◌, Option, none, some, arith}
use agen.Prelude.Result.{ok, ◌>>=◌, bind-ok}
use mathlib.Core.Path.{subst}
use agen.Prelude.Text.{Map}
use agen.AsyncApi.{Parsed, Field, title, summary, description, security, Pointers}
use agen.AsyncApi.Traits.{
  set_absent, set_string, merge_security, merge_bindings, OperationTrait, Operation, merge_trait,
  resolve_operation_trait, merge_operation_traits,
}

abbrev AllEmpty {ℓ} : {A : Type ℓ} → List (List A) → Type ℓ
AllEmpty [] = Unit
AllEmpty (v ∷ vs) = (v ≡ []) × AllEmpty vs

-- `v` is the only list among `vs` that is not empty, or is empty as all of them are.
abbrev pub Sole {ℓ} : {A : Type ℓ} → List (List A) → List A → Type ℓ
Sole [] v = v ≡ []
Sole ([] ∷ vs) v = Sole vs v
Sole ((c ∷ x) ∷ vs) v = (v ≡ c ∷ x) × AllEmpty vs

module _ {ℓ} {A : Type ℓ} where
  set_absent-Sole :
      (dst src d v : List A) (vs : List (List A)) (f : Field)
      → set_absent dst src f ≡ ok d
      → Sole (d ∷ vs) v
      → Sole (dst ∷ src ∷ vs) v
  unfolding set_absent
  set_absent-Sole [] [] d v vs f e s =
      let e' : [] ≡ d = ground arith in subst (λ x. Sole (x ∷ vs) v) (sym e') s
  set_absent-Sole [] (c ∷ src) d v vs f e s =
      let e' : c ∷ src ≡ d = ground arith in subst (λ x. Sole (x ∷ vs) v) (sym e') s
  set_absent-Sole (c ∷ dst) [] d v vs f e s =
      let e' : c ∷ dst ≡ d = ground arith in
      let (a, b) = subst (λ x. Sole (x ∷ vs) v) (sym e') s in (a, (refl, b))
  set_absent-Sole (c ∷ dst) (b ∷ src) d v vs f e s = cc

  Sole-set_absent :
      (dst src v : List A) (vs : List (List A)) (f : Field)
      → Sole (dst ∷ src ∷ vs) v
      → (d : List A) × (set_absent dst src f ≡ ok d) × Sole (d ∷ vs) v
  unfolding set_absent
  Sole-set_absent [] [] v vs f s = ([], refl, s)
  Sole-set_absent [] (c ∷ src) v vs f s = (c ∷ src, refl, s)
  Sole-set_absent (c ∷ dst) [] v vs f (a, b) = (c ∷ dst, refl, (a, b.1))
  Sole-set_absent (c ∷ dst) (b ∷ src) v vs f (a, h) = absurd (cons-ne-nil h.0)
    where
      cons-ne-nil : b ∷ src ≡ [] → ⊥
      cons-ne-nil e = cc

  Sole-one_iff : (x v : List A) → Sole (x ∷ []) v ↔ (v ≡ x)
  Sole-one_iff [] v = (λ s. s, λ e. e)
  Sole-one_iff (c ∷ x) v = (λ s. s.0, λ e. (e, tt))

abbrev each {ℓ κ} : {A : Type ℓ} {B : Type κ} → (A → B) → List A → List B
each f [] = []
each f (x ∷ xs) = f x ∷ each f xs

-- The bindings of one source after the other.
abbrev pub merge_all_bindings {ℓ} :
    {B : Type ℓ} → Map (Option B) → List (Map (Option B)) → Parsed (Map (Option B))
merge_all_bindings dst [] = ok dst
merge_all_bindings dst (src ∷ srcs) = do dst' ← merge_bindings dst src; merge_all_bindings dst' srcs

module _ (Requirement Binding : Type 0) where
  abbrev Trait : Type 0
  Trait = OperationTrait Requirement Binding

  abbrev Op : Type 0
  Op = Operation Requirement Binding

  -- Every field of `d` is the one value that `dst` or one of the traits `rs` gives it.
  pub record Merged (dst : Op) (rs : List Trait) (d : Op) : Type 0 where
    pub title : Sole (dst.title_of ∷ each (λ r. r.title_of) rs) d.title_of
    pub summary : Sole (dst.summary_of ∷ each (λ r. r.summary_of) rs) d.summary_of
    pub description : Sole (dst.description_of ∷ each (λ r. r.description_of) rs) d.description_of
    pub security : Sole (dst.security_of ∷ each (λ r. r.security_of) rs) d.security_of
    pub bindings :
        merge_all_bindings dst.bindings_of (each (λ r. r.bindings_of) rs) ≡ ok d.bindings_of

  Merged-nil : (dst d : Op) → Merged dst [] d → dst ≡ d
  Merged-nil dst d m =
      let t = (Sole-one_iff dst.title_of d.title_of).0 m.title in
      let s = (Sole-one_iff dst.summary_of d.summary_of).0 m.summary in
      let e = (Sole-one_iff dst.description_of d.description_of).0 m.description in
      let q = (Sole-one_iff dst.security_of d.security_of).0 m.security in
      let b : dst.bindings_of ≡ d.bindings_of = let h = m.bindings in ground arith in
      λ i. record {
        title_of = sym t i;
        summary_of = sym s i;
        description_of = sym e i;
        security_of = sym q i;
        bindings_of = b i;
      }

  nil-Merged : (dst : Op) → Merged dst [] dst
  nil-Merged dst = record {
    title = (Sole-one_iff dst.title_of _).1 refl;
    summary = (Sole-one_iff dst.summary_of _).1 refl;
    description = (Sole-one_iff dst.description_of _).1 refl;
    security = (Sole-one_iff dst.security_of _).1 refl;
    bindings = refl;
  }

  -- Each field is merged by itself.
  record Fields (dst : Op) (r : Trait) (d : Op) : Type 0 where
    title_merged : set_string dst.title_of r.title_of title ≡ ok d.title_of
    summary_merged : set_string dst.summary_of r.summary_of summary ≡ ok d.summary_of
    description_merged :
        set_string dst.description_of r.description_of description ≡ ok d.description_of
    security_merged : merge_security dst.security_of r.security_of security ≡ ok d.security_of
    bindings_merged : merge_bindings dst.bindings_of r.bindings_of ≡ ok d.bindings_of

  merge_trait-Fields :
      (dst d : Op) (r : Trait) → merge_trait Requirement Binding dst r ≡ ok d → Fields dst r d
  unfolding merge_trait
  merge_trait-Fields dst d r e = record {
    title_merged = ground arith;
    summary_merged = ground arith;
    description_merged = ground arith;
    security_merged = ground arith;
    bindings_merged = ground arith;
  }

  Fields-merge_trait :
      (dst d : Op) (r : Trait) → Fields dst r d → merge_trait Requirement Binding dst r ≡ ok d
  unfolding merge_trait
  Fields-merge_trait dst d r f = rw f.title_merged (
      rw f.summary_merged
        (rw f.description_merged (rw f.security_merged (rw f.bindings_merged refl))))

  Merged-cons :
      (dst d' d : Op) (r : Trait) (rs : List Trait)
      → merge_trait Requirement Binding dst r ≡ ok d'
      → Merged d' rs d
      → Merged dst (r ∷ rs) d
  unfolding set_string merge_security
  Merged-cons dst d' d r rs e m =
      let f = merge_trait-Fields dst d' r e in
      record {
        title = set_absent-Sole _ _ d'.title_of _ _ title f.title_merged m.title;
        summary = set_absent-Sole _ _ d'.summary_of _ _ summary f.summary_merged m.summary;
        description =
            set_absent-Sole _ _ d'.description_of _ _ description f.description_merged
              m.description;
        security = set_absent-Sole _ _ d'.security_of _ _ security f.security_merged m.security;
        bindings = rw f.bindings_merged m.bindings;
      }

  cons-Merged :
      (dst d : Op) (r : Trait) (rs : List Trait)
      → Merged dst (r ∷ rs) d
      → (d' : Op) × (merge_trait Requirement Binding dst r ≡ ok d') × Merged d' rs d
  cons-Merged dst d r rs m =
      let (t, et, mt) = Sole-set_absent _ _ d.title_of (each (λ r. r.title_of) rs) title m.title in
      let (s, es, ms) =
        Sole-set_absent _ _ d.summary_of (each (λ r. r.summary_of) rs) summary m.summary in
      let (x, ex, mx) =
        Sole-set_absent _ _ d.description_of (each (λ r. r.description_of) rs) description
          m.description in
      let (q, eq, mq) =
        Sole-set_absent _ _ d.security_of (each (λ r. r.security_of) rs) security m.security in
      let (b, eb, mb) = bind-ok (merge_bindings dst.bindings_of r.bindings_of) _ m.bindings in
      let d' : Op = record {
        title_of = t;
        summary_of = s;
        description_of = x;
        security_of = q;
        bindings_of = b;
      } in
      (
        d',
        Fields-merge_trait dst d' r (
            unfold set_string merge_security in
            record {
              title_merged = et;
              summary_merged = es;
              description_merged = ex;
              security_merged = eq;
              bindings_merged = eb;
            }),
        record { title = mt; summary = ms; description = mx; security = mq; bindings = mb },
      )

  module _ (p : Pointers) (decode : p.Node → Option Trait) (ctx : p.Ctx) where
    -- `rs` are the traits that are not nil, their references resolved.
    abbrev pub Resolved : List (Option Trait) → List Trait → Type 0
    Resolved [] [] = Unit
    Resolved [] (r ∷ rs) = ⊥
    Resolved (none ∷ ts) rs = Resolved ts rs
    Resolved (some t ∷ ts) [] = ⊥
    Resolved (some t ∷ ts) (r ∷ rs) =
        (resolve_operation_trait Requirement Binding p decode ctx t ≡ ok r) × Resolved ts rs

    merge-Merged :
        (ts : List (Option Trait)) (dst d : Op)
        → merge_operation_traits Requirement Binding p decode ctx dst ts ≡ ok d
        → (rs : List Trait) × Resolved ts rs × Merged dst rs d
    unfolding merge_operation_traits
    merge-Merged [] dst d e =
        ([], tt, let e' : dst ≡ d = ground arith in subst (Merged dst []) e' (nil-Merged dst))
    merge-Merged (none ∷ ts) dst d e =
        let (rs, resolved, m) = merge-Merged ts dst d e in (rs, resolved, m)
    merge-Merged (some t ∷ ts) dst d e =
        let (r, er, e₁) =
          bind-ok (resolve_operation_trait Requirement Binding p decode ctx t) _ e in
        let (d', ed, e₂) = bind-ok (merge_trait Requirement Binding dst r) _ e₁ in
        let (rs, resolved, m) = merge-Merged ts d' d e₂ in
        (r ∷ rs, (er, resolved), Merged-cons dst d' d r rs ed m)

    Merged-merge :
        (ts : List (Option Trait)) (rs : List Trait) (dst d : Op)
        → Resolved ts rs
        → Merged dst rs d
        → merge_operation_traits Requirement Binding p decode ctx dst ts ≡ ok d
    unfolding merge_operation_traits
    Merged-merge [] [] dst d resolved m = ap ok (Merged-nil dst d m)
    Merged-merge [] (r ∷ rs) dst d resolved m = absurd resolved
    Merged-merge (none ∷ ts) rs dst d resolved m = Merged-merge ts rs dst d resolved m
    Merged-merge (some t ∷ ts) [] dst d resolved m = absurd resolved
    Merged-merge (some t ∷ ts) (r ∷ rs) dst d (er, resolved) m =
        let (d', ed, m') = cons-Merged dst d r rs m in
        rw er (rw ed (Merged-merge ts rs d' d resolved m'))

    -- The merge succeeds with `d` exactly if the traits resolve and every field of `d` is the one value
    -- that the operation or a single trait gives it: nothing is overridden, nothing is lost, and a
    -- field that two of them set is an error.
    pub merge_operation_traits_iff :
        (ts : List (Option Trait)) (dst d : Op)
        → (merge_operation_traits Requirement Binding p decode ctx dst ts ≡ ok d)
          ↔ ((rs : List Trait) × Resolved ts rs × Merged dst rs d)
    merge_operation_traits_iff ts dst d =
        (merge-Merged ts dst d, λ (rs, resolved, m). Merged-merge ts rs dst d resolved m)
