-- ===== src/Gen/Generator/EndToEnd/Servers.antt =====
-- The loop over the servers in `build` of gen/generator.go reads no server that is not there.
use agen.Prelude.{
  ◌≡◌, refl, not, ◌<◌, List, [], ◌∷◌, ◌++◌, Option, none, some, if_both, arith, Bool-cases, inl,
  inr,
}
use mathlib.Core.Path.{subst}
use agen.Prelude.Result.{ok, err}
use agen.Prelude.Text.{Text, Map, text, lists, lookup, eq_text, eq_text_iff}
use agen.AsyncApi.Server
use agen.Gen.{Generated, unknown_protocol}
use agen.Gen.Features.{FeatureSet, build_features}
use agen.Gen.Names.{GoNames, pascal_name, pascal, join_spaces}
use agen.Gen.Unsupported.{not_implemented, fail}
use agen.Gen.Backend
use agen.Gen.Sorting.{sort_strings}
use agen.Gen.Sorting.Order.{count, sort_strings-IsSorted}
use agen.Gen.Parts.{or_nil}
use agen.Gen.Building.Safe.{IsSafe, ok-IsSafe, bind-IsSafe, or_nil-IsSafe, name_or_err-IsSafe}
use agen.Gen.Generator.{
  known_protocols, keys_of, sorted_server_keys, build_server, build_servers, features_of,
}

module _ {V : Type 0} where
  unfoldable AllFound : Map V → List Text → Type 0
  AllFound m [] = Unit
  AllFound m (t ∷ ts) = ((v : V) × (lookup t m ≡ some v)) × AllFound m ts

  AllFound-of_count :
      (m : Map V) (ts : List Text)
      → ((t : Text) → 0 < count t ts → (v : V) × (lookup t m ≡ some v))
      → AllFound m ts
  unfolding AllFound count
  AllFound-of_count m [] found = tt
  AllFound-of_count m (t ∷ ts) found = (
    found t (let same = (eq_text_iff t t).1 refl in ground arith),
    AllFound-of_count m ts (λ u h. found u (ground (arith, h))),
  )

  count-keys_of : (t : Text) (m : Map V) → 0 < count t (keys_of m) → (v : V) × (lookup t m ≡ some v)
  unfolding count keys_of lookup
  count-keys_of t [] h = absurd (omega arith)
  count-keys_of t ((j, v) ∷ m) h = elim (Bool-cases (eq_text j t)) [
    | inl same ↦ (v, ground (arith, same))
    | inr differs ↦
        let (u, e) = count-keys_of t m (ground (arith, differs, h)) in
        (u, ground (arith, differs, e))
  ]

  sorted_server_keys-AllFound : (m : Map V) → AllFound m (sorted_server_keys m)
  unfolding sorted_server_keys
  sorted_server_keys-AllFound m =
      AllFound-of_count m (sort_strings (keys_of m))
        (λ t h. count-keys_of t m (subst (λ n. 0 < n) ((sort_strings-IsSorted (keys_of m)).1 t) h))

module _ {Requirement Bindings Tags : Type 0} where
  build_server-IsSafe :
      (rules : GoNames) (ignored : List Text) (s : Server.Server Requirement Bindings Tags)
      → IsSafe (build_server rules ignored s)
  unfolding build_server pascal_name pascal
  build_server-IsSafe rules ignored s =
      if_both (λ (x : Generated (Option Backend.Server)). IsSafe x)
        (not (lists s.protocol known_protocols))
        (λ _.
          elim (fail ignored (some (not_implemented (text "protocol " ++ s.protocol))))
            as (λ o.
              IsSafe {A = Option Backend.Server}
                (elim o [ none ↦ ok none | some e ↦ err (unknown_protocol s.protocol) ])) [
                  | none ↦ ok-IsSafe none
                  | some e ↦ λ e'. cc
                ])
        (λ _.
          bind-IsSafe (pascal rules (join_spaces (s.name_of ∷ []))) _
            (if_both (λ (x : Generated Text). IsSafe x) rules.initialisms
              (λ _. name_or_err-IsSafe _ _) (λ _. name_or_err-IsSafe _ _))
            (λ go_name _. ok-IsSafe _))

  each_server-IsSafe :
      (rules : GoNames) (ignored : List Text)
      (servers : Map (Server.Server Requirement Bindings Tags)) (names : List Text)
      → AllFound servers names
      → IsSafe (build_servers rules ignored servers names)
  unfolding build_servers AllFound
  each_server-IsSafe rules ignored servers [] all = ok-IsSafe []
  each_server-IsSafe rules ignored servers (name ∷ names) ((s, at), all) =
      bind-IsSafe (or_nil (lookup name servers)) _ (or_nil-IsSafe (lookup name servers) s at)
        (λ s' _.
          bind-IsSafe (build_server rules ignored s') _ (build_server-IsSafe rules ignored s')
            (λ built _.
              bind-IsSafe (build_servers rules ignored servers names) _
                (each_server-IsSafe rules ignored servers names all) (λ rest _. ok-IsSafe _)))

  pub build_servers-IsSafe :
      (rules : GoNames) (ignored : List Text)
      (servers : Map (Server.Server Requirement Bindings Tags))
      → IsSafe (build_servers rules ignored servers (sorted_server_keys servers))
  build_servers-IsSafe rules ignored servers =
      each_server-IsSafe rules ignored servers (sorted_server_keys servers)
        (sorted_server_keys-AllFound servers)

pub features_of-IsSafe : (features : Option FeatureSet) → IsSafe (features_of features)
unfolding features_of build_features
features_of-IsSafe none = ok-IsSafe _
features_of-IsSafe (some f) = ok-IsSafe f
