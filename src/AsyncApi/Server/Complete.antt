-- ===== src/AsyncApi/Server/Complete.antt =====
-- The servers of a parsed document.
use agen.Prelude.{◌≡◌, ◌∙◌, true, false, [], ◌∷◌, Option, none, some, arith, if_both}
use mathlib.Core.Path.{subst}
use agen.Prelude.Result.{ok, bind-ok}
use agen.Prelude.Text.{
  Text, Map, is_empty, eq_text, eq_text_iff, lookup, insert, lookup-insert, Distinct,
}
use agen.AsyncApi.{Pointers}
use agen.AsyncApi.Server.{
  RawServer, Server, server_from, check_server, resolve_server, parse_servers,
}

missing :
    {V : Type 0} (k n : Text) (m : Map V)
    → eq_text k n ≡ true
    → lookup k m ≡ none
    → lookup n m ≡ none
missing k n m same fresh = subst (λ j. lookup j m ≡ none) ((eq_text_iff k n).0 same) fresh

inserted :
    {V : Type 0} (k n : Text) (v : V) (m : Map V)
    → eq_text k n ≡ true
    → lookup n (insert k v m) ≡ some v
inserted k n v m same = ground (arith, lookup-insert k n v m)

not_inserted :
    {V : Type 0} (k n : Text) (v : V) (m : Map V)
    → eq_text k n ≡ false
    → lookup n (insert k v m) ≡ lookup n m
not_inserted k n v m other = ground (arith, lookup-insert k n v m)

module _ {Requirement Bindings Tags : Type 0} where
  -- A server of the document, as it is to be held under its name.
  unfoldable pub IsServer :
      Text → RawServer Requirement Bindings Tags → Server Requirement Bindings Tags → Type 0
  IsServer n raw s =
      (is_empty raw.host ≡ false) × (is_empty raw.protocol ≡ false) × (s ≡ server_from n raw)

  check_server-IsServer :
      (n : Text) (raw : RawServer Requirement Bindings Tags) (s : Server Requirement Bindings Tags)
      → check_server n raw ≡ ok s
      → IsServer n raw s
  unfolding check_server IsServer
  check_server-IsServer n raw s h = ground arith

  module _ (p : Pointers) (decode : p.Node → Option (RawServer Requirement Bindings Tags)) where
    -- What the document says of a name, behind the references.
    unfoldable pub Declares :
        p.Ctx
        → Text
        → Option (Option (RawServer Requirement Bindings Tags))
        → Option (Server Requirement Bindings Tags)
        → Option (Server Requirement Bindings Tags)
        → Type 0
    Declares ctx n none before s = s ≡ before
    Declares ctx n (some none) before s = s ≡ before
    Declares ctx n (some (some raw)) before s =
        (r : RawServer Requirement Bindings Tags) × (server : Server Requirement Bindings Tags)
        × (resolve_server p decode ctx raw ≡ ok r)
        × IsServer n r server
        × (s ≡ some server)

    parsed-Declares :
        (ctx : p.Ctx) (spec : Map (Option (RawServer Requirement Bindings Tags)))
        (before servers : Map (Server Requirement Bindings Tags)) (n : Text)
        → Distinct spec
        → parse_servers p decode ctx spec before ≡ ok servers
        → Declares ctx n (lookup n spec) (lookup n before) (lookup n servers)
    unfolding parse_servers Declares lookup Distinct
    parsed-Declares ctx [] before servers n distinct h = ground arith
    parsed-Declares ctx ((k, none) ∷ spec) before servers n (fresh, distinct) h =
        let rest = parsed-Declares ctx spec before servers n distinct h in
        if_both (λ o. Declares ctx n o (lookup n before) (lookup n servers)) (eq_text k n)
          (λ same.
            subst (λ o. Declares ctx n o (lookup n before) (lookup n servers))
              (missing k n spec same fresh) rest)
          (λ _. rest)
    parsed-Declares ctx ((k, some raw) ∷ spec) before servers n (fresh, distinct) h =
        let (r, e₁, h₁) = bind-ok (resolve_server p decode ctx raw) _ h in
        let (server, e₂, h₂) = bind-ok (check_server k r) _ h₁ in
        let rest = parsed-Declares ctx spec (insert k server before) servers n distinct h₂ in
        if_both (λ o. Declares ctx n o (lookup n before) (lookup n servers)) (eq_text k n)
          (λ same. (
            r,
            server,
            e₁,
            subst (λ j. IsServer j r server) ((eq_text_iff k n).0 same)
                (check_server-IsServer k r server e₂),
            subst (λ o. Declares ctx n o (lookup n (insert k server before)) (lookup n servers))
                  (missing k n spec same fresh) rest
                ∙ inserted k n server before same,
          ))
          (λ other.
            subst (λ b. Declares ctx n (lookup n spec) b (lookup n servers))
              (not_inserted k n server before other) rest)

    -- If `parseServers` succeeds on a document that has no name twice, then a name has a server exactly
    -- if the document has one that is not nil under it, which is then the one that its reference leads
    -- to, with a host and a protocol that are not empty.
    pub parse_servers-Declares :
        (ctx : p.Ctx) (spec : Map (Option (RawServer Requirement Bindings Tags)))
        (servers : Map (Server Requirement Bindings Tags)) (n : Text)
        → Distinct spec
        → parse_servers p decode ctx spec [] ≡ ok servers
        → Declares ctx n (lookup n spec) none (lookup n servers)
    unfolding lookup
    parse_servers-Declares ctx spec servers n distinct h =
        parsed-Declares ctx spec [] servers n distinct h
