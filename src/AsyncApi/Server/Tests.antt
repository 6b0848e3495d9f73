-- ===== src/AsyncApi/Server/Tests.antt =====
-- A version and two servers, and the theorems at them.
use agen.Prelude.{ℕ, ◌≡◌, ◌↔◌, refl, [], ◌∷◌, Option, none, some}
use agen.Prelude.Result.{ok, err}
use agen.Prelude.Text.{Text, Map, Distinct, text, lookup}
use agen.AsyncApi.{Pointers, version_not_supported, protocol_required}
use agen.AsyncApi.Server.{RawServer, Server, parse_version, parse_servers, server_from}
use agen.AsyncApi.Server.Version.{IsSupported, parse_version-ok_iff}
use agen.AsyncApi.Server.Complete.{Declares, parse_servers-Declares}

rejects_2 : parse_version (text "2.6.0") ≡ err (version_not_supported (text "2.6.0"))
unfolding parse_version
rejects_2 = refl

parse_version-ok_iff_example :
    (parse_version (text "3.1.0") ≡ ok (text "3.1.0"))
    ↔ ((text "3.1.0" ≡ text "3.1.0") × IsSupported (text "3.1.0"))
parse_version-ok_iff_example = parse_version-ok_iff (text "3.1.0") (text "3.1.0")

abbrev server_with : Text → Text → RawServer ℕ ℕ ℕ
server_with ref protocol = record {
  ref = ref;
  host = text "redis.example.io:6379";
  protocol = protocol;
  protocol_version = [];
  pathname = [];
  title_of = [];
  summary_of = [];
  description_of = [];
  security_of = [];
  bindings_of = 0;
  tags_of = 0;
}

-- Every reference leads to one server.
abbrev one_server : Pointers
one_server = record {
  Ctx = Unit;
  Key = Text;
  Node = RawServer ℕ ℕ ℕ;
  key = λ _ ref. some ref;
  add_key = λ c _. some c;
  ptr = λ k. k;
  resolve = λ _. some (server_with [] (text "redis"));
}

decode_server : RawServer ℕ ℕ ℕ → Option (RawServer ℕ ℕ ℕ)
decode_server node = some node

abbrev spec : Map (Option (RawServer ℕ ℕ ℕ))
spec =
    (text "production", some (server_with (text "#/components/servers/main") []))
    ∷ (text "old", none)
    ∷ []

abbrev servers : Map (Server ℕ ℕ ℕ)
servers = (text "production", server_from (text "production") (server_with [] (text "redis"))) ∷ []

parses_spec : parse_servers one_server decode_server tt spec [] ≡ ok servers
unfolding parse_servers decode_server
parses_spec = refl

rejects_protocol :
    parse_servers one_server decode_server tt ((text "s", some (server_with [] [])) ∷ []) []
    ≡ err protocol_required
unfolding parse_servers
rejects_protocol = refl

spec-Distinct : Distinct spec
unfolding Distinct lookup
spec-Distinct = (refl, (refl, tt))

parse_servers-Declares_example :
    Declares one_server decode_server tt
      (text "production")
      (lookup (text "production") spec)
      none
      (lookup (text "production") servers)
parse_servers-Declares_example =
    parse_servers-Declares one_server decode_server tt spec servers (text "production")
      spec-Distinct parses_spec
