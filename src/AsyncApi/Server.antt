-- ===== src/AsyncApi/Server.antt =====
-- asyncapi/parser/parser.go: the version of a document and its servers.
pub mod Version
pub mod Complete
mod Tests
use agen.Prelude.{not, ◌||◌, List, [], ◌∷◌, Option, none, some, ◌==◌, if◌then◌else◌}
use agen.Prelude.Result.{ok, err, ◌>>=◌, ◌>>◌, reject}
use agen.Prelude.Text.{Text, Map, text, is_empty, eq_text, insert}
use agen.AsyncApi.{
  Parsed, cannot_resolve, cannot_decode, invalid_version, unsupported_version,
  version_not_supported, host_required, protocol_required, title_required, version_required,
  Pointers, or_err,
}

-- What stands before and behind the first dot: one step of `strings.SplitN`.
unfoldable pub cut : Text → Option (Text × Text)
cut [] = none
cut (c ∷ t) =
    let rest = cut t in
    if c == 46 then some ([], t) else elim rest [ none ↦ none | some (a, b) ↦ some (c ∷ a, b) ]

-- The last part that is asked for is all that is left, if there is no dot in it.
unfoldable pub before_dot : Text → Text
unfolding cut
before_dot t = elim (cut t) [ none ↦ t | some (a, b) ↦ a ]

unfoldable pub check_minor : Text → Text → Parsed Text
unfolding eq_text
check_minor v minor =
    if eq_text minor (text "0") || eq_text minor (text "1")
    then ok v
    else err (unsupported_version v)

unfoldable pub check_version : Text → Text → Text → Parsed Text
unfolding eq_text check_minor
check_version v major minor =
    if eq_text major (text "3")
    then check_minor v minor
    else if eq_text major (text "2") || eq_text major (text "1")
    then err (version_not_supported v)
    else err (unsupported_version v)

unfoldable pub check_version_parts : Text → Option (Text × Text) → Parsed Text
unfolding check_version before_dot
check_version_parts v none = err (invalid_version v)
check_version_parts v (some (major, rest)) = check_version v major (before_dot rest)

unfoldable pub parse_version : Text → Parsed Text
unfolding check_version_parts cut
parse_version v = check_version_parts v (cut v)

-- `validateInfo`, which no code calls.
unfoldable pub validate_info : Text → Text → Parsed (Unit {0})
validate_info title version = do
  reject (is_empty title) title_required
  reject (is_empty version) version_required

module _ (Requirement Bindings Tags : Type 0) where
  -- `asyncapi.Server`.
  pub record RawServer : Type 0 where
    pub ref : Text
    pub host : Text
    pub protocol : Text
    pub protocol_version : Text
    pub pathname : Text
    pub title_of : Text
    pub summary_of : Text
    pub description_of : Text
    pub security_of : List Requirement
    pub bindings_of : Bindings
    pub tags_of : Tags

  pub record Server : Type 0 where
    pub name_of : Text
    pub host : Text
    pub protocol : Text
    pub protocol_version : Text
    pub pathname : Text
    pub title_of : Text
    pub summary_of : Text
    pub description_of : Text
    pub security_of : List Requirement
    pub bindings_of : Bindings
    pub tags_of : Tags

module _ {Requirement Bindings Tags : Type 0} where
  unfoldable pub server_from :
      Text → RawServer Requirement Bindings Tags → Server Requirement Bindings Tags
  server_from n s = record {
    name_of = n;
    host = s.host;
    protocol = s.protocol;
    protocol_version = s.protocol_version;
    pathname = s.pathname;
    title_of = s.title_of;
    summary_of = s.summary_of;
    description_of = s.description_of;
    security_of = s.security_of;
    bindings_of = s.bindings_of;
    tags_of = s.tags_of;
  }

  unfoldable pub check_server :
      Text → RawServer Requirement Bindings Tags → Parsed (Server Requirement Bindings Tags)
  unfolding server_from
  check_server n s = do
    reject (is_empty s.host) host_required
    reject (is_empty s.protocol) protocol_required
    ok (server_from n s)

  module _ (p : Pointers) (decode : p.Node → Option (RawServer Requirement Bindings Tags)) where
    unfoldable pub resolve_server_ref : p.Ctx → Text → Parsed (RawServer Requirement Bindings Tags)
    unfolding or_err
    resolve_server_ref ctx server_ref = do
      k ← or_err (cannot_resolve server_ref) (p.key ctx server_ref)
      inner ← or_err (cannot_resolve server_ref) (p.add_key ctx k)
      node ← or_err (cannot_resolve server_ref) (p.resolve (p.ptr k))
      or_err (cannot_decode server_ref) (decode node)

    unfoldable pub resolve_server :
        p.Ctx → RawServer Requirement Bindings Tags → Parsed (RawServer Requirement Bindings Tags)
    unfolding resolve_server_ref
    resolve_server ctx s = if not (is_empty s.ref) then resolve_server_ref ctx s.ref else ok s

    -- `servers` are those that are there; a nil server is skipped.
    unfoldable pub parse_servers :
        p.Ctx
        → Map (Option (RawServer Requirement Bindings Tags))
        → Map (Server Requirement Bindings Tags)
        → Parsed (Map (Server Requirement Bindings Tags))
    unfolding resolve_server check_server insert
    parse_servers ctx [] servers = ok servers
    parse_servers ctx ((n, none) ∷ spec) servers = parse_servers ctx spec servers
    parse_servers ctx ((n, some s) ∷ spec) servers = do
      resolved ← resolve_server ctx s
      server ← check_server n resolved
      parse_servers ctx spec (insert n server servers)
