-- ===== src/Gen/Backend.antt =====
-- The backend of the generated constructors: `brokerBackend` of gen/generator.go, over the servers of
-- internal/ir/operation.go.
use agen.Prelude.{
  ◌≡◌, ◌↔◌, ◌≢◌, refl, sym, Bool, true, false, not, List, [], ◌∷◌, ◌++◌, if◌then◌else◌, arith,
  Bool-cases, inl, inr,
}
use mathlib.Core.Path.{subst}
use agen.Prelude.Text.{Text, text, lists, eq_text, eq_text_iff, is_empty}

-- `ir.Server`
pub record Server : Type 0 where
  pub name : Text
  pub go_name : Text
  pub host : Text
  pub protocol : Text
  pub protocol_version : Text
  pub description : Text

abbrev pub protocols_with_backend : List Text
protocols_with_backend = text "redis" ∷ []

-- `protocolsWithBackend[protocol]`
unfoldable pub has_backend : Text → Bool
unfolding lists
has_backend protocol = lists protocol protocols_with_backend

-- The loop, with the protocol of the servers before.
unfoldable pub backend_from : List Server → Text → Bool × Text
unfolding has_backend eq_text
backend_from [] protocol = (not (is_empty protocol), protocol)
backend_from (s ∷ servers) protocol =
    let rest = backend_from servers s.protocol in
    if not (has_backend s.protocol)
    then (false, s.protocol)
    else if is_empty protocol
    then rest
    else if eq_text protocol s.protocol
    then rest
    else (false, protocol)

unfoldable pub broker_backend : List Server → Bool × Text
unfolding backend_from
broker_backend servers = backend_from servers []

-- `Server.String`
unfoldable pub server_text : Server → Text
server_text s = s.name ++ text " (" ++ s.protocol ++ text "://" ++ s.host ++ text ")"

-- Each server speaks the protocol.
abbrev pub AllSpeak : Text → List Server → Type 0
AllSpeak protocol [] = Unit
AllSpeak protocol (s ∷ servers) = (s.protocol ≡ protocol) × AllSpeak protocol servers

from_protocol :
    (servers : List Server) (protocol p : Text)
    → is_empty protocol ≡ false
    → has_backend protocol ≡ true
    → (backend_from servers protocol ≡ (true, p)) ↔ ((p ≡ protocol) × AllSpeak protocol servers)
unfolding backend_from
from_protocol [] protocol p some backed = (λ e. (ground arith, tt), λ (e, all). ground arith)
from_protocol (s ∷ servers) protocol p some backed =
    elim (Bool-cases (eq_text protocol s.protocol)) [
      | inl same ↦
          let e : protocol ≡ s.protocol = (eq_text_iff protocol s.protocol).0 same in
          let ih = from_protocol servers protocol p some backed in
          (λ h. ground arith, λ (q, all). ground arith)
      | inr differs ↦ (
        λ h. absurd (ground arith),
        λ (q, (first, all)). absurd (ground (arith, eq_text_iff protocol s.protocol)),
      )
    ]

not_empty : (protocol : Text) → has_backend protocol ≡ true → is_empty protocol ≡ false
unfolding has_backend lists
not_empty [] h = unfold eq_text in sym h
not_empty (c ∷ protocol) h = refl

first_server :
    (s : Server) (servers : List Server) (p : Text)
    → (broker_backend (s ∷ servers) ≡ (true, p))
      ↔ ((has_backend p ≡ true) × AllSpeak p (s ∷ servers))
unfolding broker_backend backend_from
first_server s servers p = elim (Bool-cases (has_backend s.protocol)) [
  | inl backed ↦
      let rest = from_protocol servers s.protocol p (not_empty s.protocol backed) backed in
      (
        λ h.
            let (e, all) = rest.0 (rw backed at h) in
            subst (λ q. (has_backend q ≡ true) × ((s.protocol ≡ q) × AllSpeak q servers)) (sym e)
              (backed, (refl, all)),
        λ (b, (e, all)). rw backed (rest.1 (sym e, subst (λ q. AllSpeak q servers) (sym e) all)),
      )
  | inr unbacked ↦ (λ h. absurd (ground arith), λ (b, (e, all)). absurd (ground arith))
]

-- The backend is wired with a protocol exactly if there is a server, the protocol has a backend, and
-- every server speaks it.
pub broker_backend_iff :
    (servers : List Server) (p : Text)
    → (broker_backend servers ≡ (true, p))
      ↔ ((servers ≢ []) × (has_backend p ≡ true) × AllSpeak p servers)
broker_backend_iff [] p =
    (λ h. absurd (unfold broker_backend in ground arith), λ (some, b, all). absurd (some refl))
broker_backend_iff (s ∷ servers) p = (
  λ h. let (b, all) = (first_server s servers p).0 h in ((λ e. cc), b, all),
  λ (some, b, all). (first_server s servers p).1 (b, all),
)
