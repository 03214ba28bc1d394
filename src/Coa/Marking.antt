-- ===== src/Coa/Marking.antt =====
-- Which sessions are active after DisconnectUser.
use radius_go.Base.{
  ℕ, suc, ◌≡◌, Bool, true, false, ◌&&◌, ◌||◌, not, Option, none, some, [], ◌∷◌, ◌==◌, if◌then◌else◌,
}
use radius_go.Base.Text.{Str, str_eq}
use radius_go.Base.Dict.{Dict}
use radius_go.Domain.Session.{RadiusSession}
use radius_go.Packet.{RadiusLibrary}
use radius_go.Packet.Code
use radius_go.Service.{Service}
use radius_go.Auth.Decision.{is_active_of}
use radius_go.Coa.{nas_contains, Network, disconnect_packet}

-- The number of sessions with a property.
unfoldable pub count_where : (RadiusSession → Bool) → Dict RadiusSession → ℕ
count_where test [] = 0
count_where test ((id, sess) ∷ m) =
    let rest = count_where test m in if test sess then suc rest else rest

-- What other goroutines do meanwhile leaves the sessions alone.
abbrev pub IsQuiet : Network → Type 0
IsQuiet net = (nas_addr : Str) (s : Service) → (net.meanwhile nas_addr s).sessions ≡ s.sessions

-- Whether the answer of a server stops a session: an error stops every one, an acknowledgement
-- those that nasContains finds.
abbrev pub closes : Str → Option ℕ → RadiusSession → Bool
closes nas_addr none sess = true
closes nas_addr (some code) sess =
    (code == Code.disconnect_ack) && nas_contains sess.nas_ip nas_addr

abbrev pub acknowledged : Option ℕ → Bool
acknowledged none = false
acknowledged (some code) = code == Code.disconnect_ack

module _ (lib : RadiusLibrary) (net : Network) (username : Str) where
  -- Whether the answer of one of the servers stops a session.
  abbrev pub closed_by : Dict Str → RadiusSession → Bool
  closed_by [] sess = false
  closed_by ((nas_addr, secret) ∷ more) sess =
      closes nas_addr (net.exchange nas_addr (disconnect_packet lib net username secret)) sess
      || closed_by more sess

  abbrev pub stays_active : Dict Str → Str → RadiusSession → Bool
  stays_active nases name sess =
      is_active_of name sess && not (str_eq name username && closed_by nases sess)

module _ (lib : RadiusLibrary) (net : Network) (username : Str) where
  -- How many servers acknowledged.
  abbrev pub acknowledgements : Dict Str → ℕ
  acknowledgements [] = 0
  acknowledgements ((nas_addr, secret) ∷ more) =
      let rest = acknowledgements more in
      if acknowledged (net.exchange nas_addr (disconnect_packet lib net username secret))
      then suc rest
      else rest
