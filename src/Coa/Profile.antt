-- ===== src/Coa/Profile.antt =====
-- Which sessions ChangeUserProfile changes, and what it counts.
use radius_go.Base.{◌≡◌, refl, Bool, false, ◌&&◌, ◌||◌, Option, [], ◌∷◌, if◌then◌else◌, arith}
use mathlib.Core.Option
use radius_go.Base.Text.{Str}
use radius_go.Base.Dict.{Dict, lookup}
use radius_go.Domain.Session.{RadiusSession}
use radius_go.Packet.{RadiusLibrary}
use radius_go.Packet.Code
use radius_go.Service.{Service}
use radius_go.Auth.Decision.{is_active_of}
use radius_go.Coa.{
  nas_contains, update_where, at_nas, Network, ProfileChange, changed, is_code, change_packet,
}

pub lookup-update_where :
    (test : RadiusSession → Bool) (change : Str → RadiusSession → RadiusSession) (id : Str)
    (m : Dict RadiusSession)
    → ((a b : Str) (sess : RadiusSession) → change a sess ≡ change b sess)
    → lookup id (update_where test change m)
      ≡ Option.map (λ sess. if test sess then change id sess else sess) (lookup id m)
unfolding update_where lookup
lookup-update_where test change id [] one = refl
lookup-update_where test change id ((j, sess) ∷ m) one =
    ground (arith, lookup-update_where test change id m one, one j id sess)

module _ (lib : RadiusLibrary) (net : Network) (username : Str) (c : ProfileChange) where
  abbrev pub accepted : Str → Str → Bool
  accepted nas_addr secret =
      is_code lib net username c Code.coa_ack
        (net.exchange nas_addr (change_packet lib net username c secret))

  -- Whether a session is found at a server that acknowledged.
  abbrev pub reached : Dict Str → RadiusSession → Bool
  reached [] sess = false
  reached ((nas_addr, secret) ∷ more) sess =
      (accepted nas_addr secret && nas_contains sess.nas_ip nas_addr) || reached more sess

  abbrev pub profiled : Dict Str → RadiusSession → RadiusSession
  profiled nases sess =
      if is_active_of username sess && reached nases sess then changed c sess else sess

  -- What one acknowledgement does to a session.
  abbrev pub at_one : Str → RadiusSession → RadiusSession
  at_one nas_addr sess = if at_nas username nas_addr sess then changed c sess else sess
