-- ===== src/Coa.antt =====
-- internal/radius/coa.go: handleCoA, DisconnectUser and ChangeUserProfile. A map is the list of its
-- entries in the order in which the loop visits them.
pub mod Marking
pub mod Prefix
pub mod Profile
use radius_go.Base.{
  ℕ, suc, ◌≡◌, Bool, true, false, ◌&&◌, ◌||◌, not, Option, none, some, List, [], ◌∷◌, ◌++◌, ◌==◌,
  if◌then◌else◌, or_else,
}
use radius_go.Base.Int.{ℤ}
use radius_go.Base.Text.{Str, codes, is_empty, str_eq}
use radius_go.Base.Dict.{Dict, lookup, insert}
use radius_go.Domain.User.{Nas}
use radius_go.Domain.Session.{RadiusSession, session_state_active, session_state_stop}
use radius_go.Net.HostPort.{host_of, join_host_port}
use radius_go.Packet.{Packet, RadiusLibrary, write, user_name_add_string}
use radius_go.Packet.Code
use radius_go.Packet.Authenticator.{add_message_authenticator}
use radius_go.Packet.Vsa.{
  mikrotik_rate_limit_set_string, mikrotik_group_set_string, pf_sense_bandwidth_max_up_set,
  pf_sense_bandwidth_max_down_set, pf_sense_max_total_octets_set,
}
use radius_go.Service.{Service}
use radius_go.Auth.Decision.{is_active_of}

-- Every inbound request is refused.
unfoldable pub handle_coa : RadiusLibrary → Str → Packet
handle_coa lib secret = lib.new_packet Code.coa_nak secret

-- `strings.HasPrefix`
unfoldable pub has_prefix : Str → Str → Bool
has_prefix s [] = true
has_prefix [] (c ∷ p) = false
has_prefix (x ∷ s) (c ∷ p) = (x == c) && has_prefix s p

unfoldable pub nas_contains : Str → Str → Bool
nas_contains sess_nas_ip nas_addr = has_prefix sess_nas_ip (host_of nas_addr)

abbrev pub coa_port : Str
coa_port = codes "3799"

-- What a session adds to the map of addresses and secrets.
unfoldable pub add_nas : Dict Nas → RadiusSession → Dict Str → Dict Str
add_nas nases sess m =
    let host = host_of sess.nas_ip in
    elim (lookup host nases) [
      | none ↦ m
      | some nas ↦ insert (join_host_port host coa_port) nas.secret m
    ]

-- The loop of collectNASForUser, onto a map.
unfoldable pub collect : Dict Nas → Str → Dict RadiusSession → Dict Str → Dict Str
collect nases username [] m = m
collect nases username ((id, sess) ∷ more) m =
    collect nases username more (if is_active_of username sess then add_nas nases sess m else m)

unfoldable pub collect_nas_for_user : Str → Service → Dict Str
collect_nas_for_user username s = collect s.nases username s.sessions []

abbrev pub stopped : ℤ → RadiusSession → RadiusSession
stopped now sess = record sess { session_status = session_state_stop; stop_time = some now }

-- A loop over the sessions that stores a changed session under its own key.
unfoldable pub update_where :
    (RadiusSession → Bool)
    → (Str → RadiusSession → RadiusSession)
    → Dict RadiusSession
    → Dict RadiusSession
update_where test change [] = []
update_where test change ((id, sess) ∷ m) =
    (id, if test sess then change id sess else sess) ∷ update_where test change m

-- The clock is read for each session that is stopped; the reading for a key is an argument.
abbrev pub mark_sessions_stopped : Str → (Str → ℤ) → Service → Service
mark_sessions_stopped username clock s = record s {
  sessions = update_where (is_active_of username) (λ id sess. stopped (clock id) sess) s.sessions;
}

abbrev pub at_nas : Str → Str → RadiusSession → Bool
at_nas username nas_addr sess = is_active_of username sess && nas_contains sess.nas_ip nas_addr

abbrev pub mark_sessions_by_nas : Str → Str → (Str → ℤ) → Service → Service
mark_sessions_by_nas username nas_addr clock s = record s {
  sessions =
      update_where (at_nas username nas_addr) (λ id sess. stopped (clock id) sess) s.sessions;
}

-- The network: `radius.Exchange` with an address gives the code of the answer, `none` for an error;
-- the service while it waits is what others make of it.
pub record Network : Type 0 where
  pub exchange : Str → Packet → Option ℕ
  pub meanwhile : Str → Service → Service
  pub clock : Str → Str → ℤ

module _ (lib : RadiusLibrary) (net : Network) where
  unfoldable pub disconnect_packet : Str → Str → Packet
  disconnect_packet username secret =
      (add_message_authenticator lib (
        write lib (user_name_add_string username)
          (lib.new_packet Code.disconnect_request secret))).0

  -- What the answer of one server does: the service, and whether it counts.
  unfoldable pub disconnect_answer : Str → Str → Option ℕ → Service → Service × Bool
  disconnect_answer username nas_addr none s =
      (mark_sessions_stopped username (net.clock nas_addr) s, false)
  disconnect_answer username nas_addr (some code) s =
      if code == Code.disconnect_ack
      then (mark_sessions_by_nas username nas_addr (net.clock nas_addr) s, true)
      else (s, false)

  -- The loop of DisconnectUser over the servers.
  unfoldable pub disconnect_all : Str → Dict Str → Service → Service × ℕ
  disconnect_all username [] s = (s, 0)
  disconnect_all username ((nas_addr, secret) ∷ more) s =
      let answer = net.exchange nas_addr (disconnect_packet username secret) in
      let (s', counts) = disconnect_answer username nas_addr answer (net.meanwhile nas_addr s) in
      let (q, n) = disconnect_all username more s' in (q, if counts then suc n else n)

  unfoldable pub disconnect_user : Str → Service → Service × ℕ
  disconnect_user username s = disconnect_all username (collect_nas_for_user username s) s

-- The arguments of ChangeUserProfile besides the user: an empty string or `none` changes nothing.
pub record ProfileChange : Type 0 where
  pub rate_limit : Str
  pub group : Str
  pub bw_up : Option ℕ
  pub bw_down : Option ℕ
  pub max_octets : Option ℕ

pub record CoaChangeResult : Type 0 where
  pub disconnected_count : ℕ
  pub failed_nas : List Str

-- A setter whose error is dropped, under its test.
abbrev set_given : (Packet → Str → Packet × Bool) → Str → Packet → Packet
set_given setter v p = if is_empty v then p else (setter p v).0

abbrev set_some : (Packet → ℕ → Packet × Bool) → Option ℕ → Packet → Packet
set_some setter none p = p
set_some setter (some v) p = (setter p v).0

abbrev pub given : Str → Str → Str
given new old = if is_empty new then old else new

-- A session under the new profile.
abbrev pub changed : ProfileChange → RadiusSession → RadiusSession
changed c sess = record sess {
  rate_limit = given c.rate_limit sess.rate_limit;
  mikrotik_group = given c.group sess.mikrotik_group;
  bandwidth_max_up = or_else c.bw_up sess.bandwidth_max_up;
  bandwidth_max_down = or_else c.bw_down sess.bandwidth_max_down;
  max_total_octets = or_else c.max_octets sess.max_total_octets;
}

module _ (lib : RadiusLibrary) (net : Network) (username : Str) (c : ProfileChange) where
  unfoldable pub change_packet : Str → Packet
  change_packet secret =
      let p0 = write lib (user_name_add_string username) (lib.new_packet Code.coa_request secret) in
      let p1 = set_given (mikrotik_rate_limit_set_string lib) c.rate_limit p0 in
      let p2 = set_given (mikrotik_group_set_string lib) c.group p1 in
      let p3 = set_some (pf_sense_bandwidth_max_up_set lib) c.bw_up p2 in
      let p4 = set_some (pf_sense_bandwidth_max_down_set lib) c.bw_down p3 in
      let p5 = set_some (pf_sense_max_total_octets_set lib) c.max_octets p4 in
      (add_message_authenticator lib p5).0

  abbrev pub is_code : ℕ → Option ℕ → Bool
  is_code k none = false
  is_code k (some code) = code == k

  abbrev pub change_sessions : Str → Service → Service
  change_sessions nas_addr s = record s {
    sessions = update_where (at_nas username nas_addr) (λ id sess. changed c sess) s.sessions;
  }

  -- The loop of ChangeUserProfile over the servers.
  unfoldable pub change_all : Dict Str → Service → Service × CoaChangeResult
  change_all [] s = (s, record { disconnected_count = 0; failed_nas = [] })
  change_all ((nas_addr, secret) ∷ more) s =
      let good = is_code Code.coa_ack (net.exchange nas_addr (change_packet secret)) in
      let s1 = net.meanwhile nas_addr s in
      let (q, r) = change_all more (if good then change_sessions nas_addr s1 else s1) in
      (
        q,
        if good
            then record r { disconnected_count = suc r.disconnected_count }
            else record r { failed_nas = nas_addr ∷ r.failed_nas },
      )

  unfoldable pub change_user_profile : Service → Service × CoaChangeResult
  change_user_profile s = change_all (collect_nas_for_user username s) s
