-- ===== src/Coa/Prefix.antt =====
-- Which sessions nasContains finds at a server.
use radius_go.Base.{
  ◌≡◌, refl, ◌∙◌, ap, true, false, not, [], ◌∷◌, ◌++◌, arith, Bool-cases, inl, inr,
}
use mathlib.Core.List.{append_assoc}
use radius_go.Base.Text.{Str}
use radius_go.Net.HostPort.{contains, join_host_port}
use radius_go.Net.HostPort.RoundTrip.{IsHost, IsPort, host_of-join_host_port}
use radius_go.Coa.{has_prefix, nas_contains, coa_port}

has_prefix-append : (p s : Str) → has_prefix (p ++ s) p ≡ true
unfolding has_prefix
has_prefix-append [] s = ground arith
has_prefix-append (c ∷ p) s = ground (arith, has_prefix-append p s)

bracket_no_prefix :
    (p s : Str) → contains b':' p ≡ true → contains b'[' p ≡ false → has_prefix (b'[' ∷ s) p ≡ false
unfolding has_prefix contains
bracket_no_prefix [] s h k = cc (h)
bracket_no_prefix (c ∷ p) s h k = ground (arith, h, k)

pub coa_port-IsPort : IsPort coa_port
unfolding contains
coa_port-IsPort = record { no_colon = refl; no_open = refl; no_close = refl }

-- The address that DisconnectUser and ChangeUserProfile make of a host finds the sessions from that
-- host, whatever their port, exactly if it has no colon: no session of an IPv6 server is found at
-- its own server.
pub nas_contains-own :
    (host port : Str)
    → IsHost host
    → nas_contains (join_host_port host port) (join_host_port host coa_port)
      ≡ not (contains b':' host)
unfolding nas_contains join_host_port
nas_contains-own host port h =
    let back = host_of-join_host_port host coa_port h coa_port-IsPort in
    elim (Bool-cases (contains b':' host)) [
      | inl v6 ↦
          ap (has_prefix (join_host_port host port)) back
          ∙ rw (v6, join_host_port) (bracket_no_prefix host _ v6 h.no_open)
      | inr v4 ↦
          ap (has_prefix (join_host_port host port)) back
          ∙ rw (v4, join_host_port) (has_prefix-append host (b':' ∷ port))
    ]

-- It also finds the sessions of every host whose name goes on where that host's name ends, as
-- 10.0.0.10 does behind 10.0.0.1.
pub nas_contains-longer :
    (host more port : Str)
    → IsHost host
    → contains b':' (host ++ more) ≡ false
    → nas_contains (join_host_port (host ++ more) port) (join_host_port host coa_port) ≡ true
unfolding nas_contains join_host_port
nas_contains-longer host more port h v4 =
    ap (has_prefix (join_host_port (host ++ more) port))
      (host_of-join_host_port host coa_port h coa_port-IsPort)
    ∙ rw (v4, join_host_port, append_assoc) (has_prefix-append host (more ++ (b':' ∷ port)))
