-- ===== src/Examples/Changes.antt =====
-- The theorems on disconnects and changes of profile, applied.
use radius_go.Base.{none, some, []}
use mathlib.Core.Option
use radius_go.Base.Int.{pos}
use radius_go.Base.Text.{codes}
use radius_go.Packet.Code
use radius_go.Coa.{Network, ProfileChange}

-- Every server acknowledges a disconnect, and no other goroutine runs.
abbrev network : Network
network = record {
  exchange = λ nas_addr p. some Code.disconnect_ack;
  meanwhile = λ nas_addr s. s;
  clock = λ nas_addr id. pos 99;
}

abbrev faster : ProfileChange
faster = record {
  rate_limit = codes "5M/5M";
  group = [];
  bw_up = some 5000;
  bw_down = none;
  max_octets = none;
}

-- Every server acknowledges a change.
abbrev changing : Network
changing = record network { exchange = λ nas_addr p. some Code.coa_ack }
