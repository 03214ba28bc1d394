-- ===== src/Examples/Packets.antt =====
-- The theorems on packets, addresses and numbers, applied.
use radius_go.Base.{◌≡◌, refl, true, some, [], ◌∷◌, ◌==◌, if◌then◌else◌, arith}
use radius_go.Base.Int.{negsuc}
use radius_go.Base.Text.{codes}
use radius_go.Packet.{Packet, values}
use radius_go.Packet.Reference.{reference, reference_laws}
use radius_go.Packet.Authenticator.{
  attr_message_authenticator, add_message_authenticator, add_message_authenticator_lem,
}
use radius_go.Packet.Vsa.{
  scan, mikrotik_found, mikrotik_vsa_set_string, mikrotik_vsa_get_string, mikrotik_rate_limit_type,
  mikrotik_group_type,
}
use radius_go.Packet.Vsa.Scan.{encode_subs, first_sub, scan-encode_subs}
use radius_go.Packet.Vsa.RoundTrip.{mikrotik_get-set}
use radius_go.Strconv.{atoi, format_int}
use radius_go.Strconv.RoundTrip.{atoi-format_int}

abbrev empty_packet : Packet
empty_packet = reference.new_packet 2 (codes "testing")

scan-encode_subs_example :
    scan (mikrotik_found 2) (encode_subs ((1, 97 ∷ []) ∷ (2, 98 ∷ 99 ∷ []) ∷ []))
    ≡ first_sub (mikrotik_found 2) ((1, 97 ∷ []) ∷ (2, 98 ∷ 99 ∷ []) ∷ [])
scan-encode_subs_example =
    scan-encode_subs (mikrotik_found 2) ((1, 97 ∷ []) ∷ (2, 98 ∷ 99 ∷ []) ∷ [])
      ((omega arith, omega arith), ((omega arith, omega arith), tt))

mikrotik_get-set_example :
    mikrotik_vsa_get_string reference
      (mikrotik_vsa_set_string reference empty_packet mikrotik_group_type (codes "gold") true).0
      mikrotik_rate_limit_type
    ≡ (if mikrotik_group_type == mikrotik_rate_limit_type then codes "gold" else [])
mikrotik_get-set_example =
    mikrotik_get-set reference reference_laws empty_packet mikrotik_group_type
      mikrotik_rate_limit_type (codes "gold") (omega arith) (omega arith)

add_message_authenticator_lem_example :
    values attr_message_authenticator
      (add_message_authenticator reference empty_packet).0.attributes
    ≡ reference.hmac_md5 (codes "testing") (2 ∷ 1 ∷ []) ∷ []
unfolding reference values
add_message_authenticator_lem_example =
    add_message_authenticator_lem reference reference_laws empty_packet (2 ∷ 1 ∷ []) refl refl refl

atoi-format_int_example : atoi (format_int (negsuc 41)) ≡ some (negsuc 41)
atoi-format_int_example = atoi-format_int (negsuc 41) (omega arith, omega arith)
