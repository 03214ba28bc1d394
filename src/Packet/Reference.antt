-- ===== src/Packet/Reference.antt =====
-- A library with the documented behaviour, to run the model and to meet its hypotheses.
use radius_go.Base.{
  ℕ, ◌≡◌, ◌≢◌, ◌<◌, ◌≤◌, ◌^◌, refl, Option, none, some, List, [], ◌∷◌, ◌++◌, ◌==◌, ltb,
  if◌then◌else◌, length, arith,
}
use mathlib.Core.List.{append-nil}
use radius_go.Base.Text.{Str}
use radius_go.Packet.{
  Avp, Call, call_kind, RadiusLibrary, AttributeLaws, values, add, set, framed_ip_address_add,
  framed_ip_netmask_add, framed_pool_set_string, user_name_add_string, service_type_add,
  framed_protocol_add, framed_compression_add, session_timeout_add, idle_timeout_add,
  framed_mtu_set,
}
use radius_go.Packet.Vsa.{put_uint32, uint32}
use radius_go.Packet.Vsa.RoundTrip.{uint32-put_uint32}

abbrev avp : ℕ → Str → Avp
avp k a = record { kind = k; attribute = a }

without : ℕ → List Avp → List Avp
without k [] = []
without k (a ∷ as') = let rest = without k as' in if a.kind == k then rest else a ∷ rest

-- The value that a call writes.
abbrev call_value : Call → Str
call_value (service_type_add v) = put_uint32 v
call_value (framed_protocol_add v) = put_uint32 v
call_value (framed_compression_add v) = put_uint32 v
call_value (session_timeout_add v) = put_uint32 v
call_value (idle_timeout_add v) = put_uint32 v
call_value (framed_mtu_set v) = put_uint32 v
call_value (framed_ip_address_add ip) = ip
call_value (framed_ip_netmask_add ip) = ip
call_value (framed_pool_set_string s) = s
call_value (user_name_add_string s) = s
call_value (add k a) = a
call_value (set k a) = a

apply : Call → List Avp → List Avp
unfolding without put_uint32
apply (set k a) as' = without k as' ++ (avp k a ∷ [])
apply (framed_mtu_set v) as' = without 12 as' ++ (avp 12 (put_uint32 v) ∷ [])
apply (framed_pool_set_string s) as' = without 88 as' ++ (avp 88 s ∷ [])
apply c as' = as' ++ (avp (call_kind c) (call_value c) ∷ [])

new_vendor_specific : ℕ → Str → Option Str
unfolding put_uint32
new_vendor_specific id v = if ltb 249 (length v) then none else some (put_uint32 id ++ v)

vendor_specific : Str → Option (ℕ × Str)
unfolding uint32
vendor_specific (a ∷ b ∷ c ∷ d ∷ v) = some (uint32 (a ∷ b ∷ c ∷ d ∷ []), v)
vendor_specific _ = none

-- Not the real encoding and digest: any functions serve where a test runs the code around them.
unfoldable pub reference : RadiusLibrary
unfolding apply new_vendor_specific vendor_specific put_uint32
reference = record {
  apply = apply;
  new_packet = λ c secret. record { code = c; secret = secret; attributes = [] };
  new_integer = put_uint32;
  new_vendor_specific = new_vendor_specific;
  vendor_specific = vendor_specific;
  marshal_binary = λ p. some (p.code ∷ length p.attributes ∷ []);
  hmac_md5 =
      λ key message. 1 ∷ 2 ∷ 3 ∷ 4 ∷ 5 ∷ 6 ∷ 7 ∷ 8 ∷ 9 ∷ 10 ∷ 11 ∷ 12 ∷ 13 ∷ 14 ∷ 15 ∷ 16 ∷ [];
}

values-append : (k : ℕ) (as' bs : List Avp) → values k (as' ++ bs) ≡ values k as' ++ values k bs
unfolding values
values-append k [] bs = refl
values-append k (a ∷ as') bs = ground (arith, values-append k as' bs)

values-without_self : (k : ℕ) (as' : List Avp) → values k (without k as') ≡ []
unfolding values without
values-without_self k [] = refl
values-without_self k (a ∷ as') = ground (arith, values-without_self k as')

values-without_ne : (k j : ℕ) (as' : List Avp) → j ≢ k → values k (without j as') ≡ values k as'
unfolding values without
values-without_ne k j [] h = refl
values-without_ne k j (a ∷ as') h = ground (arith, values-without_ne k j as' h)

values-apply_other :
    (k : ℕ) (c : Call) (as' : List Avp) → call_kind c ≢ k → values k (apply c as') ≡ values k as'
unfolding apply values
values-apply_other k (set j a) as' h = ground (
  arith,
  values-append k (without j as') (avp j a ∷ []),
  values-without_ne k j as' h,
  append-nil (values k as'),
)
values-apply_other k (framed_mtu_set v) as' h = ground (
  arith,
  values-append k (without 12 as') (avp 12 (put_uint32 v) ∷ []),
  values-without_ne k 12 as' h,
  append-nil (values k as'),
)
values-apply_other k (framed_pool_set_string s) as' h = ground (
  arith,
  values-append k (without 88 as') (avp 88 s ∷ []),
  values-without_ne k 88 as' h,
  append-nil (values k as'),
)
values-apply_other k c as' h =
    ground (
      arith,
      values-append k as' (avp (call_kind c) (call_value c) ∷ []),
      append-nil (values k as'),
    )

values-apply_set : (k : ℕ) (a : Str) (as' : List Avp) → values k (apply (set k a) as') ≡ a ∷ []
unfolding apply values
values-apply_set k a as' =
    ground (arith, values-append k (without k as') (avp k a ∷ []), values-without_self k as')

values-apply_add :
    (k : ℕ) (a : Str) (as' : List Avp) → values k (apply (add k a) as') ≡ values k as' ++ (a ∷ [])
unfolding apply values
values-apply_add k a as' = ground (arith, values-append k as' (avp k a ∷ []))

values-apply_session_timeout_add :
    (v : ℕ) (as' : List Avp)
    → values 27 (apply (session_timeout_add v) as') ≡ values 27 as' ++ (put_uint32 v ∷ [])
unfolding apply values
values-apply_session_timeout_add v as' =
    ground (arith, values-append 27 as' (avp 27 (put_uint32 v) ∷ []))

vendor_specific-new_reference :
    (id : ℕ) (v a : Str)
    → id < 2 ^ 32
    → new_vendor_specific id v ≡ some a
    → vendor_specific a ≡ some (id, v)
unfolding new_vendor_specific vendor_specific put_uint32
vendor_specific-new_reference id v a h e = ground (arith, uint32-put_uint32 id h)

new_vendor_specific_fits_reference :
    (id : ℕ) (v : Str)
    → 0 < length v
    → length v ≤ 249
    → (a : Str) × (new_vendor_specific id v ≡ some a)
unfolding new_vendor_specific
new_vendor_specific_fits_reference id v h h' = (put_uint32 id ++ v, ground arith)

pub reference_laws : AttributeLaws reference
unfolding reference
reference_laws = record {
  new_packet_lem = λ c secret. refl;
  values-add = values-apply_add;
  values-session_timeout_add = values-apply_session_timeout_add;
  values-set = values-apply_set;
  values_other = values-apply_other;
  vendor_specific-new = vendor_specific-new_reference;
  new_vendor_specific_fits = new_vendor_specific_fits_reference;
}
