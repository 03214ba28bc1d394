-- ===== src/Auth/Reply/Vendor.antt =====
-- Which Mikrotik attributes an Access-Accept carries. The Mikrotik setters go through `Set`, which
-- removes every vendor-specific attribute that was written before.
use radius_go.Base.{
  ℕ, ◌^◌, ◌<◌, ◌≤◌, ◌≡◌, ◌≢◌, ◌∙◌, ap, [], ◌==◌, length, if◌then◌else◌, arith, inl, inr,
}
use radius_go.Base.Int.{ℤ}
use radius_go.Base.Text.{Str, is_empty, is_empty-false}
use radius_go.Domain.User.{RadiusUser}
use radius_go.Packet.{Packet, AttributeLaws, Call, call_kind, write}
use radius_go.Packet.Code
use radius_go.Packet.Vsa.{
  vendor_specific_type, mikrotik_vendor_id, mikrotik_rate_limit_type, mikrotik_group_type,
  mikrotik_total_limit_type, vsa_set_uint32, mikrotik_vsa_get_string,
}
use radius_go.Packet.Vsa.RoundTrip.{
  mikrotik_get-set, mikrotik_get-vsa_set_uint32, mikrotik_get_of_values,
}
use radius_go.Auth.Effective.{effective_rate_limit}
use radius_go.Auth.Reply.{
  Env, add_service_type, add_ppp, add_hotspot, add_timeouts, add_mikrotik, add_pf_sense,
  add_usage_timeout, add_calendar_timeout, accept_packet,
}

module _ (env : Env) (laws : AttributeLaws env.lib) (user : RadiusUser) where
  -- A call that writes another kind of attribute.
  get-write_other :
      (p : Packet) (c : Call) (k : ℕ)
      → call_kind c ≢ vendor_specific_type
      → mikrotik_vsa_get_string env.lib (write env.lib c p) k ≡ mikrotik_vsa_get_string env.lib p k
  get-write_other p c k h =
      mikrotik_get_of_values env.lib k (write env.lib c p) p
        (laws.values_other vendor_specific_type c p.attributes h)

  get-add_usage_timeout :
      (p : Packet) (k : ℕ)
      → mikrotik_vsa_get_string env.lib (add_usage_timeout env user p) k
        ≡ mikrotik_vsa_get_string env.lib p k
  unfolding add_usage_timeout
  get-add_usage_timeout p k = grind (arith, get-write_other)

  get-add_calendar_timeout :
      (now : ℤ) (p : Packet) (k : ℕ)
      → mikrotik_vsa_get_string env.lib (add_calendar_timeout env user now p) k
        ≡ mikrotik_vsa_get_string env.lib p k
  unfolding add_calendar_timeout
  get-add_calendar_timeout now p k = grind (arith, get-write_other)

  get-vsa_set_uint32 :
      (p : Packet) (id t v k : ℕ)
      → id < 2 ^ 32
      → t ≢ k
      → mikrotik_vsa_get_string env.lib (vsa_set_uint32 env.lib p id t v).0 k
        ≡ mikrotik_vsa_get_string env.lib p k
  get-vsa_set_uint32 p id t v k b h = mikrotik_get-vsa_set_uint32 env.lib laws p id t v k b (inr h)

  get-vsa_set_uint32_vendor :
      (p : Packet) (id t v k : ℕ)
      → id < 2 ^ 32
      → id ≢ mikrotik_vendor_id
      → mikrotik_vsa_get_string env.lib (vsa_set_uint32 env.lib p id t v).0 k
        ≡ mikrotik_vsa_get_string env.lib p k
  get-vsa_set_uint32_vendor p id t v k b h =
      mikrotik_get-vsa_set_uint32 env.lib laws p id t v k b (inl h)

  get-add_pf_sense :
      (p : Packet) (k : ℕ)
      → mikrotik_total_limit_type ≢ k
      → mikrotik_vsa_get_string env.lib (add_pf_sense env user p) k
        ≡ mikrotik_vsa_get_string env.lib p k
  unfolding add_pf_sense
  get-add_pf_sense p k h = grind (arith, get-vsa_set_uint32, get-vsa_set_uint32_vendor)

  get-add_mikrotik :
      (p : Packet) (k : ℕ)
      → 0 < length user.mikrotik_group
      → length user.mikrotik_group ≤ 247
      → mikrotik_vsa_get_string env.lib (add_mikrotik env user p) k
        ≡ (if mikrotik_group_type == k then user.mikrotik_group else [])
  unfolding add_mikrotik
  get-add_mikrotik p k h h' =
      rw (is_empty-false user.mikrotik_group h, add_mikrotik)
        (mikrotik_get-set env.lib laws _ mikrotik_group_type k user.mikrotik_group h h')

  get-add_mikrotik_rate :
      (p : Packet) (k : ℕ)
      → user.mikrotik_group ≡ []
      → 0 < length (effective_rate_limit user)
      → length (effective_rate_limit user) ≤ 247
      → mikrotik_vsa_get_string env.lib (add_mikrotik env user p) k
        ≡ (if mikrotik_rate_limit_type == k then effective_rate_limit user else [])
  unfolding add_mikrotik
  get-add_mikrotik_rate p k e h h' =
      rw (ap is_empty e, is_empty-false (effective_rate_limit user) h, add_mikrotik)
        (mikrotik_get-set env.lib laws p mikrotik_rate_limit_type k (effective_rate_limit user) h
          h')

  -- The steps behind the Mikrotik attributes do not touch them, Mikrotik-Total-Limit apart.
  get-accept_packet :
      (secret : Str) (now : ℤ) (k : ℕ)
      → mikrotik_total_limit_type ≢ k
      → (p : Packet) × (mikrotik_vsa_get_string env.lib (accept_packet env secret user now) k
          ≡ mikrotik_vsa_get_string env.lib (add_mikrotik env user p) k)
  unfolding accept_packet
  get-accept_packet secret now k h =
      let p = add_timeouts env user (
        add_hotspot env user (
          add_ppp env user
            (add_service_type env user (env.lib.new_packet Code.access_accept secret)))) in
      (
        p,
        get-add_calendar_timeout now _ k
            ∙ get-add_usage_timeout _ k
            ∙ get-add_pf_sense (add_mikrotik env user p) k h,
      )

  -- An accepted user with a Mikrotik group gets that group and no other Mikrotik text: whatever
  -- rate limit and address pool the reply was given before are gone from it. The group has 1 to 247
  -- bytes, and the number of the total limit, which is written after it, is not asked for.
  pub mikrotik_group_erases :
      (secret : Str) (now : ℤ) (k : ℕ)
      → 0 < length user.mikrotik_group
      → length user.mikrotik_group ≤ 247
      → mikrotik_total_limit_type ≢ k
      → mikrotik_vsa_get_string env.lib (accept_packet env secret user now) k
        ≡ (if mikrotik_group_type == k then user.mikrotik_group else [])
  mikrotik_group_erases secret now k h h' n =
      let (p, e) = get-accept_packet secret now k n in e ∙ get-add_mikrotik p k h h'

  -- An accepted user without a group gets the effective rate limit, of 1 to 247 bytes, and no other
  -- Mikrotik text: the address pool is gone. The total limit is not asked for.
  pub mikrotik_rate_limit_delivered :
      (secret : Str) (now : ℤ) (k : ℕ)
      → user.mikrotik_group ≡ []
      → 0 < length (effective_rate_limit user)
      → length (effective_rate_limit user) ≤ 247
      → mikrotik_total_limit_type ≢ k
      → mikrotik_vsa_get_string env.lib (accept_packet env secret user now) k
        ≡ (if mikrotik_rate_limit_type == k then effective_rate_limit user else [])
  mikrotik_rate_limit_delivered secret now k g h h' n =
      let (p, e) = get-accept_packet secret now k n in e ∙ get-add_mikrotik_rate p k g h h'
