-- ===== src/Packet/Vsa/RoundTrip.antt =====
-- What the getters of mikrotik_vsa.go and pfsense_vsa.go read back from what the setters wrote.
use radius_go.Base.{
  ℕ, zero, suc, ◌+◌, ◌%◌, ◌^◌, ◌≤◌, ◌<◌, ◌≡◌, ◌≢◌, refl, ap, sym, or_else, ◌∙◌, true, Option, none,
  some, List, [], ◌∷◌, ◌++◌, length, take, drop, take_all, if◌then◌else◌, arith, ◌⊎◌, ◌==◌,
}
use mathlib.Core.List.{append-nil}
use radius_go.Base.Text.{Str}
use radius_go.Packet.{Avp, Packet, RadiusLibrary, AttributeLaws, values}
use radius_go.Packet.Vsa.{
  vendor_specific_type, mikrotik_vendor_id, pf_sense_vendor_id, put_uint32, uint32, scan, scan_loop,
  vsa_set_uint32, make_mikrotik_vsa, mikrotik_vsa_set_string, scan_vendor, first_found,
  mikrotik_found, mikrotik_vsa_get_string, pf_sense_found, pf_sense_vsa_get_uint32,
}
use radius_go.Packet.Vsa.Scan.{or_next, sub, scan-encode_subs}

pub uint32-put_uint32 : (v : ℕ) → v < 2 ^ 32 → uint32 (put_uint32 v) ≡ v
unfolding uint32 put_uint32
uint32-put_uint32 v h = omega arith

-- The value bytes of a sub-attribute that stands alone.
take_value : (t : ℕ) (v : Str) → drop 2 (take (2 + length v) (sub t v [])) ≡ v
take_value t v =
    let e : 2 + length v ≡ suc (suc (length v)) = omega arith in
    rw (e, append-nil v) (take_all (length v) v (omega arith))

scan-mikrotik_found :
    (k t : ℕ) (v : Str)
    → 0 < length v
    → 2 + length v < 256
    → scan (mikrotik_found k) (sub t v []) ≡ (if t == k then some v else none)
scan-mikrotik_found k t v h h' =
    scan-encode_subs (mikrotik_found k) ((t, v) ∷ []) ((h, h'), tt) ∙ ground (arith, take_value t v)

scan-pf_sense_found :
    (k t v : ℕ)
    → v < 2 ^ 32
    → scan (pf_sense_found k) (t ∷ 6 ∷ put_uint32 v) ≡ (if t == k then some v else none)
unfolding put_uint32 scan scan_loop
scan-pf_sense_found k t v h = ground (arith, uint32-put_uint32 v h)

module _ (lib : RadiusLibrary) {A : Type 0} (vendor_id : ℕ) (found : ℕ → ℕ → Str → Option A) where
  -- The first hit among attribute values.
  abbrev first_in : List Str → Option A
  first_in [] = none
  first_in (a ∷ as') = or_next (scan_vendor lib vendor_id found a) (first_in as')

  first_in-append : (xs ys : List Str) → first_in (xs ++ ys) ≡ or_next (first_in xs) (first_in ys)
  first_in-append [] ys = refl
  first_in-append (x ∷ xs) ys = ground (arith, first_in-append xs ys)

  first_found-values :
      (as' : List Avp)
      → first_found lib vendor_id found as' ≡ first_in (values vendor_specific_type as')
  unfolding first_found values
  first_found-values [] = refl
  first_found-values (a ∷ as') = ground (arith, first_found-values as')

-- What the Mikrotik getter reads depends on the vendor-specific attributes only.
pub mikrotik_get_of_values :
    (lib : RadiusLibrary) (k : ℕ) (p q : Packet)
    → values vendor_specific_type p.attributes ≡ values vendor_specific_type q.attributes
    → mikrotik_vsa_get_string lib p k ≡ mikrotik_vsa_get_string lib q k
unfolding mikrotik_vsa_get_string
mikrotik_get_of_values lib k p q h =
    let hits : List Str → Option Str = first_in lib mikrotik_vendor_id (mikrotik_found k) in
    ap (λ (o : Option Str). or_else o [])
      (first_found-values lib mikrotik_vendor_id (mikrotik_found k) p.attributes
        ∙ ap hits h
        ∙ sym (first_found-values lib mikrotik_vendor_id (mikrotik_found k) q.attributes))

-- The bytes of a sub-attribute that stands alone, as the setter writes them.
sub-nil : (t : ℕ) (v : Str) → sub t v [] ≡ t ∷ (2 + length v) % 256 ∷ v
sub-nil t v = rw (append-nil v)

module _ (lib : RadiusLibrary) (laws : AttributeLaws lib) where
  scan_vendor-new :
      {A : Type 0} (id other : ℕ) (found : ℕ → ℕ → Str → Option A) (v a : Str)
      → id < 2 ^ 32
      → lib.new_vendor_specific id v ≡ some a
      → scan_vendor lib other found a ≡ (if id == other then scan found v else none)
  scan_vendor-new id other found v a b e = rw (laws.vendor_specific-new id v a b e, scan_vendor)

  -- A Mikrotik setter leaves one vendor-specific attribute: its own.
  values-mikrotik_set :
      (p : Packet) (t : ℕ) (v a : Str)
      → 0 < length v
      → make_mikrotik_vsa lib t v ≡ some a
      → values vendor_specific_type (mikrotik_vsa_set_string lib p t v true).0.attributes ≡ a ∷ []
  unfolding mikrotik_vsa_set_string
  values-mikrotik_set p t [] a h e = absurd (omega arith)
  values-mikrotik_set p t (b ∷ v) a h e = rw e (laws.values-set vendor_specific_type a p.attributes)

  -- The scan of an attribute that `make_mikrotik_vsa` built.
  scan_vendor-make :
      (t k : ℕ) (v a : Str)
      → 0 < length v
      → 2 + length v < 256
      → make_mikrotik_vsa lib t v ≡ some a
      → scan_vendor lib mikrotik_vendor_id (mikrotik_found k) a ≡ (if t == k then some v else none)
  unfolding make_mikrotik_vsa
  scan_vendor-make t k v a h h' e =
      scan_vendor-new mikrotik_vendor_id mikrotik_vendor_id (mikrotik_found k) _ a (omega arith) e
      ∙ ap (scan (mikrotik_found k)) (sym (sub-nil t v))
      ∙ scan-mikrotik_found k t v h h'

  -- What the Mikrotik getter reads after a setter, of that type and of every other, for values of 1
  -- to 247 bytes and a library that behaves as documented.
  pub mikrotik_get-set :
      (p : Packet) (t k : ℕ) (v : Str)
      → 0 < length v
      → length v ≤ 247
      → mikrotik_vsa_get_string lib (mikrotik_vsa_set_string lib p t v true).0 k
        ≡ (if t == k then v else [])
  unfolding mikrotik_vsa_get_string make_mikrotik_vsa
  mikrotik_get-set p t k v h h' =
      let (a, e) =
        laws.new_vendor_specific_fits mikrotik_vendor_id (t ∷ (2 + length v) % 256 ∷ v)
          (omega arith) (omega arith) in
      let hits : List Str → Option Str = first_in lib mikrotik_vendor_id (mikrotik_found k) in
      let found_eq =
        first_found-values lib mikrotik_vendor_id (mikrotik_found k)
          (mikrotik_vsa_set_string lib p t v true).0.attributes
        ∙ ap hits (values-mikrotik_set p t v a h e) in
      ap (λ (o : Option Str). or_else o [])
        (found_eq
          ∙ ap (λ (o : Option Str). or_next o none) (scan_vendor-make t k v a h (omega arith) e))
      ∙ ground arith

  values-vsa_set_uint32 :
      (p : Packet) (id t v : ℕ) (a : Str)
      → 0 < v
      → lib.new_vendor_specific id (t ∷ 6 ∷ put_uint32 v) ≡ some a
      → values vendor_specific_type (vsa_set_uint32 lib p id t v).0.attributes
        ≡ values vendor_specific_type p.attributes ++ (a ∷ [])
  unfolding vsa_set_uint32
  values-vsa_set_uint32 p id t zero a h e = absurd (omega arith)
  values-vsa_set_uint32 p id t (suc v) a h e =
      ground (arith, e, laws.values-add vendor_specific_type a p.attributes)

  -- A search after `vsa_set_uint32`: an earlier hit, and else what the new attribute holds.
  first_found-vsa_set_uint32 :
      {A : Type 0} (other : ℕ) (found : ℕ → ℕ → Str → Option A) (p : Packet) (id t v : ℕ)
      → id < 2 ^ 32
      → 0 < v
      → first_found lib other found (vsa_set_uint32 lib p id t v).0.attributes
        ≡ or_next
            (first_found lib other found p.attributes)
            (if id == other then scan found (t ∷ 6 ∷ put_uint32 v) else none)
  unfolding put_uint32
  first_found-vsa_set_uint32 {A} other found p id t v b h =
      let (a, e) =
        laws.new_vendor_specific_fits id (t ∷ 6 ∷ put_uint32 v) (omega arith) (omega arith) in
      let hits : List Str → Option A = first_in lib other found in
      first_found-values lib other found (vsa_set_uint32 lib p id t v).0.attributes
      ∙ ap hits (values-vsa_set_uint32 p id t v a h e)
      ∙ first_in-append lib other found (values vendor_specific_type p.attributes) (a ∷ [])
      ∙ ground (
        arith,
        first_found-values lib other found p.attributes,
        scan_vendor-new id other found (t ∷ 6 ∷ put_uint32 v) a b e,
      )

  -- What the pfSense getter reads after a setter of a positive 32-bit value: the first value that
  -- was written stays. The library behaves as documented.
  pub pf_sense_get-set :
      (p : Packet) (t k v : ℕ)
      → 0 < v
      → v < 2 ^ 32
      → pf_sense_vsa_get_uint32 lib (vsa_set_uint32 lib p pf_sense_vendor_id t v).0 k
        ≡ or_next (pf_sense_vsa_get_uint32 lib p k) (if t == k then some v else none)
  unfolding pf_sense_vsa_get_uint32
  pf_sense_get-set p t k v h h' =
      first_found-vsa_set_uint32 pf_sense_vendor_id (pf_sense_found k) p pf_sense_vendor_id t v
        (omega arith) h
      ∙ ap (or_next (first_found lib pf_sense_vendor_id (pf_sense_found k) p.attributes))
          (scan-pf_sense_found k t v h')

  scan_numbers :
      (k t v : ℕ)
      → scan (mikrotik_found k) (t ∷ 6 ∷ put_uint32 v)
        ≡ (if t == k then some (put_uint32 v) else none)
  unfolding put_uint32
  scan_numbers k t v = scan-mikrotik_found k t (put_uint32 v) (omega arith) (omega arith)

  -- A number written for another vendor, or under another type, does not change what the Mikrotik
  -- getter reads.
  pub mikrotik_get-vsa_set_uint32 :
      (p : Packet) (id t v k : ℕ)
      → id < 2 ^ 32
      → (id ≢ mikrotik_vendor_id) ⊎ (t ≢ k)
      → mikrotik_vsa_get_string lib (vsa_set_uint32 lib p id t v).0 k
        ≡ mikrotik_vsa_get_string lib p k
  unfolding mikrotik_vsa_get_string vsa_set_uint32
  mikrotik_get-vsa_set_uint32 p id t zero k b h = refl
  mikrotik_get-vsa_set_uint32 p id t (suc v) k b h =
      let same : first_found lib mikrotik_vendor_id (mikrotik_found k)
            (vsa_set_uint32 lib p id t (suc v)).0.attributes
          ≡ first_found lib mikrotik_vendor_id (mikrotik_found k) p.attributes =
        first_found-vsa_set_uint32 mikrotik_vendor_id (mikrotik_found k) p id t (suc v) b
          (omega arith)
        ∙ ground (arith, scan_numbers k t (suc v)) in
      ap (λ (o : Option Str). or_else o []) same
