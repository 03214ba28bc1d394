-- ===== src/Packet/Authenticator.antt =====
-- addMessageAuthenticator of internal/radius/auth.go.
use radius_go.Base.{
  ℕ, ◌≡◌, ◌≢◌, refl, ap, ◌∙◌, Bool, true, false, Option, none, some, List, [], ◌∷◌, ◌++◌, ◌==◌,
  if◌then◌else◌, take, take_all, length, arith,
}
use radius_go.Base.Text.{Str}
use radius_go.Packet.{Avp, Packet, RadiusLibrary, AttributeLaws, values, add, write}

abbrev pub attr_message_authenticator : ℕ
attr_message_authenticator = 80

abbrev pub zero16 : Str
zero16 = 0 ∷ 0 ∷ 0 ∷ 0 ∷ 0 ∷ 0 ∷ 0 ∷ 0 ∷ 0 ∷ 0 ∷ 0 ∷ 0 ∷ 0 ∷ 0 ∷ 0 ∷ 0 ∷ []

-- `copy(dst, src)`: as many bytes as the shorter has.
unfoldable pub copy : Str → Str → Str
copy [] src = []
copy (d ∷ dst) [] = d ∷ dst
copy (d ∷ dst) (s ∷ src) = s ∷ copy dst src

-- The loop over the attributes stops at the first Message-Authenticator.
unfoldable pub overwrite_first : Str → List Avp → List Avp
unfolding copy
overwrite_first hash [] = []
overwrite_first hash (a ∷ as') =
    if a.kind == attr_message_authenticator
    then record a { attribute = copy a.attribute hash } ∷ as'
    else a ∷ overwrite_first hash as'

module _ (lib : RadiusLibrary) where
  -- `p'` is the packet with the zeroed attribute, `none` an error of `MarshalBinary`.
  sealed : Packet → Option Str → Packet × Bool
  sealed p' none = (p', false)
  sealed p' (some encoded) = (
    record p' {
      attributes = overwrite_first (take 16 (lib.hmac_md5 p'.secret encoded)) p'.attributes;
    },
    true,
  )

  -- With `false` for an error.
  unfoldable pub add_message_authenticator : Packet → Packet × Bool
  unfolding sealed
  add_message_authenticator p =
      let p' = write lib (add attr_message_authenticator zero16) p in
      sealed p' (lib.marshal_binary p')

copy_all : (d s : Str) → length d ≡ length s → copy d s ≡ s
unfolding copy
copy_all [] [] h = refl
copy_all [] (x ∷ s) h = absurd (omega arith)
copy_all (d ∷ ds) [] h = absurd (omega arith)
copy_all (d ∷ ds) (x ∷ s) h = ap (◌∷◌ x) (copy_all ds s (omega arith))

values-overwrite_first :
    (hash a : Str) (rest : List Str) (as' : List Avp)
    → values attr_message_authenticator as' ≡ a ∷ rest
    → values attr_message_authenticator (overwrite_first hash as') ≡ copy a hash ∷ rest
unfolding values overwrite_first
values-overwrite_first hash a rest [] h = cc
values-overwrite_first hash a rest (b ∷ as') h =
    ground (arith, values-overwrite_first hash a rest as')

values-overwrite_first_ne :
    (k : ℕ) (hash : Str) (as' : List Avp)
    → attr_message_authenticator ≢ k
    → values k (overwrite_first hash as') ≡ values k as'
unfolding values overwrite_first
values-overwrite_first_ne k hash [] h = refl
values-overwrite_first_ne k hash (b ∷ as') h =
    ground (arith, values-overwrite_first_ne k hash as' h)

module _ (lib : RadiusLibrary) (laws : AttributeLaws lib) (p : Packet) where
  abbrev zeroed : Packet
  zeroed = write lib (add attr_message_authenticator zero16) p

  -- A packet without a Message-Authenticator gets exactly one: the HMAC of the packet that carries
  -- sixteen zero bytes in its place, where that packet can be encoded and the HMAC has sixteen bytes.
  pub add_message_authenticator_lem :
      (encoded : Str)
      → values attr_message_authenticator p.attributes ≡ []
      → lib.marshal_binary zeroed ≡ some encoded
      → length (lib.hmac_md5 p.secret encoded) ≡ 16
      → values attr_message_authenticator (add_message_authenticator lib p).0.attributes
        ≡ lib.hmac_md5 p.secret encoded ∷ []
  unfolding add_message_authenticator
  add_message_authenticator_lem encoded none_yet e n =
      let hash = lib.hmac_md5 p.secret encoded in
      rw (e, add_message_authenticator)
        (values-overwrite_first (take 16 hash) zero16 [] zeroed.attributes (
            laws.values-add attr_message_authenticator zero16 p.attributes
            ∙ ap (λ (l : List Str). l ++ (zero16 ∷ [])) none_yet)
          ∙ ap (λ (h : Str). copy zero16 h ∷ []) (take_all 16 hash (omega arith))
          ∙ ap (λ (h : Str). h ∷ []) (copy_all zero16 hash (omega arith)))

  values-sealed_ne :
      (k : ℕ) (p' : Packet) (o : Option Str)
      → attr_message_authenticator ≢ k
      → values k (sealed lib p' o).0.attributes ≡ values k p'.attributes
  unfolding sealed
  values-sealed_ne k p' none h = refl
  values-sealed_ne k p' (some encoded) h =
      values-overwrite_first_ne k (take 16 (lib.hmac_md5 p'.secret encoded)) p'.attributes h

  -- Every attribute of another kind is left as it is, whether or not the packet can be encoded.
  pub values-add_message_authenticator :
      (k : ℕ)
      → attr_message_authenticator ≢ k
      → values k (add_message_authenticator lib p).0.attributes ≡ values k p.attributes
  unfolding add_message_authenticator
  values-add_message_authenticator k h =
      values-sealed_ne k zeroed (lib.marshal_binary zeroed) h
      ∙ laws.values_other k (add attr_message_authenticator zero16) p.attributes h
