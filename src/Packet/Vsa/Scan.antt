-- ===== src/Packet/Vsa/Scan.antt =====
-- The getters' loop over the sub-attributes of one vendor-specific value: its fuel, and
-- what it does on a row of encoded sub-attributes.
use radius_go.Base.{
  ℕ, zero, suc, ◌+◌, ◌%◌, ◌≤◌, ◌<◌, ◌≡◌, refl, ap, ◌∙◌, Option, none, some, List, [], ◌∷◌, ◌++◌,
  length, drop, All, length-append, drop-append_left, arith,
}
use radius_go.Base.Text.{Str}
use radius_go.Packet.Vsa.{scan_loop, scan}

-- A sub-attribute on the wire, before the rest of the bytes.
abbrev pub sub : ℕ → Str → Str → Str
sub t v rest = t ∷ (2 + length v) % 256 ∷ (v ++ rest)

-- A row of sub-attributes on the wire.
abbrev pub encode_subs : List (ℕ × Str) → Str
encode_subs [] = []
encode_subs ((t, v) ∷ subs) = sub t v (encode_subs subs)

-- Values that the length byte can hold: it counts two bytes of its own.
abbrev pub AreSubs : List (ℕ × Str) → Type 0
AreSubs = All (λ s. (0 < length s.1) × (2 + length s.1 < 256))

abbrev pub or_next {ℓ} : {A : Type ℓ} → Option A → Option A → Option A
or_next (some a) o = some a
or_next none o = o

module _ {A : Type 0} (found : ℕ → ℕ → Str → Option A) where
  round :
      (f vt vlen b : ℕ) (rest : Str)
      → 3 ≤ vlen
      → vlen ≤ 3 + length rest
      → scan_loop found (suc f) (vt ∷ vlen ∷ b ∷ rest)
        ≡ or_next
            (found vt vlen (vt ∷ vlen ∷ b ∷ rest))
            (scan_loop found f (drop vlen (vt ∷ vlen ∷ b ∷ rest)))
  unfolding scan_loop
  round f vt vlen b rest h k = ground arith

  pub scan_loop-sub :
      (f t : ℕ) (v rest : Str)
      → 0 < length v
      → 2 + length v < 256
      → scan_loop found (suc f) (sub t v rest)
        ≡ or_next (found t (2 + length v) (sub t v rest)) (scan_loop found f rest)
  scan_loop-sub f t [] rest h k = absurd (omega arith)
  scan_loop-sub f t (b ∷ v) rest h k =
      let e : (2 + suc (length v)) % 256 ≡ suc (suc (suc (length v))) = omega arith in
      let e' : 2 + suc (length v) ≡ suc (suc (suc (length v))) = omega arith in
      rw (e, e')
        (round f t (suc (suc (suc (length v)))) b (v ++ rest) (omega arith)
            (omega (arith, length-append v rest))
          ∙ ap
              (λ (s : Str).
                or_next
                  (found t (suc (suc (suc (length v))))
                    (t ∷ suc (suc (suc (length v))) ∷ b ∷ (v ++ rest)))
                  (scan_loop found f s))
              (drop-append_left v rest))

  -- What the loop should find: the first sub-attribute that `found` accepts.
  abbrev pub first_sub : List (ℕ × Str) → Option A
  first_sub [] = none
  first_sub ((t, v) ∷ subs) =
      or_next (found t (2 + length v) (sub t v (encode_subs subs))) (first_sub subs)

  scan_loop-encode :
      (f : ℕ) (subs : List (ℕ × Str))
      → AreSubs subs
      → length (encode_subs subs) ≤ f
      → scan_loop found f (encode_subs subs) ≡ first_sub subs
  unfolding scan_loop
  scan_loop-encode zero [] h k = refl
  scan_loop-encode (suc f) [] h k = refl
  scan_loop-encode zero ((t, v) ∷ subs) h k = absurd (omega arith)
  scan_loop-encode (suc f) ((t, v) ∷ subs) h k =
      scan_loop-sub f t v (encode_subs subs) h.0.0 h.0.1
      ∙ ap (or_next (found t (2 + length v) (sub t v (encode_subs subs))))
          (scan_loop-encode f subs h.1 (omega (arith, length-append v (encode_subs subs))))

  -- On encoded sub-attributes, of 1 to 253 bytes each, the scan finds the first that is accepted.
  pub scan-encode_subs :
      (subs : List (ℕ × Str)) → AreSubs subs → scan found (encode_subs subs) ≡ first_sub subs
  unfolding scan
  scan-encode_subs subs h = scan_loop-encode (length (encode_subs subs)) subs h (omega arith)
