-- ===== src/Address/Checksum.antt =====
-- The checksum of an address in BitcoinAnalysis/hash.h: how it is made and how it is tested.
use bitcoin_analysis.Common.{
  ℕ, ◌≡◌, refl, sym, List, [], ◌∷◌, ◌++◌, true, get_or, length, take, arith, length-append,
  length-take, take_all, take-append_eq, get_or-append_end, ==-refl,
}
use bitcoin_analysis.Hash.Sha256.{compute_sha256}
use bitcoin_analysis.Hash.Sha256.Digest.{length-compute_sha256}
use bitcoin_analysis.Hash.Ripemd160.{compute_ripemd160}
use bitcoin_analysis.Hash.Ripemd160.Digest.{length-compute_ripemd160}
use bitcoin_analysis.Block.Script.{bitcoin_public_key_to_address}
use bitcoin_analysis.Block.Script.Templates.{hash160}
use bitcoin_analysis.Address.{checksum_of, is_accepted, bitcoin_ripemd160_to_address}

-- The first byte behind a front.
first_behind :
    (front cs : List ℕ) (i : ℕ)
    → length front ≡ i
    → length cs ≡ 32
    → get_or (front ++ take 4 cs) i 0 ≡ get_or cs 0 0
first_behind front [] i h k = absurd (omega arith)
first_behind front (c ∷ cs) i h k = get_or-append_end front (take 3 cs) c i 0 (sym h)

module _ (garbage : List ℕ) where
  -- Whatever three bytes end an address, it is accepted if the first byte of its checksum is
  -- right: 21 bytes, that byte, and any three others.
  pub is_accepted-first_byte :
      (payload : List ℕ) (b1 b2 b3 : ℕ)
      → length payload ≡ 21
      → is_accepted garbage (
          payload
          ++ get_or (compute_sha256 garbage (compute_sha256 garbage payload)) 0 0
            ∷ b1
            ∷ b2
            ∷ b3
            ∷ [])
        ≡ true
  unfolding is_accepted checksum_of
  is_accepted-first_byte payload b1 b2 b3 h =
      let c : ℕ = get_or (compute_sha256 garbage (compute_sha256 garbage payload)) 0 0 in
      rw
        (
          take-append_eq payload (c ∷ b1 ∷ b2 ∷ b3 ∷ []) 21 h,
          get_or-append_end payload (b1 ∷ b2 ∷ b3 ∷ []) c 21 0 (sym h),
          ==-refl c,
        )
        refl

  -- The address of a hash of 20 bytes has 25 bytes and is accepted, and for an uncompressed public
  -- key bitcoinPublicKeyToAddress writes the address of the key's hash.
  pub bitcoin_ripemd160_to_address-is_accepted :
      (hash key output : List ℕ)
      → length hash ≡ 20
      → length key ≡ 65
      → get_or key 0 0 ≡ 4
      → (length (bitcoin_ripemd160_to_address garbage hash) ≡ 25)
        × (is_accepted garbage (bitcoin_ripemd160_to_address garbage hash) ≡ true)
        × (bitcoin_public_key_to_address garbage key output
            ≡ (true, bitcoin_ripemd160_to_address garbage (hash160 garbage key)))
  unfolding bitcoin_ripemd160_to_address is_accepted checksum_of bitcoin_public_key_to_address
      hash160
  bitcoin_ripemd160_to_address-is_accepted hash key output h k l =
      let front : List ℕ = 0 ∷ take 20 hash in
      let size : length front ≡ 21 = omega (arith, length-take 20 hash) in
      let cs : List ℕ = compute_sha256 garbage (compute_sha256 garbage front) in
      let cs_size : length cs ≡ 32 = length-compute_sha256 garbage (compute_sha256 garbage front) in
      (
        omega (arith, length-append front (take 4 cs), length-take 4 cs, cs_size, size),
        rw
            (
              take-append_eq front (take 4 cs) 21 size,
              first_behind front cs 21 size cs_size,
              ==-refl (get_or cs 0 0),
            )
            refl,
        rw
            (
              l,
              take_all 65 key (omega arith),
              take_all 20 (compute_ripemd160 (compute_sha256 garbage key))
                  (omega (arith, length-compute_ripemd160 (compute_sha256 garbage key))),
            )
            refl,
      )
