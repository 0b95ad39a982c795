-- ===== src/Block/Script/Templates.antt =====
-- The address that BitcoinAnalysis/block.h finds in the scripts of the protocol's templates.
use bitcoin_analysis.Common.{
  ℕ, ◌≡◌, sym, ap, List, [], ◌∷◌, ◌++◌, true, get_or, length, arith, take-append_eq,
  get_or-append_end, take_all,
}
use bitcoin_analysis.Hash.Sha256.{compute_sha256}
use bitcoin_analysis.Hash.Ripemd160.{compute_ripemd160}
use bitcoin_analysis.Hash.Ripemd160.Digest.{length-compute_ripemd160}
use bitcoin_analysis.Block.Script.{
  bitcoin_public_key_to_address, key_address, out_address, op_dup, op_hash160, op_equalverify,
  op_checksig,
}

-- The scripts that pay to a key, with and without its length in front, and to a key's hash.
pub pay_to_key : List ℕ → List ℕ
pay_to_key key = 65 ∷ key ++ op_checksig ∷ []

pub pay_to_bare_key : List ℕ → List ℕ
pay_to_bare_key key = key ++ op_checksig ∷ []

unfoldable pub pay_to_key_hash : List ℕ → List ℕ
pay_to_key_hash hash = op_dup ∷ op_hash160 ∷ 20 ∷ hash ++ op_equalverify ∷ op_checksig ∷ []

unfoldable pub hash160 : List ℕ → List ℕ → List ℕ
hash160 garbage key = compute_ripemd160 (compute_sha256 garbage key)

module _ (garbage : List ℕ) where
  key_address-hash160 :
      (key : List ℕ)
      → length key ≡ 65
      → get_or key 0 0 ≡ 4
      → key_address garbage key ≡ hash160 garbage key
  unfolding key_address bitcoin_public_key_to_address hash160
  key_address-hash160 key h k =
      rw (k, take_all 65 key (omega arith))
        (take-append_eq (compute_ripemd160 (compute_sha256 garbage key)) _ 20
          (length-compute_ripemd160 (compute_sha256 garbage key)))

  -- A script that pays to an uncompressed public key gives the key's hash as its address, with
  -- and without the key's length in front, and this is the address that the script which pays to
  -- that hash gives.
  pub out_address-hash160 :
      (key : List ℕ)
      → length key ≡ 65
      → get_or key 0 0 ≡ 4
      → (out_address garbage (pay_to_key key) 67 ≡ (true, hash160 garbage key))
        × (out_address garbage (pay_to_bare_key key) 66 ≡ (true, hash160 garbage key))
        × (out_address garbage (pay_to_key_hash (hash160 garbage key)) 25
            ≡ (true, hash160 garbage key))
  unfolding out_address pay_to_key pay_to_bare_key pay_to_key_hash hash160
  out_address-hash160 key h k = (
    rw
        (
          get_or-append_end key [] op_checksig 65 0 (sym h),
          take-append_eq key (op_checksig ∷ []) 65 h,
        )
        (ap (λ t. (true, t)) (key_address-hash160 key h k)),
    rw
        (
          get_or-append_end key [] op_checksig 65 0 (sym h),
          take-append_eq key (op_checksig ∷ []) 65 h,
        )
        (ap (λ t. (true, t)) (key_address-hash160 key h k)),
    ap (λ t. (true, t))
        (take-append_eq (compute_ripemd160 (compute_sha256 garbage key)) _ 20
          (length-compute_ripemd160 (compute_sha256 garbage key))),
  )
