-- ===== src/Block/Script/Runs.antt =====
-- outAddress on concrete scripts.
use bitcoin_analysis.Common.{ℕ, ◌≡◌, refl, List, [], ◌∷◌, true, false, length, replicate}
use bitcoin_analysis.Hash.Ripemd160.{compute_ripemd160}
use bitcoin_analysis.Block.Script.{scan_loop, out_address}
use bitcoin_analysis.Block.Script.Templates.{
  pay_to_key, pay_to_bare_key, pay_to_key_hash, hash160, out_address-hash160,
}
use bitcoin_analysis.Block.Script.Scan.{
  First, scan_loop-First, length-out_address, out_address-last_window,
}

abbrev garbage : List ℕ
garbage = replicate 64 7

abbrev key : List ℕ
key = 4 ∷ replicate 64 9

abbrev hash : List ℕ
hash = replicate 20 8

-- A script shorter than a hash gives the twenty digits 1.
short_script : out_address garbage (0x51 ∷ []) 1 ≡ (true, replicate 20 49)
unfolding out_address
short_script = refl

out_address-hash160_example :
    (out_address garbage (pay_to_key key) 67 ≡ (true, hash160 garbage key))
    × (out_address garbage (pay_to_bare_key key) 66 ≡ (true, hash160 garbage key))
    × (out_address garbage (pay_to_key_hash (hash160 garbage key)) 25 ≡ (true, hash160 garbage key))
out_address-hash160_example = out_address-hash160 garbage key refl refl

scan_loop-First_example :
    First 3 (1 ∷ 2 ∷ pay_to_key_hash hash) (scan_loop 3 (1 ∷ 2 ∷ pay_to_key_hash hash))
scan_loop-First_example = scan_loop-First 3 (1 ∷ 2 ∷ pay_to_key_hash hash)

length-out_address_example : length (out_address garbage (replicate 30 1) 30).1 ≡ 20
length-out_address_example = length-out_address garbage (replicate 30 1) 30 refl

out_address-last_window_example :
    out_address garbage (0x61 ∷ pay_to_key_hash hash) 26
    ≡ (false, compute_ripemd160 (0x61 ∷ pay_to_key_hash hash))
out_address-last_window_example = out_address-last_window garbage 0x61 hash refl
