-- ===== src/Hash/Sha256/Digest.antt =====
-- The one-shot `computeSHA256` against the standard's description: the message is padded to whole
-- blocks by a bit, zeros and its length in bits, and the blocks are compressed in order.
use bitcoin_analysis.Common.{
  ℕ, zero, suc, ◌+◌, ◌*◌, ◌/◌, ◌%◌, ◌^◌, ◌<◌, ◌≡◌, refl, sym, ap, ap₂, ◌∙◌, List, [], ◌∷◌, ◌++◌,
  append_assoc, arith, length, take, drop, replicate, bytes_be32, bytes_be64, bytes_le64,
  length-append, length-take, length-drop, length-replicate, drop-append_le, take-replicate,
  drop-drop,
}
use bitcoin_analysis.Hash.Blocks.{absorb, absorb-split, zeros, zeros-lt, zeros-mod}
use bitcoin_analysis.Hash.Sha256.{
  Words8, Ctx, sha256_guts, init_hash, sha256_init, sha256_update, bytes_to_pad, padding,
  byteswap64, store_hash, compute_sha256, sha256_finalize,
}
use bitcoin_analysis.Hash.Sha256.Swap.{bytes_le32-byteswap, bytes_le64-byteswap64}
use bitcoin_analysis.Hash.Sha256.View.{View, view, absorb_all, IsCtx, View_ext}
use bitcoin_analysis.Hash.Sha256.Stream.{view-sha256_update}

-- Absorbing in two parts is absorbing the whole.
pub absorb_all-append :
    (v : View) (xs ys : List ℕ) → absorb_all (absorb_all v xs) ys ≡ absorb_all v (xs ++ ys)
unfolding absorb_all
absorb_all-append v xs ys =
    let s : List ℕ = v.pending ++ xs in
    let m : ℕ = length s / 64 in
    let rest : List ℕ = drop (64 * m) s in
    let whole : v.pending ++ (xs ++ ys) ≡ s ++ ys = sym (append_assoc v.pending xs ys) in
    let n : ℕ = length (rest ++ ys) / 64 in
    let seam : drop (64 * m) (s ++ ys) ≡ rest ++ ys = drop-append_le (64 * m) s ys (omega arith) in
    let blocks : length (s ++ ys) / 64 ≡ m + n =
      omega (arith, length-append s ys, length-append rest ys, length-drop (64 * m) s) in
    rw (whole, blocks)
      (View_ext _ _ _ _ _ _ (omega (arith, length-append xs ys))
        (sym (absorb-split sha256_guts m n v.hash s ys (omega arith)))
        (ap (drop (64 * n)) (sym seam)
          ∙ drop-drop (64 * m) (64 * n) (s ++ ys)
          ∙ ap (λ (k : ℕ). drop k (s ++ ys)) {x = 64 * m + 64 * n} (omega arith)))

-- The padding of a message: a 1 bit, zeros, and the length in bits.
pub padded : List ℕ → List ℕ
padded message =
    message ++ (0x80 ∷ replicate (zeros (length message)) 0 ++ bytes_be64 (8 * length message))

pub digest : Words8 → List ℕ
digest w =
    bytes_be32 w.a
    ++ (bytes_be32 w.b
        ++ (bytes_be32 w.c
            ++ (bytes_be32 w.d
                ++ (bytes_be32 w.e ++ (bytes_be32 w.f ++ (bytes_be32 w.g ++ bytes_be32 w.h))))))

pub sha256_standard : List ℕ → List ℕ
sha256_standard message =
    let blocks : List ℕ = padded message in
    digest (absorb sha256_guts (length blocks / 64) init_hash blocks)

-- The padding fills whole blocks.
pub length-padded : (message : List ℕ) → length (padded message) % 64 ≡ 0
unfolding padded zeros
length-padded message = omega (
  arith,
  length-append message
      (0x80 ∷ replicate (zeros (length message)) 0 ++ bytes_be64 (8 * length message)),
  length-append (0x80 ∷ replicate (zeros (length message)) 0) (bytes_be64 (8 * length message)),
  length-replicate {A = ℕ} (zeros (length message)) 0,
)

record AreWords (w : Words8) : Type 0 where
  fits_a : w.a < 2 ^ 32
  fits_b : w.b < 2 ^ 32
  fits_c : w.c < 2 ^ 32
  fits_d : w.d < 2 ^ 32
  fits_e : w.e < 2 ^ 32
  fits_f : w.f < 2 ^ 32
  fits_g : w.g < 2 ^ 32
  fits_h : w.h < 2 ^ 32

init_hash-AreWords : AreWords init_hash
unfolding init_hash
init_hash-AreWords = omega arith

sha256_guts-AreWords : (hash : Words8) (block : List ℕ) → AreWords (sha256_guts hash block)
unfolding sha256_guts
sha256_guts-AreWords hash block = omega arith

absorb-AreWords :
    (n : ℕ) (hash : Words8) (bs : List ℕ) → AreWords hash → AreWords (absorb sha256_guts n hash bs)
unfolding absorb
absorb-AreWords zero hash bs h = h
absorb-AreWords (suc n) hash bs h = absorb-AreWords n _ _ (sha256_guts-AreWords hash (take 64 bs))

store_hash-digest : (w : Words8) → AreWords w → store_hash w ≡ digest w
unfolding store_hash digest
store_hash-digest w h = ap₂ ◌++◌ (bytes_le32-byteswap w.a h.fits_a) (
    ap₂ ◌++◌ (bytes_le32-byteswap w.b h.fits_b) (
      ap₂ ◌++◌ (bytes_le32-byteswap w.c h.fits_c) (
        ap₂ ◌++◌ (bytes_le32-byteswap w.d h.fits_d) (
          ap₂ ◌++◌ (bytes_le32-byteswap w.e h.fits_e) (
            ap₂ ◌++◌ (bytes_le32-byteswap w.f h.fits_f)
              (ap₂ ◌++◌ (bytes_le32-byteswap w.g h.fits_g) (bytes_le32-byteswap w.h h.fits_h)))))))

bytes_to_pad-zeros : (n : ℕ) → n < 64 → bytes_to_pad n ≡ suc (zeros n)
unfolding bytes_to_pad zeros
bytes_to_pad-zeros n h = ground arith

-- The prefix of the array `padding` that is absorbed.
pad_bytes : (n : ℕ) → take (bytes_to_pad (n % 64)) padding ≡ 0x80 ∷ replicate (zeros n) 0
unfolding padding
pad_bytes n =
    ap (λ (k : ℕ). take k padding)
      (bytes_to_pad-zeros (n % 64) (omega arith) ∙ ap suc (zeros-mod n))
    ∙ ap (λ t. 0x80 ∷ t) (take-replicate (zeros n) 63 0 (omega (arith, zeros-lt n)))

module _ (garbage : List ℕ) (h : length garbage ≡ 64) where
  init-IsCtx : IsCtx (sha256_init garbage)
  unfolding sha256_init
  init-IsCtx = record { partial_block = omega arith; block_buffer = h; u64_total = omega arith }

  view-init : view (sha256_init garbage) ≡ record { total = 0; hash = init_hash; pending = [] }
  unfolding sha256_init view
  view-init = refl

module _ (garbage message : List ℕ) (h : length garbage ≡ 64)
    (short : length message < 2 ^ 32) where
  abbrev start : View
  start = record { total = 0; hash = init_hash; pending = [] }

  abbrev sc1 : Ctx
  sc1 = sha256_update (sha256_init garbage) message

  view1 : (view sc1 ≡ absorb_all start message) × IsCtx sc1
  view1 =
      let r = view-sha256_update (sha256_init garbage) message (init-IsCtx garbage h) in
      (r.0 ∙ ap (λ v. absorb_all v message) (view-init garbage h), r.1)

  -- The fields that `sha256_finalize` reads.
  sc1_total : sc1.total_length ≡ 8 * length message
  unfolding view absorb_all
  sc1_total = ap (λ (v : View). v.total) view1.0 ∙ omega arith

  sc1_buffered : sc1.buffer_length ≡ length message % 64
  unfolding view absorb_all
  sc1_buffered =
      let n : ℕ = length message in
      let counts : length (take sc1.buffer_length sc1.buffer)
          ≡ length (drop (64 * (n / 64)) message) =
        ap (λ (v : View). length v.pending) view1.0 in
      omega (
        arith,
        counts,
        view1.1.partial_block,
        view1.1.block_buffer,
        length-take sc1.buffer_length sc1.buffer,
        length-drop (64 * (n / 64)) message,
      )

  abbrev sc2 : Ctx
  sc2 = sha256_update sc1 (take (bytes_to_pad sc1.buffer_length) padding)

  second_view :
      (view sc2 ≡ absorb_all start (message ++ (0x80 ∷ replicate (zeros (length message)) 0)))
      × IsCtx sc2
  second_view =
      let pad : take (bytes_to_pad sc1.buffer_length) padding
          ≡ 0x80 ∷ replicate (zeros (length message)) 0 =
        ap (λ (k : ℕ). take (bytes_to_pad k) padding) sc1_buffered ∙ pad_bytes (length message) in
      let r = view-sha256_update sc1 (take (bytes_to_pad sc1.buffer_length) padding) view1.1 in
      (
        r.0
            ∙ ap₂ absorb_all view1.0 pad
            ∙ absorb_all-append start message (0x80 ∷ replicate (zeros (length message)) 0),
        r.1,
      )

  finalize_view :
      view (sha256_update sc2 (bytes_le64 (byteswap64 sc1.total_length)))
      ≡ absorb_all start (padded message)
  unfolding padded
  finalize_view =
      let bits : bytes_le64 (byteswap64 sc1.total_length) ≡ bytes_be64 (8 * length message) =
        bytes_le64-byteswap64 sc1.total_length view1.1.u64_total ∙ ap bytes_be64 sc1_total in
      (view-sha256_update sc2 (bytes_le64 (byteswap64 sc1.total_length)) second_view.1).0
      ∙ ap₂ absorb_all second_view.0 bits
      ∙ absorb_all-append start (message ++ (0x80 ∷ replicate (zeros (length message)) 0))
          (bytes_be64 (8 * length message))
      ∙ ap (absorb_all start) (
          append_assoc message (0x80 ∷ replicate (zeros (length message)) 0)
            (bytes_be64 (8 * length message)))

  -- `computeSHA256` of a message shorter than 2^32 bytes, whatever the buffer held before, is the
  -- digest of the standard's padded message: its blocks compressed in order from the initial
  -- hash, each word stored highest byte first.
  pub compute_sha256-sha256_standard : compute_sha256 garbage message ≡ sha256_standard message
  unfolding compute_sha256 sha256_standard absorb_all view
  compute_sha256-sha256_standard =
      let hash_eq = ap (λ (v : View). store_hash v.hash) finalize_view in
      hash_eq
      ∙ store_hash-digest _ (absorb-AreWords _ init_hash (padded message) init_hash-AreWords)

pub length-compute_sha256 :
    (garbage message : List ℕ) → length (compute_sha256 garbage message) ≡ 32
unfolding compute_sha256 sha256_finalize store_hash
length-compute_sha256 garbage message = refl
