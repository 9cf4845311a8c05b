-- ===== src/Sha256/Laws.antt =====
-- The shape of the padding and of the digest in src/lobby_rng.cpp.
use ph_k_battle_server.Base.{
  ℕ, zero, suc, ◌-◌, ◌*◌, ◌%◌, ◌<◌, ◌≡◌, refl, true, false, sym, ap, ◌∙◌, append_assoc, append-nil,
  [], ◌∷◌, ◌++◌, arith, ◌==◌, length, length-append, All, Bytes, codes,
}
use ph_k_battle_server.Sha256.{
  pad_zeros, big_endian, padded_message, digest_bytes, compress_blocks, sha256_bytes, compress,
}

pub length-big_endian : (k value : ℕ) → length (big_endian k value) ≡ k
unfolding big_endian
length-big_endian zero value = refl
length-big_endian (suc k) value = omega (arith, length-big_endian k value)

abbrev pub IsByte : ℕ → Type 0
IsByte b = b < 256

big_endian-bytes : (k value : ℕ) → All IsByte (big_endian k value)
unfolding big_endian
big_endian-bytes zero value = tt
big_endian-bytes (suc k) value = (omega arith, big_endian-bytes k value)

-- How many rounds the padding loop still has to go.
abbrev rounds_left : ℕ → ℕ
rounds_left n = (120 - n % 64) % 64

abbrev pub zeros : ℕ → Bytes
zeros zero = []
zeros (suc n) = 0 ∷ zeros n

length-zeros : (n : ℕ) → length (zeros n) ≡ n
length-zeros zero = refl
length-zeros (suc n) = omega (arith, length-zeros n)

-- With enough fuel the loop appends a zero for each round that it has to go.
pad_zeros_lem :
    (fuel k : ℕ) (padded : Bytes)
    → rounds_left (length padded) ≡ k
    → k < fuel
    → pad_zeros fuel padded ≡ padded ++ zeros k
unfolding pad_zeros
pad_zeros_lem zero k padded l h = absurd (omega arith)
pad_zeros_lem (suc fuel) zero padded l h =
    let done : (length padded % 64 == 56) ≡ true = ground (arith, l) in
    rw done (sym (append-nil padded))
pad_zeros_lem (suc fuel) (suc k) padded l h =
    let go_on : (length padded % 64 == 56) ≡ false = ground (arith, l) in
    let count = length-append padded (0 ∷ []) in
    rw go_on (
      pad_zeros_lem fuel k (padded ++ 0 ∷ []) (omega (arith, l, count)) (omega arith)
      ∙ append_assoc padded (0 ∷ []) (zeros k))

-- The padding is the one of FIPS 180-4: behind the message the byte 0x80, then zeros, fewer than 64
-- of them, and the number of the message's bits in eight bytes, the highest first, so that the
-- whole is a number of blocks of 64 bytes.
pub padded_message_lem :
    (text : Bytes)
    → (padded_message text
        ≡ text
          ++ (0x80 ∷ (zeros ((119 - length text % 64) % 64) ++ big_endian 8 (length text * 8))))
      × (length (padded_message text) % 64 ≡ 0)
unfolding padded_message
padded_message_lem text =
    let k = (119 - length text % 64) % 64 in
    let tail = big_endian 8 (length text * 8) in
    let one = length-append text (0x80 ∷ []) in
    let padded : padded_message text ≡ text ++ (0x80 ∷ (zeros k ++ tail)) =
      ap (λ x. x ++ tail)
        (pad_zeros_lem 64 k (text ++ 0x80 ∷ []) (omega (arith, one)) (omega arith))
      ∙ append_assoc (text ++ 0x80 ∷ []) (zeros k) tail
      ∙ append_assoc text (0x80 ∷ []) (zeros k ++ tail) in
    (
      padded,
      omega (
        arith,
        ap length padded,
        length-append text (0x80 ∷ (zeros k ++ tail)),
        length-append (zeros k) tail,
        length-zeros k,
        length-big_endian 8 (length text * 8),
      ),
    )

sha256_abc :
    sha256_bytes (codes "abc")
    ≡ 0xba ∷ 0x78 ∷ 0x16 ∷ 0xbf ∷ 0x8f ∷ 0x01 ∷ 0xcf ∷ 0xea ∷ 0x41 ∷ 0x41 ∷ 0x40 ∷ 0xde ∷ 0x5d
      ∷ 0xae ∷ 0x22 ∷ 0x23 ∷ 0xb0 ∷ 0x03 ∷ 0x61 ∷ 0xa3 ∷ 0x96 ∷ 0x17 ∷ 0x7a ∷ 0x9c ∷ 0xb4 ∷ 0x10
      ∷ 0xff ∷ 0x61 ∷ 0xf2 ∷ 0x00 ∷ 0x15 ∷ 0xad ∷ []
unfolding sha256_bytes padded_message pad_zeros big_endian compress_blocks compress digest_bytes
sha256_abc = refl

-- Every digest has 32 entries, each a byte.
pub length-sha256_bytes : (text : Bytes) → length (sha256_bytes text) ≡ 32
unfolding sha256_bytes digest_bytes big_endian
length-sha256_bytes text = refl

pub sha256_bytes-bytes : (text : Bytes) → All IsByte (sha256_bytes text)
unfolding sha256_bytes digest_bytes big_endian
sha256_bytes-bytes text = omega arith
