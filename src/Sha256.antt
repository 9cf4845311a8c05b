-- ===== src/Sha256.antt =====
-- `Sha256Bytes` of src/lobby_rng.cpp. Words are numbers below 2 ^ 32: a sum or a left shift is
-- reduced where the source's `std::uint32_t` wraps.
pub mod Laws
use Prim.Native.Nat.{bit_and, bit_or, bit_xor}
use ph_k_battle_server.Base.{
  ℕ, zero, suc, ◌+◌, ◌-◌, ◌*◌, ◌/◌, ◌%◌, ◌^◌, List, [], ◌∷◌, ◌++◌, ◌==◌, if◌then◌else◌, length,
  get_or, take, drop, Bytes,
}

abbrev pub u32_mod : ℕ
u32_mod = 4294967296

abbrev pub sha256_k : List ℕ
sha256_k =
    0x428a2f98 ∷ 0x71374491 ∷ 0xb5c0fbcf ∷ 0xe9b5dba5 ∷ 0x3956c25b ∷ 0x59f111f1 ∷ 0x923f82a4
    ∷ 0xab1c5ed5 ∷ 0xd807aa98 ∷ 0x12835b01 ∷ 0x243185be ∷ 0x550c7dc3 ∷ 0x72be5d74 ∷ 0x80deb1fe
    ∷ 0x9bdc06a7 ∷ 0xc19bf174 ∷ 0xe49b69c1 ∷ 0xefbe4786 ∷ 0x0fc19dc6 ∷ 0x240ca1cc ∷ 0x2de92c6f
    ∷ 0x4a7484aa ∷ 0x5cb0a9dc ∷ 0x76f988da ∷ 0x983e5152 ∷ 0xa831c66d ∷ 0xb00327c8 ∷ 0xbf597fc7
    ∷ 0xc6e00bf3 ∷ 0xd5a79147 ∷ 0x06ca6351 ∷ 0x14292967 ∷ 0x27b70a85 ∷ 0x2e1b2138 ∷ 0x4d2c6dfc
    ∷ 0x53380d13 ∷ 0x650a7354 ∷ 0x766a0abb ∷ 0x81c2c92e ∷ 0x92722c85 ∷ 0xa2bfe8a1 ∷ 0xa81a664b
    ∷ 0xc24b8b70 ∷ 0xc76c51a3 ∷ 0xd192e819 ∷ 0xd6990624 ∷ 0xf40e3585 ∷ 0x106aa070 ∷ 0x19a4c116
    ∷ 0x1e376c08 ∷ 0x2748774c ∷ 0x34b0bcb5 ∷ 0x391c0cb3 ∷ 0x4ed8aa4a ∷ 0x5b9cca4f ∷ 0x682e6ff3
    ∷ 0x748f82ee ∷ 0x78a5636f ∷ 0x84c87814 ∷ 0x8cc70208 ∷ 0x90befffa ∷ 0xa4506ceb ∷ 0xbef9a3f7
    ∷ 0xc67178f2 ∷ []

unfoldable pub rotr : ℕ → ℕ → ℕ
rotr value bits = bit_or (value / 2 ^ bits) ((value * 2 ^ (32 - bits)) % u32_mod)

-- The padding loop, on fuel: it ends within 64 rounds.
unfoldable pub pad_zeros : ℕ → Bytes → Bytes
pad_zeros zero padded = padded
pad_zeros (suc fuel) padded =
    let longer = pad_zeros fuel (padded ++ 0 ∷ []) in
    if length padded % 64 == 56 then padded else longer

-- The low 8 * k bits of a number as bytes, the highest first.
unfoldable pub big_endian : ℕ → ℕ → Bytes
big_endian zero value = []
big_endian (suc k) value = (value / 256 ^ k) % 256 ∷ big_endian k value

unfoldable pub padded_message : Bytes → Bytes
padded_message text = pad_zeros 64 (text ++ 0x80 ∷ []) ++ big_endian 8 (length text * 8)

unfoldable pub word_at_bytes : Bytes → ℕ
word_at_bytes (b0 ∷ b1 ∷ b2 ∷ b3 ∷ rest) = b0 * 16777216 + b1 * 65536 + b2 * 256 + b3
word_at_bytes _ = 0

-- `schedule[0 .. 15]` of a block.
unfoldable pub load_words : ℕ → Bytes → List ℕ
load_words zero block = []
load_words (suc k) block = word_at_bytes block ∷ load_words k (drop 4 block)

unfoldable pub next_word : List ℕ → ℕ
next_word schedule =
    let i = length schedule in
    let x = get_or schedule (i - 15) 0 in
    let y = get_or schedule (i - 2) 0 in
    let s0 = bit_xor (bit_xor (rotr x 7) (rotr x 18)) (x / 2 ^ 3) in
    let s1 = bit_xor (bit_xor (rotr y 17) (rotr y 19)) (y / 2 ^ 10) in
    (get_or schedule (i - 16) 0 + s0 + get_or schedule (i - 7) 0 + s1) % u32_mod

unfoldable pub extend_schedule : ℕ → List ℕ → List ℕ
extend_schedule zero schedule = schedule
extend_schedule (suc k) schedule = extend_schedule k (schedule ++ next_word schedule ∷ [])

pub record Digest : Type 0 where
  pub a : ℕ
  pub b : ℕ
  pub c : ℕ
  pub d : ℕ
  pub e : ℕ
  pub f : ℕ
  pub g : ℕ
  pub h : ℕ

abbrev pub initial_digest : Digest
initial_digest = record {
  a = 0x6a09e667;
  b = 0xbb67ae85;
  c = 0x3c6ef372;
  d = 0xa54ff53a;
  e = 0x510e527f;
  f = 0x9b05688c;
  g = 0x1f83d9ab;
  h = 0x5be0cd19;
}

unfoldable pub choose : ℕ → ℕ → ℕ → ℕ
choose e f g = bit_xor (bit_and e f) (bit_and (u32_mod - 1 - e) g)

unfoldable pub majority : ℕ → ℕ → ℕ → ℕ
majority a b c = bit_xor (bit_xor (bit_and a b) (bit_and a c)) (bit_and b c)

unfoldable pub sha_round : Digest → ℕ → ℕ → Digest
sha_round s k w =
    let big_s1 = bit_xor (bit_xor (rotr s.e 6) (rotr s.e 11)) (rotr s.e 25) in
    let temp1 = (s.h + big_s1 + choose s.e s.f s.g + k + w) % u32_mod in
    let big_s0 = bit_xor (bit_xor (rotr s.a 2) (rotr s.a 13)) (rotr s.a 22) in
    let temp2 = (big_s0 + majority s.a s.b s.c) % u32_mod in
    record {
      a = (temp1 + temp2) % u32_mod;
      b = s.a;
      c = s.b;
      d = s.c;
      e = (s.d + temp1) % u32_mod;
      f = s.e;
      g = s.f;
      h = s.g;
    }

unfoldable pub sha_rounds : Digest → List ℕ → List ℕ → Digest
sha_rounds s (k ∷ ks) (w ∷ ws) = sha_rounds (sha_round s k w) ks ws
sha_rounds s _ _ = s

unfoldable pub add_digest : Digest → Digest → Digest
add_digest s t = record {
  a = (s.a + t.a) % u32_mod;
  b = (s.b + t.b) % u32_mod;
  c = (s.c + t.c) % u32_mod;
  d = (s.d + t.d) % u32_mod;
  e = (s.e + t.e) % u32_mod;
  f = (s.f + t.f) % u32_mod;
  g = (s.g + t.g) % u32_mod;
  h = (s.h + t.h) % u32_mod;
}

-- The body of the loop over the blocks.
unfoldable pub compress : Digest → Bytes → Digest
unfolding rotr word_at_bytes load_words next_word extend_schedule choose majority sha_round
    sha_rounds add_digest
compress state block =
    add_digest state (sha_rounds state sha256_k (extend_schedule 48 (load_words 16 block)))

-- The loop `offset += 64`, one round for each block.
unfoldable pub compress_blocks : ℕ → Digest → Bytes → Digest
compress_blocks zero state padded = state
compress_blocks (suc blocks) state padded =
    compress_blocks blocks (compress state (take 64 padded)) (drop 64 padded)

unfoldable pub digest_bytes : Digest → Bytes
digest_bytes s =
    big_endian 4 s.a
    ++ (big_endian 4 s.b
        ++ (big_endian 4 s.c
            ++ (big_endian 4 s.d
                ++ (big_endian 4 s.e
                    ++ (big_endian 4 s.f ++ (big_endian 4 s.g ++ big_endian 4 s.h))))))

unfoldable pub sha256_bytes : Bytes → Bytes
sha256_bytes text =
    let padded = padded_message text in
    digest_bytes (compress_blocks (length padded / 64) initial_digest padded)
