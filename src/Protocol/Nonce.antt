-- ===== src/Protocol/Nonce.antt =====
-- The development nonce of src/protocol.cpp: FNV-1a over 64 bits (`HashAppend`), its hexadecimal
-- text (`Hex64`) and `DevAeadNonceHex`; `IsHex` of src/ticket.cpp.
use Prim.Native.Nat.{bit_xor}
use ph_k_battle_server.Base.{
  ℕ, zero, suc, ◌+◌, ◌-◌, ◌*◌, ◌/◌, ◌%◌, ◌<◌, ◌≡◌, refl, Bool, true, ◌&&◌, ◌||◌, [], ◌∷◌, ◌++◌,
  arith, ltb, leb, if◌then◌else◌, length, all, take, Bytes, codes, length-append, length-take,
  all-append, all-take,
}
use ph_k_battle_server.Protocol.{BattlePacketHeader, payload_byte}

abbrev pub u64_mod : ℕ
u64_mod = 18446744073709551616

abbrev fnv_prime : ℕ
fnv_prime = 1099511628211

abbrev pub fnv_offset : ℕ
fnv_offset = 1469598103934665603

hash_byte : ℕ → ℕ → ℕ
hash_byte hash byte = (bit_xor hash byte * fnv_prime) % u64_mod

-- `HashAppend(hash, string_view)`.
pub hash_append : ℕ → Bytes → ℕ
unfolding hash_byte
hash_append hash [] = hash
hash_append hash (ch ∷ value) = hash_append (hash_byte hash ch) value

-- The eight bytes of a word, the lowest first.
word_bytes : ℕ → ℕ → Bytes
word_bytes zero value = []
word_bytes (suc k) value = value % 256 ∷ word_bytes k (value / 256)

-- `HashAppend(hash, uint64_t)`: the shifts 0, 8, .. 56.
pub hash_append_word : ℕ → ℕ → ℕ
unfolding hash_append word_bytes
hash_append_word hash value = hash_append hash (word_bytes 8 value)

pub hex_digit : ℕ → ℕ
hex_digit d = if ltb d 10 then b'0' + d else b'a' + (d - 10)

-- The last k hexadecimal digits of a number, padded by zeros.
unfoldable pub hex_digits : ℕ → ℕ → Bytes
unfolding hex_digit
hex_digits zero value = []
hex_digits (suc k) value = hex_digits k (value / 16) ++ hex_digit (value % 16) ∷ []

unfoldable pub hex64 : ℕ → Bytes
unfolding hex_digits
hex64 value = hex_digits 16 value

unfoldable pub is_xdigit : ℕ → Bool
is_xdigit ch =
    (leb b'0' ch && leb ch b'9') || ((leb b'a' ch && leb ch b'f') || (leb b'A' ch && leb ch b'F'))

unfoldable pub is_hex : Bytes → Bool
unfolding is_xdigit
is_hex value = all is_xdigit value

nonce_head : BattlePacketHeader → Bytes → ℕ
unfolding hash_append hash_append_word
nonce_head header direction_label =
    let first = hash_append fnv_offset direction_label in
    let first = hash_append first header.key_id in
    let first = hash_append first header.match_id in
    let first = hash_append first header.player_id in
    let first = hash_append_word first (payload_byte header.payload_type) in
    let first = hash_append_word first header.tick in
    let first = hash_append_word first header.seq in hash_append_word first header.ack

unfoldable pub dev_aead_nonce_hex_for : BattlePacketHeader → Bytes → Bytes
unfolding nonce_head hash_append hex64
dev_aead_nonce_hex_for header direction_label =
    let first = nonce_head header direction_label in
    let second = hash_append first (codes "nonce-tail") in take 24 (hex64 first ++ hex64 second)

-- The default direction label.
unfoldable pub dev_aead_nonce_hex : BattlePacketHeader → Bytes
unfolding dev_aead_nonce_hex_for
dev_aead_nonce_hex header = dev_aead_nonce_hex_for header (codes "client_to_server")

hex_digit-IsXdigit : (d : ℕ) → d < 16 → is_xdigit (hex_digit d) ≡ true
unfolding hex_digit is_xdigit
hex_digit-IsXdigit d h = ground arith

pub hex_digits-hex : (k value : ℕ) → all is_xdigit (hex_digits k value) ≡ true
unfolding hex_digits
hex_digits-hex zero value = refl
hex_digits-hex (suc k) value =
    all-append is_xdigit (hex_digits k (value / 16)) _ (hex_digits-hex k (value / 16))
      (ground (arith, hex_digit-IsXdigit (value % 16)))

pub length-hex_digits : (k value : ℕ) → length (hex_digits k value) ≡ k
unfolding hex_digits
length-hex_digits zero value = refl
length-hex_digits (suc k) value = omega (
  arith,
  length-append (hex_digits k (value / 16)) (hex_digit (value % 16) ∷ []),
  length-hex_digits k (value / 16),
)

-- The nonce of every header has the shape that the dispatcher asks for: 24 hexadecimal digits.
pub dev_aead_nonce_hex_shape :
    (header : BattlePacketHeader)
    → (length (dev_aead_nonce_hex header) ≡ 24) × (is_hex (dev_aead_nonce_hex header) ≡ true)
unfolding dev_aead_nonce_hex hex64 is_hex
dev_aead_nonce_hex_shape header = (
  omega (
    arith,
    length-take 24 (hex64 first ++ hex64 second),
    length-append (hex64 first) (hex64 second),
    length-hex_digits 16 first,
    length-hex_digits 16 second,
  ),
  all-take is_xdigit 24 (hex64 first ++ hex64 second) (
      all-append is_xdigit (hex64 first) (hex64 second) (hex_digits-hex 16 first)
        (hex_digits-hex 16 second)),
)
  where
    first : ℕ
    first = nonce_head header (codes "client_to_server")

    second : ℕ
    second = hash_append first (codes "nonce-tail")
