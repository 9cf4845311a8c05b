-- ===== src/Base/LittleEndian.antt =====
-- Numbers in bytes, the lowest first.
use ph_k_battle_server.Base.{
  ℕ, zero, suc, ◌+◌, ◌*◌, ◌/◌, ◌%◌, ◌^◌, ◌<◌, ◌≡◌, refl, subst, [], ◌∷◌, ◌++◌, Option, none, some,
  arith, leb, if◌then◌else◌, length, length-append, take, drop, take-append, drop-append, Bytes,
}

unfoldable pub le_bytes : ℕ → ℕ → Bytes
le_bytes zero value = []
le_bytes (suc k) value = value % 256 ∷ le_bytes k (value / 256)

-- The sum of bytes shifted into place.
unfoldable pub read_le : Bytes → ℕ
read_le [] = 0
read_le (b ∷ bytes) = b + read_le bytes * 256

-- A number of k bytes from the front of those that are left.
unfoldable pub get_le : ℕ → Bytes → Option (ℕ × Bytes)
get_le k bytes = if leb k (length bytes) then some (read_le (take k bytes), drop k bytes) else none

pub read_le-le_bytes : (k value : ℕ) → value < 256 ^ k → read_le (le_bytes k value) ≡ value
unfolding read_le le_bytes
read_le-le_bytes zero value h = omega arith
read_le-le_bytes (suc k) value h = omega (arith, read_le-le_bytes k (value / 256) (omega arith))

pub length-le_bytes : (k value : ℕ) → length (le_bytes k value) ≡ k
unfolding le_bytes
length-le_bytes zero value = refl
length-le_bytes (suc k) value = omega (arith, length-le_bytes k (value / 256))

pub get_le-le_bytes :
    (k value : ℕ) (rest : Bytes)
    → value < 256 ^ k
    → get_le k (le_bytes k value ++ rest) ≡ some (value, rest)
unfolding get_le
get_le-le_bytes k value rest h = ground (
  arith,
  read_le-le_bytes k value h,
  length-le_bytes k value,
  length-append (le_bytes k value) rest,
  taken,
  dropped,
)
  where
    taken : take k (le_bytes k value ++ rest) ≡ le_bytes k value
    taken =
        subst (λ n. take n (le_bytes k value ++ rest) ≡ le_bytes k value) (length-le_bytes k value)
          (take-append (le_bytes k value) rest)

    dropped : drop k (le_bytes k value ++ rest) ≡ rest
    dropped =
        subst (λ n. drop n (le_bytes k value ++ rest) ≡ rest) (length-le_bytes k value)
          (drop-append (le_bytes k value) rest)
