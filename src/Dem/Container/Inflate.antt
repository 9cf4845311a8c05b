-- ===== src/Dem/Container/Inflate.antt =====
-- The decompression of src/dem.cpp tries buffers that are large enough.
use ph_k_battle_server.Base.{
  ℕ, zero, suc, ◌*◌, ◌≤◌, ◌<◌, ◌≡◌, inl, inr, false, some, min, max, arith, leb, length, is_empty,
  Bytes, Bool-cases,
}
use ph_k_battle_server.Dem.Container.{
  z_ok, z_buf_error, Zlib, max_capacity, decompress_loop, dem_zlib_decompress,
}

-- What the manual of zlib says of a text and what it is compressed to: it is not empty, and `uncompress`
-- gives the text back, or says that the buffer is too small.
pub record Inverts (z : Zlib) (raw compressed : Bytes) : Type 0 where
  pub compresses : z.compress raw ≡ some compressed
  pub fills : is_empty compressed ≡ false
  pub expands : (capacity : ℕ) → length raw ≤ capacity → z.uncompress capacity compressed ≡ z_ok raw
  pub waits :
      (capacity : ℕ) → capacity < length raw → z.uncompress capacity compressed ≡ z_buf_error

-- The buffer after so many refusals.
reach : ℕ → ℕ → ℕ
reach zero capacity = capacity
reach (suc k) capacity = reach k (min (capacity * 4) max_capacity)

reach-max : (capacity : ℕ) → 1024 ≤ capacity → max_capacity ≤ max capacity (reach 9 capacity)
unfolding reach
reach-max capacity h = omega arith

loop-Inverts :
    (z : Zlib) (raw compressed : Bytes) (k capacity : ℕ)
    → Inverts z raw compressed
    → length raw ≤ max_capacity
    → length raw ≤ max capacity (reach k capacity)
    → decompress_loop z (suc k) capacity compressed ≡ some raw
unfolding decompress_loop reach
loop-Inverts z raw compressed zero capacity inv fits h =
    ground (arith, inv.expands capacity (omega arith))
loop-Inverts z raw compressed (suc k) capacity inv fits h =
    elim (Bool-cases (leb (length raw) capacity)) [
      | inl enough ↦ ground (arith, enough, inv.expands capacity)
      | inr short ↦ ground (
        arith,
        short,
        inv.waits capacity,
        loop-Inverts z raw compressed k (min (capacity * 4) max_capacity) inv fits,
      )
    ]

-- `DemZlibDecompress` gives back every text of at most 256 MiB that zlib compressed: its ten buffers
-- grow to that size.
pub decompress-Inverts :
    (z : Zlib) (raw compressed : Bytes)
    → Inverts z raw compressed
    → length raw ≤ max_capacity
    → dem_zlib_decompress z compressed ≡ some raw
unfolding dem_zlib_decompress
decompress-Inverts z raw compressed inv fits = ground (
  arith,
  inv.fills,
  loop-Inverts z raw compressed 9 (max (length compressed * 4) 1024) inv fits,
  reach-max (max (length compressed * 4) 1024),
)
