-- ===== src/Dem.antt =====
-- src/dem.cpp and include/phk/battle/dem.hpp: the replay files. This file has the records and the body of
-- a file; a cursor is the list of the bytes that are left.
pub mod Body
pub mod Json
pub mod Header
pub mod Container
pub mod Recorder
mod Tests
use ph_k_battle_server.Base.{
  ℕ, zero, suc, ◌+◌, ◌-◌, ◌*◌, ◌%◌, ◌^◌, Bool, true, false, List, [], ◌∷◌, ◌++◌, Option, none, some,
  ltb, leb, if◌then◌else◌, length, take, drop, Bytes, ◌>>=◌,
}
use ph_k_battle_server.Base.Int.{ℤ, pos, negsuc}
use ph_k_battle_server.Base.LittleEndian.{le_bytes, get_le}

pub record DemPlayerLoadout : Type 0 where
  pub character_id : Bytes
  pub shot_type : Bytes
  pub bomb_type : Bytes

pub record DemPlayer : Type 0 where
  pub player_id : Bytes
  pub user_id : Bytes
  pub loadout : DemPlayerLoadout

pub record DemHeader : Type 0 where
  pub match_id : Bytes
  pub mode_id : Bytes
  pub boss_id : Bytes
  pub ruleset_version : Bytes
  pub server_seed : Bytes
  pub tick_rate_hz : ℕ
  pub final_tick : ℤ
  pub final_state_hash : Bytes
  pub boss_max_hp : ℕ
  pub players : List DemPlayer
  pub created_at : ℤ
  pub entry_count : ℕ
  pub chain_head_digest : Bytes

pub record DemBodyEntry : Type 0 where
  pub seq : ℕ
  pub tick : ℤ
  pub player_id : Bytes
  pub action_type : Bytes
  pub payload : Bytes

-- The casts between `int64_t` and `uint64_t`.
unfoldable pub to_u64 : ℤ → ℕ
to_u64 (pos n) = n % 2 ^ 64
to_u64 (negsuc n) = 2 ^ 64 - 1 - n % 2 ^ 64

unfoldable pub of_u64 : ℕ → ℤ
of_u64 raw = if ltb raw (2 ^ 63) then pos raw else negsuc (2 ^ 64 - 1 - raw)

-- The length is cut to 16 bits.
unfoldable pub put_bytes : Bytes → Bytes
put_bytes value = le_bytes 2 (length value % 2 ^ 16) ++ value

unfoldable pub take_text : ℕ → Bytes → Option (Bytes × Bytes)
take_text len rest = if leb len (length rest) then some (take len rest, drop len rest) else none

unfoldable pub get_bytes : Bytes → Option (Bytes × Bytes)
get_bytes bytes = elim (get_le 2 bytes) [ none ↦ none | some (len, rest) ↦ take_text len rest ]

unfoldable pub encode_entry : DemBodyEntry → Bytes
encode_entry entry =
    le_bytes 8 entry.seq
    ++ (le_bytes 8 (to_u64 entry.tick)
        ++ (put_bytes entry.player_id ++ (put_bytes entry.action_type ++ put_bytes entry.payload)))

unfoldable pub encode_dem_body : List DemBodyEntry → Bytes
encode_dem_body [] = []
encode_dem_body (entry ∷ entries) = encode_entry entry ++ encode_dem_body entries

-- One round of `DecodeDemBody`: the three texts after the numbers, and all of it.
unfoldable pub decode_texts : ℕ → ℤ → Bytes → Option (DemBodyEntry × Bytes)
decode_texts seq tick b2 = do
  (player_id, b3) ← get_bytes b2
  (action_type, b4) ← get_bytes b3
  (payload, b5) ← get_bytes b4
  some (
    record {
      seq = seq;
      tick = tick;
      player_id = player_id;
      action_type = action_type;
      payload = payload;
    },
    b5,
  )

unfoldable pub decode_entry : Bytes → Option (DemBodyEntry × Bytes)
decode_entry b0 = do
  (seq, b1) ← get_le 8 b0
  (raw, b2) ← get_le 8 b1
  decode_texts seq (of_u64 raw) b2

-- The rounds, a byte at least for each; none also stands for rounds used up.
unfoldable pub decode_loop : ℕ → Bytes → Option (List DemBodyEntry)
decode_loop rounds [] = some []
decode_loop zero (b ∷ bytes) = none
decode_loop (suc rounds) (b ∷ bytes) = do
  (entry, rest) ← decode_entry (b ∷ bytes)
  entries ← decode_loop rounds rest
  some (entry ∷ entries)

unfoldable pub decode_dem_body : Bytes → Option (List DemBodyEntry)
decode_dem_body body = decode_loop (length body) body
