-- ===== src/Protocol.antt =====
-- The packet layer: include/phk/battle/protocol.hpp, version.hpp and src/protocol.cpp.
-- This file has the data types; the children model the nonce, the JSON scanner and the dispatcher.
pub mod Nonce
pub mod Json
pub mod ModeAction
pub mod Dispatch
pub mod Replay
pub mod Traffic
pub mod Sealed
mod Tests
use ph_k_battle_server.Base.{ℕ, ◌≡◌, Bool, true, false, List, Bytes, codes, bytes_eq, ◌&&◌, ◌==◌}
use Prim.Native.String.{String}

-- The enumerators with their bytes. `unnamed` is a byte that a cast from the wire may give
-- (`static_cast<BattlePayloadType>(value & 0xff)`) and that has no enumerator.
pub data BattlePayloadType : Type 0 where
  unspecified handshake_hello handshake_accept input snapshot : BattlePayloadType
  event ping reconnect result mode_action coop_snapshot : BattlePayloadType
  unnamed : ℕ → BattlePayloadType

abbrev pub payload_byte : BattlePayloadType → ℕ
payload_byte unspecified = 0
payload_byte handshake_hello = 1
payload_byte handshake_accept = 2
payload_byte input = 3
payload_byte snapshot = 4
payload_byte event = 5
payload_byte ping = 6
payload_byte reconnect = 7
payload_byte result = 8
payload_byte mode_action = 9
payload_byte coop_snapshot = 12
payload_byte (unnamed b) = b

-- `kProtocolVersion` and `kBattleApiVersion` of the generated manifest.
abbrev pub protocol_version_supported : ℕ
protocol_version_supported = 1

abbrev pub battle_api_version_supported : Bytes
battle_api_version_supported = codes "0.1.0-draft"

pub record VersionStamp : Type 0 where
  pub protocol_version : ℕ
  pub business_api_version : Bytes
  pub battle_api_version : Bytes
  pub ruleset_version : Bytes

unfoldable pub is_compatible : VersionStamp → Bool
is_compatible v =
    (v.protocol_version == protocol_version_supported)
    && bytes_eq v.battle_api_version battle_api_version_supported

-- Ticks, sequence numbers and acknowledgements are `std::uint64_t`.
pub record BattlePacketHeader : Type 0 where
  pub version : VersionStamp
  pub match_id : Bytes
  pub player_id : Bytes
  pub tick : ℕ
  pub seq : ℕ
  pub ack : ℕ
  pub payload_type : BattlePayloadType
  pub key_id : Bytes
  pub nonce_hex : Bytes

pub record BattleEncryptedPacket : Type 0 where
  pub header : BattlePacketHeader
  pub ciphertext : Bytes
  pub auth_tag : Bytes

pub record DispatchResult : Type 0 where
  pub ok : Bool
  pub reason : String
  pub payload_type : BattlePayloadType
  pub response_kind : String
