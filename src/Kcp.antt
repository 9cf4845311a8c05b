-- ===== src/Kcp.antt =====
-- src/kcp_endpoint.cpp and include/phk/battle/kcp_endpoint.hpp: the echo endpoint, and the adapter
-- that binds a session to the address its packets come from. The battle server and the endpoint
-- are interfaces here, each a state with the operations that the adapter calls. Counters are
-- numbers without a width.
pub mod Laws
pub mod Binding
mod Tests
use Prim.Native.String.{String}
use ph_k_battle_server.Base.{
  ℕ, ◌+◌, ◌≡◌, Bool, true, false, ◌&&◌, ◌||◌, not, List, [], ◌∷◌, ◌++◌, Option, none, some,
  if◌then◌else◌, length, is_empty, Map, find, insert, Bytes, codes, bytes_eq, bytes_key,
}
use ph_k_battle_server.Protocol.{
  BattlePayloadType, input, mode_action, ping, reconnect, BattleEncryptedPacket, DispatchResult,
}

pub record UdpDatagram : Type 0 where
  pub remote_endpoint : Bytes
  pub payload : Bytes

pub record KcpEndpointStats : Type 0 where
  pub datagrams_in : ℕ
  pub datagrams_out : ℕ
  pub bytes_in : ℕ
  pub bytes_out : ℕ

abbrev pub kcp_echo_prefix : Bytes
kcp_echo_prefix = codes "kcp_echo:"

-- `KcpEchoEndpoint::ProcessDatagram`; the endpoint's state is its statistics.
unfoldable pub echo_datagram : KcpEndpointStats → UdpDatagram → KcpEndpointStats × List UdpDatagram
echo_datagram stats datagram =
    let payload = kcp_echo_prefix ++ datagram.payload in
    (
      record {
        datagrams_in = stats.datagrams_in + 1;
        datagrams_out = stats.datagrams_out + 1;
        bytes_in = stats.bytes_in + length datagram.payload;
        bytes_out = stats.bytes_out + length payload;
      },
      record { remote_endpoint = datagram.remote_endpoint; payload = payload } ∷ [],
    )

-- What the adapter calls: `BattleServer::DispatchEncrypted` and `IsPlayerConnected`, and
-- `KcpEndpoint::ProcessDatagram`.
pub record Backend : Type 1 where
  pub Server : Type 0
  pub dispatch_encrypted : Server → BattleEncryptedPacket → Server × DispatchResult
  pub is_player_connected : Server → Bytes → Bytes → Bool
  pub Endpoint : Type 0
  pub process_datagram : Endpoint → UdpDatagram → Endpoint × List UdpDatagram

pub record KcpAeadAdapterResult : Type 0 where
  pub ok : Bool
  pub reason : String
  pub dispatch : DispatchResult
  pub replies : List UdpDatagram

pub record KcpAeadAdapterStats : Type 0 where
  pub accepted_datagrams : ℕ
  pub rejected_datagrams : ℕ
  pub malformed_datagrams : ℕ
  pub remote_endpoint_mismatches : ℕ
  pub remote_endpoint_rebinds : ℕ
  pub bound_sessions : ℕ

-- The adapter's own fields.
pub record KcpAeadPacketAdapter : Type 0 where
  pub stats : KcpAeadAdapterStats
  pub remote_endpoint_by_session : Map Bytes Bytes

-- An adapter with zero counters.
abbrev pub fresh_adapter : Map Bytes Bytes → KcpAeadPacketAdapter
fresh_adapter bound = record {
  stats = record {
    accepted_datagrams = 0;
    rejected_datagrams = 0;
    malformed_datagrams = 0;
    remote_endpoint_mismatches = 0;
    remote_endpoint_rebinds = 0;
    bound_sessions = 0;
  };
  remote_endpoint_by_session = bound;
}

unfoldable pub session_remote_key : BattleEncryptedPacket → Bytes
session_remote_key packet =
    if is_empty packet.header.match_id
      || (is_empty packet.header.player_id || is_empty packet.header.key_id)
    then []
    else packet.header.match_id ++ b':' ∷ packet.header.player_id ++ b':' ∷ packet.header.key_id

abbrev pub is_reconnect : BattlePayloadType → Bool
is_reconnect reconnect = true
is_reconnect _ = false

abbrev pub is_bound_type : BattlePayloadType → Bool
is_bound_type input = true
is_bound_type mode_action = true
is_bound_type ping = true
is_bound_type _ = false

-- The session is bound to another address.
unfoldable pub is_bound_elsewhere : KcpAeadPacketAdapter → BattleEncryptedPacket → Bytes → Bool
is_bound_elsewhere a packet remote_endpoint =
    let key = session_remote_key packet in
    if is_empty key then false else elim (find key a.remote_endpoint_by_session) [
      | none ↦ false
      | some bound ↦ not (bytes_eq bound remote_endpoint)
    ]

unfoldable pub refuse : BattleEncryptedPacket → String → KcpAeadAdapterResult
refuse packet reason = record {
  ok = false;
  reason = reason;
  dispatch = record {
    ok = false;
    reason = reason;
    payload_type = packet.header.payload_type;
    response_kind = "";
  };
  replies = [];
}

abbrev pub is_malformed : UdpDatagram → Bool
is_malformed datagram = is_empty datagram.remote_endpoint || is_empty datagram.payload

-- The counters of a datagram that the adapter itself refuses.
unfoldable pub note_refused : UdpDatagram → KcpAeadPacketAdapter → KcpAeadPacketAdapter
note_refused datagram a = record a {
  stats = record a.stats {
    rejected_datagrams = a.stats.rejected_datagrams + 1;
    malformed_datagrams =
        if is_malformed datagram
        then a.stats.malformed_datagrams + 1
        else a.stats.malformed_datagrams;
    remote_endpoint_mismatches =
        if is_malformed datagram
        then a.stats.remote_endpoint_mismatches
        else a.stats.remote_endpoint_mismatches + 1;
  };
}

abbrev pub note_rejected : KcpAeadPacketAdapter → KcpAeadPacketAdapter
note_rejected a = record a {
  stats = record a.stats { rejected_datagrams = a.stats.rejected_datagrams + 1 };
}

-- The binding and the counters of an accepted datagram.
unfoldable pub bind_remote :
    KcpAeadPacketAdapter → BattleEncryptedPacket → Bytes → KcpAeadPacketAdapter
bind_remote a packet remote_endpoint =
    let key = session_remote_key packet in
    let bound =
      if is_empty key
      then a.remote_endpoint_by_session
      else insert key remote_endpoint a.remote_endpoint_by_session in
    record a {
      stats = record a.stats {
        accepted_datagrams = a.stats.accepted_datagrams + 1;
        remote_endpoint_rebinds =
            if is_reconnect packet.header.payload_type
              && is_bound_elsewhere a packet remote_endpoint
            then a.stats.remote_endpoint_rebinds + 1
            else a.stats.remote_endpoint_rebinds;
        bound_sessions = length bound;
      };
      remote_endpoint_by_session = bound;
    }

module _ (b : Backend) where
  -- What is wrong with the packet or its address before the server sees it.
  unfoldable pub adapter_reason :
      b.Server → KcpAeadPacketAdapter → BattleEncryptedPacket → UdpDatagram → Option String
  adapter_reason server a packet datagram =
      if is_empty datagram.remote_endpoint
      then some "remote_endpoint_missing"
      else (if is_empty datagram.payload
          then some "datagram_payload_missing"
          else (if is_bound_type packet.header.payload_type
                && is_bound_elsewhere a packet datagram.remote_endpoint
              then some "remote_endpoint_mismatch"
              else (if is_reconnect packet.header.payload_type
                    && (is_bound_elsewhere a packet datagram.remote_endpoint
                        && b.is_player_connected server packet.header.match_id
                            packet.header.player_id)
                  then some "remote_rebind_player_connected"
                  else none)))

  unfoldable pub process_encrypted_datagram :
      b.Server
      → b.Endpoint
      → KcpAeadPacketAdapter
      → BattleEncryptedPacket
      → UdpDatagram
      → (b.Server × b.Endpoint × KcpAeadPacketAdapter) × KcpAeadAdapterResult
  process_encrypted_datagram server endpoint a packet datagram =
      let (server', dispatched) = b.dispatch_encrypted server packet in
      let (endpoint', replies) = b.process_datagram endpoint datagram in
      elim (adapter_reason server a packet datagram) [
        | some reason ↦ ((server, endpoint, note_refused datagram a), refuse packet reason)
        | none ↦
            if dispatched.ok
            then (
              (server', endpoint', bind_remote a packet datagram.remote_endpoint),
              record {
                ok = true;
                reason = dispatched.response_kind;
                dispatch = dispatched;
                replies = replies;
              },
            )
            else (
              (server', endpoint, note_rejected a),
              record {
                ok = false;
                reason = dispatched.reason;
                dispatch = dispatched;
                replies = [];
              },
            )
      ]
