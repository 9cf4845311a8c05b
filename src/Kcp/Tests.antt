-- ===== src/Kcp/Tests.antt =====
-- The adapter over a server that accepts every packet, and the theorems at concrete packets.
use ph_k_battle_server.Base.{
  ◌+◌, ◌*◌, ◌≤◌, ◌≡◌, ◌≢◌, ◌⊎◌, refl, Bool, true, false, [], ◌∷◌, some, length, find, insert, codes,
  bytes_eq, bytes_key, arith,
}
use ph_k_battle_server.Protocol.{BattlePayloadType, ping, reconnect, BattleEncryptedPacket}
use ph_k_battle_server.Kcp.{
  UdpDatagram, KcpEndpointStats, Backend, KcpAeadPacketAdapter, fresh_adapter, echo_datagram,
  session_remote_key, is_reconnect, is_bound_type, process_encrypted_datagram, adapter_reason,
  is_bound_elsewhere, bind_remote,
}
use ph_k_battle_server.Kcp.Laws.{echo_all, total_bytes, echo_all-counts, run, run-counts}
use ph_k_battle_server.Kcp.Binding.{foreign_address_refused, rebinding_needs_reconnect}

-- The server's state says whether its players are connected.
abbrev lenient : Backend
lenient = record {
  Server = Bool;
  dispatch_encrypted = λ server packet. (
    server,
    record {
      ok = true;
      reason = "accepted";
      payload_type = packet.header.payload_type;
      response_kind = "pong";
    },
  );
  is_player_connected = λ server match_id player_id. server;
  Endpoint = KcpEndpointStats;
  process_datagram = echo_datagram;
}

abbrev zero_stats : KcpEndpointStats
zero_stats = record { datagrams_in = 0; datagrams_out = 0; bytes_in = 0; bytes_out = 0 }

abbrev packet_of : BattlePayloadType → BattleEncryptedPacket
packet_of payload_type = record {
  header = record {
    version = record {
      protocol_version = 1;
      business_api_version = [];
      battle_api_version = [];
      ruleset_version = [];
    };
    match_id = codes "m";
    player_id = codes "p";
    tick = 1;
    seq = 1;
    ack = 0;
    payload_type = payload_type;
    key_id = codes "k";
    nonce_hex = [];
  };
  ciphertext = [];
  auth_tag = [];
}

abbrev from_b : UdpDatagram
from_b = record { remote_endpoint = codes "b"; payload = 1 ∷ 2 ∷ [] }

abbrev bound_to_a : KcpAeadPacketAdapter
bound_to_a = fresh_adapter ((codes "m:p:k", codes "a") ∷ [])

key_of_packet : session_remote_key (packet_of ping) ≡ codes "m:p:k"
unfolding session_remote_key
key_of_packet = refl

bound_at_key :
    find (session_remote_key (packet_of ping)) bound_to_a.remote_endpoint_by_session
    ≡ some (codes "a")
unfolding session_remote_key find bytes_eq
bound_at_key = refl

bytes_differ : codes "a" ≢ codes "b"
bytes_differ e = ground (arith, e)

echo_all-counts_example :
    let (stats, replies) = echo_all zero_stats (from_b ∷ from_b ∷ []) in
    (length replies ≡ 2)
    × (stats.datagrams_in ≡ 0 + 2)
    × (stats.datagrams_out ≡ 0 + length replies)
    × (stats.bytes_in ≡ 0 + 4)
    × (stats.bytes_out ≡ 0 + total_bytes replies)
    × (total_bytes replies ≡ 4 + 9 * 2)
echo_all-counts_example = echo_all-counts (from_b ∷ from_b ∷ []) zero_stats

run-counts_example :
    let stats = (run lenient true zero_stats bound_to_a ((packet_of ping, from_b) ∷ [])).2.stats in
    (stats.accepted_datagrams + stats.rejected_datagrams ≡ 1)
    × (stats.malformed_datagrams + stats.remote_endpoint_mismatches ≤ stats.rejected_datagrams)
    × (stats.remote_endpoint_rebinds ≤ stats.accepted_datagrams)
run-counts_example =
    run-counts lenient true zero_stats ((codes "m:p:k", codes "a") ∷ [])
      ((packet_of ping, from_b) ∷ [])

foreign_address_refused_example :
    let ((server, endpoint, a), result) =
      process_encrypted_datagram lenient true zero_stats bound_to_a (packet_of ping) from_b in
    (result.ok ≡ false)
    × (server ≡ true)
    × (endpoint ≡ zero_stats)
    × (a.remote_endpoint_by_session ≡ (codes "m:p:k", codes "a") ∷ [])
foreign_address_refused_example =
    foreign_address_refused lenient true zero_stats bound_to_a (packet_of ping) from_b (codes "a")
      refl (unfold session_remote_key in refl) bound_at_key bytes_differ

moved_to_b :
    find
      (codes "m:p:k")
      (process_encrypted_datagram lenient false zero_stats bound_to_a
        (packet_of reconnect)
        from_b).0.2.remote_endpoint_by_session
    ≡ some (codes "b")
unfolding process_encrypted_datagram adapter_reason is_bound_elsewhere bind_remote
    session_remote_key find bytes_eq insert
moved_to_b = refl

rebinding_needs_reconnect_example :
    (session_remote_key (packet_of reconnect) ≡ codes "m:p:k")
    × (true ≡ true)
    × (codes "b" ≡ codes "b")
    × (is_bound_type reconnect ≡ false)
    × ((is_reconnect reconnect ≡ false) ⊎ (false ≡ false))
rebinding_needs_reconnect_example =
    rebinding_needs_reconnect lenient false zero_stats bound_to_a (packet_of reconnect) from_b
      (codes "m:p:k") (codes "a") (codes "b") (unfold find bytes_eq in refl) moved_to_b bytes_differ
