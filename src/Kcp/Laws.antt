-- ===== src/Kcp/Laws.antt =====
-- The outcomes of the adapter of src/kcp_endpoint.cpp and the books that it and the echo keep.
use Prim.Native.String.{String}
use ph_k_battle_server.Base.{
  ℕ, ◌+◌, ◌*◌, ◌≤◌, ◌≡◌, refl, sym, subst, ◌⊎◌, inl, inr, true, false, List, [], ◌∷◌, ◌++◌, none,
  some, arith, length, length-append, Map, Bytes, bytes_key, Option-cases,
}
use ph_k_battle_server.Protocol.{BattleEncryptedPacket}
use ph_k_battle_server.Kcp.{
  UdpDatagram, KcpEndpointStats, kcp_echo_prefix, echo_datagram, Backend, KcpAeadAdapterStats,
  KcpAeadPacketAdapter, fresh_adapter, adapter_reason, note_refused, note_rejected, bind_remote,
  refuse, process_encrypted_datagram,
}

-- The endpoint over a sequence of datagrams.
unfoldable pub echo_all : KcpEndpointStats → List UdpDatagram → KcpEndpointStats × List UdpDatagram
echo_all stats [] = (stats, [])
echo_all stats (datagram ∷ datagrams) =
    let (stats', replies) = echo_datagram stats datagram in
    let (stats'', rest) = echo_all stats' datagrams in (stats'', replies ++ rest)

abbrev pub total_bytes : List UdpDatagram → ℕ
total_bytes [] = 0
total_bytes (datagram ∷ datagrams) = length datagram.payload + total_bytes datagrams

-- Over any sequence of datagrams the echo endpoint answers each with one, counts both, and counts
-- the bytes that came in and those that went out, which are nine more for each datagram.
pub echo_all-counts :
    (datagrams : List UdpDatagram) (stats : KcpEndpointStats)
    → let (stats', replies) = echo_all stats datagrams in
      (length replies ≡ length datagrams)
      × (stats'.datagrams_in ≡ stats.datagrams_in + length datagrams)
      × (stats'.datagrams_out ≡ stats.datagrams_out + length replies)
      × (stats'.bytes_in ≡ stats.bytes_in + total_bytes datagrams)
      × (stats'.bytes_out ≡ stats.bytes_out + total_bytes replies)
      × (total_bytes replies ≡ total_bytes datagrams + 9 * length datagrams)
unfolding echo_all echo_datagram
echo_all-counts [] stats = (refl, omega arith, omega arith, omega arith, omega arith, omega arith)
echo_all-counts (datagram ∷ datagrams) stats = ground (
  arith,
  echo_all-counts datagrams (echo_datagram stats datagram).0,
  length-append kcp_echo_prefix datagram.payload,
)

module _ (b : Backend) where
  pub process_cases :
      (server : b.Server) (endpoint : b.Endpoint) (a : KcpAeadPacketAdapter)
      (packet : BattleEncryptedPacket) (datagram : UdpDatagram)
      → ((reason : String) × ((adapter_reason b server a packet datagram ≡ some reason)
            × (process_encrypted_datagram b server endpoint a packet datagram
                ≡ ((server, endpoint, note_refused datagram a), refuse packet reason))))
        ⊎ ((adapter_reason b server a packet datagram ≡ none)
            × ((process_encrypted_datagram b server endpoint a packet datagram).1.ok ≡ true)
            × ((b.dispatch_encrypted server packet).1.ok ≡ true)
            × ((process_encrypted_datagram b server endpoint a packet datagram).0.2
                ≡ bind_remote a packet datagram.remote_endpoint))
        ⊎ ((adapter_reason b server a packet datagram ≡ none)
            × ((process_encrypted_datagram b server endpoint a packet datagram).1.ok ≡ false)
            × ((b.dispatch_encrypted server packet).1.ok ≡ false)
            × ((process_encrypted_datagram b server endpoint a packet datagram).0.2
                ≡ note_rejected a))
  unfolding process_encrypted_datagram
  process_cases server endpoint a packet datagram =
      elim (Option-cases (adapter_reason b server a packet datagram)) [
        | inr (reason, bad) ↦ inl (reason, (bad, ground (arith, bad)))
        | inl good ↦ inr (ground (arith, good))
      ]

  -- The adapter over a sequence of packets and the datagrams that carry them.
  unfoldable pub run :
      b.Server
      → b.Endpoint
      → KcpAeadPacketAdapter
      → List (BattleEncryptedPacket × UdpDatagram)
      → b.Server × b.Endpoint × KcpAeadPacketAdapter
  run server endpoint a [] = (server, endpoint, a)
  run server endpoint a ((packet, datagram) ∷ rest) =
      let after = process_encrypted_datagram b server endpoint a packet datagram in
      run after.0.0 after.0.1 after.0.2 rest

  -- The adapter's books.
  abbrev IsAudited : ℕ → KcpAeadAdapterStats → Type 0
  IsAudited count stats =
      (stats.accepted_datagrams + stats.rejected_datagrams ≡ count)
      × (stats.malformed_datagrams + stats.remote_endpoint_mismatches ≤ stats.rejected_datagrams)
      × (stats.remote_endpoint_rebinds ≤ stats.accepted_datagrams)

  process-IsAudited :
      (count : ℕ) (server : b.Server) (endpoint : b.Endpoint) (a : KcpAeadPacketAdapter)
      (packet : BattleEncryptedPacket) (datagram : UdpDatagram)
      → IsAudited count a.stats
      → IsAudited
          (count + 1)
          (process_encrypted_datagram b server endpoint a packet datagram).0.2.stats
  unfolding note_refused bind_remote
  process-IsAudited count server endpoint a packet datagram h =
      elim (process_cases server endpoint a packet datagram) [
        | inl (reason, (_, same)) ↦
            subst (λ r. IsAudited (count + 1) r.0.2.stats) (sym same) (ground arith)
        | inr (inl (_, _, _, same)) ↦
            subst (λ a. IsAudited (count + 1) a.stats) (sym same) (ground arith)
        | inr (inr (_, _, _, same)) ↦
            subst (λ a. IsAudited (count + 1) a.stats) (sym same) (ground arith)
      ]

  run-IsAudited :
      (packets : List (BattleEncryptedPacket × UdpDatagram)) (count : ℕ) (server : b.Server)
      (endpoint : b.Endpoint) (a : KcpAeadPacketAdapter)
      → IsAudited count a.stats
      → IsAudited (count + length packets) (run server endpoint a packets).2.stats
  unfolding run
  run-IsAudited [] count server endpoint a h = ground arith
  run-IsAudited ((packet, datagram) ∷ rest) count server endpoint a h =
      let after = process_encrypted_datagram b server endpoint a packet datagram in
      ground (
        arith,
        run-IsAudited rest (count + 1) after.0.0 after.0.1 after.0.2
            (process-IsAudited count server endpoint a packet datagram h),
      )

  -- An adapter with fresh counters accounts for every datagram: the accepted and the rejected ones
  -- make up all, the malformed ones and the mismatches are among the rejected, and the rebinds
  -- among the accepted.
  pub run-counts :
      (server : b.Server) (endpoint : b.Endpoint) (bound : Map Bytes Bytes)
      (packets : List (BattleEncryptedPacket × UdpDatagram))
      → let stats = (run server endpoint (fresh_adapter bound) packets).2.stats in
        (stats.accepted_datagrams + stats.rejected_datagrams ≡ length packets)
        × (stats.malformed_datagrams + stats.remote_endpoint_mismatches ≤ stats.rejected_datagrams)
        × (stats.remote_endpoint_rebinds ≤ stats.accepted_datagrams)
  run-counts server endpoint bound packets = ground (
    arith,
    run-IsAudited packets 0 server endpoint (fresh_adapter bound) (refl, omega arith, omega arith),
  )
