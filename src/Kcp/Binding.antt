-- ===== src/Kcp/Binding.antt =====
-- Which packets may move a session of src/kcp_endpoint.cpp to another address.
use ph_k_battle_server.Base.{
  ◌≡◌, ◌≢◌, sym, ap, ◌∙◌, ◌⊎◌, inl, inr, true, false, Option, none, some, if◌then◌else◌, arith,
  is_empty, find, find-insert, Bytes, bytes_eq, bytes_eq_iff, bytes_key,
}
use ph_k_battle_server.Protocol.{BattleEncryptedPacket}
use ph_k_battle_server.Kcp.{
  UdpDatagram, Backend, KcpAeadPacketAdapter, is_reconnect, is_bound_type, is_bound_elsewhere,
  session_remote_key, adapter_reason, note_refused, bind_remote, refuse, process_encrypted_datagram,
}
use ph_k_battle_server.Kcp.Laws.{process_cases}

is_bound_elsewhere-true :
    (a : KcpAeadPacketAdapter) (packet : BattleEncryptedPacket) (remote bound : Bytes)
    → is_empty (session_remote_key packet) ≡ false
    → find (session_remote_key packet) a.remote_endpoint_by_session ≡ some bound
    → bound ≢ remote
    → is_bound_elsewhere a packet remote ≡ true
unfolding is_bound_elsewhere
is_bound_elsewhere-true a packet remote bound named known other =
    ground (arith, bytes_eq_iff bound remote)

known_twice : (x y : Bytes) → some x ≡ some y → x ≡ y
known_twice x y h = ground (arith, h)

-- A written binding that differs from the one before is the new one.
moved_by_bind :
    (written key remote before after : Bytes) (old : Option Bytes)
    → old ≡ some before
    → (if is_empty written then old else (if bytes_eq written key then some remote else old))
      ≡ some after
    → before ≢ after
    → (is_empty written ≡ false) × (written ≡ key) × (after ≡ remote)
moved_by_bind written key remote before after old known found differ =
    ground (arith, bytes_eq_iff written key)

module _ (b : Backend) where
  adapter_reason-some :
      (server : b.Server) (a : KcpAeadPacketAdapter) (packet : BattleEncryptedPacket)
      (datagram : UdpDatagram)
      → is_bound_type packet.header.payload_type ≡ true
      → is_bound_elsewhere a packet datagram.remote_endpoint ≡ true
      → (adapter_reason b server a packet datagram ≡ none)
      → false ≡ true
  unfolding adapter_reason
  adapter_reason-some server a packet datagram bound elsewhere h = ground arith

  -- An input, mode action or ping of a session that is bound to another address is refused before
  -- the server and the endpoint see it, and leaves the bindings as they are.
  pub foreign_address_refused :
      (server : b.Server) (endpoint : b.Endpoint) (a : KcpAeadPacketAdapter)
      (packet : BattleEncryptedPacket) (datagram : UdpDatagram) (bound : Bytes)
      → is_bound_type packet.header.payload_type ≡ true
      → is_empty (session_remote_key packet) ≡ false
      → find (session_remote_key packet) a.remote_endpoint_by_session ≡ some bound
      → bound ≢ datagram.remote_endpoint
      → let ((server', endpoint', a'), result) =
          process_encrypted_datagram b server endpoint a packet datagram in
        (result.ok ≡ false)
        × (server' ≡ server)
        × (endpoint' ≡ endpoint)
        × (a'.remote_endpoint_by_session ≡ a.remote_endpoint_by_session)
  unfolding note_refused refuse
  foreign_address_refused server endpoint a packet datagram bound typed named known other =
      let elsewhere =
        is_bound_elsewhere-true a packet datagram.remote_endpoint bound named known other in
      elim (process_cases b server endpoint a packet datagram) [
        | inl (reason, (_, same)) ↦ (
          ap (λ r. r.1.ok) same,
          ap (λ r. r.0.0) same,
          ap (λ r. r.0.1) same,
          ap (λ r. r.0.2.remote_endpoint_by_session) same,
        )
        | inr (inl (good, _, _, _)) ↦
            ground (arith, adapter_reason-some server a packet datagram typed elsewhere good)
        | inr (inr (good, _, _, _)) ↦
            ground (arith, adapter_reason-some server a packet datagram typed elsewhere good)
      ]

  adapter_reason-none :
      (server : b.Server) (a : KcpAeadPacketAdapter) (packet : BattleEncryptedPacket)
      (datagram : UdpDatagram)
      → adapter_reason b server a packet datagram ≡ none
      → is_bound_elsewhere a packet datagram.remote_endpoint ≡ true
      → (is_bound_type packet.header.payload_type ≡ false)
        × ((is_reconnect packet.header.payload_type ≡ false)
            ⊎ (b.is_player_connected server packet.header.match_id packet.header.player_id ≡ false))
  unfolding adapter_reason
  adapter_reason-none server a packet datagram h elsewhere = ground arith

  bind_remote-find :
      (a : KcpAeadPacketAdapter) (packet : BattleEncryptedPacket) (remote key : Bytes)
      → find key (bind_remote a packet remote).remote_endpoint_by_session ≡ (
          if is_empty (session_remote_key packet)
          then find key a.remote_endpoint_by_session
          else (if bytes_eq (session_remote_key packet) key
              then some remote
              else find key a.remote_endpoint_by_session))
  unfolding bind_remote
  bind_remote-find a packet remote key =
      ground
        (arith, find-insert (session_remote_key packet) key remote a.remote_endpoint_by_session)

  -- Where one packet moves a session from an address to another, the packet is the session's, the
  -- server accepted it, it came from the new address, and it is no input, mode action or ping; and
  -- if it is a reconnect, the player was not connected.
  pub rebinding_needs_reconnect :
      (server : b.Server) (endpoint : b.Endpoint) (a : KcpAeadPacketAdapter)
      (packet : BattleEncryptedPacket) (datagram : UdpDatagram) (key before after : Bytes)
      → find key a.remote_endpoint_by_session ≡ some before
      → find key
          (process_encrypted_datagram b server endpoint a packet
            datagram).0.2.remote_endpoint_by_session
        ≡ some after
      → before ≢ after
      → (session_remote_key packet ≡ key)
        × ((b.dispatch_encrypted server packet).1.ok ≡ true)
        × (after ≡ datagram.remote_endpoint)
        × (is_bound_type packet.header.payload_type ≡ false)
        × ((is_reconnect packet.header.payload_type ≡ false)
            ⊎ (b.is_player_connected server packet.header.match_id packet.header.player_id ≡ false))
  unfolding note_refused
  rebinding_needs_reconnect server endpoint a packet datagram key before after known moved differ =
      elim (process_cases b server endpoint a packet datagram) [
        | inl (reason, (_, same)) ↦
            elim (differ (
              known_twice before after (
                sym known
                ∙ sym (ap (λ r. find key r.0.2.remote_endpoint_by_session) same)
                ∙ moved))) [ ]
        | inr (inr (_, _, _, same)) ↦
            elim (differ (
              known_twice before after (
                sym known
                ∙ sym (ap (λ r. find key r.remote_endpoint_by_session) same)
                ∙ moved))) [ ]
        | inr (inl (good, _, accepted, same)) ↦
            let found =
              sym (bind_remote-find a packet datagram.remote_endpoint key)
              ∙ sym (ap (λ r. find key r.remote_endpoint_by_session) same)
              ∙ moved in
            let (named, matches, from) =
              moved_by_bind (session_remote_key packet) key datagram.remote_endpoint before after
                (find key a.remote_endpoint_by_session) known found differ in
            let elsewhere =
              is_bound_elsewhere-true a packet datagram.remote_endpoint before named
                (ap (λ k. find k a.remote_endpoint_by_session) matches ∙ known)
                (λ e. differ (e ∙ sym from)) in
            let (untyped, free) = adapter_reason-none server a packet datagram good elsewhere in
            (matches, accepted, from, untyped, free)
      ]
