-- ===== src/Handshake/Tests.antt =====
-- The handshake at a concrete hello.
use ph_k_battle_server.Base.{ℕ, ◌≡◌, refl, true, [], ◌∷◌, codes, bytes_eq}
use ph_k_battle_server.Base.Int.{pos}
use ph_k_battle_server.Base.Decimal.{to_string}
use ph_k_battle_server.Protocol.{VersionStamp}
use ph_k_battle_server.Ticket.{BattleTicket}
use ph_k_battle_server.Handshake.{
  BattleHandshakeHello, accept, accepted, supports_aead, has_any_non_zero,
}
use ph_k_battle_server.Handshake.Laws.{Answers, accept-Answers}

abbrev stamp : VersionStamp
stamp = record {
  protocol_version = 1;
  business_api_version = [];
  battle_api_version = codes "0.1.0-draft";
  ruleset_version = [];
}

abbrev ticket : BattleTicket ℕ
ticket = record {
  version = stamp;
  ticket_id = codes "t-1";
  match_id = codes "m.1";
  user_id = codes "u_1";
  player_id = codes "p1";
  mode_id = codes "duel";
  battle_server_id = codes "s1";
  endpoint = codes "host:1";
  deck_snapshot_hash = codes "sha256:abc";
  ruleset_version = codes "r1";
  ticket_nonce_hex = codes "0123456789abcdef01234567";
  issued_at_ms = pos 10;
  expires_at_ms = pos 20;
  business_session_id = [];
  hand_card_ids = [];
  deck_card_ids = [];
  initial_energy = 0;
  server_seed_decimal = codes "7";
}

abbrev hello : BattleHandshakeHello ℕ
hello = record {
  version = stamp;
  battle_ticket = record {
    ticket = ticket;
    signature_alg = codes "ED25519";
    key_id = codes "k1";
    signature_hex = [];
    public_key_hex = [];
    server_authoritative = true;
  };
  client_x25519_pub = 0 ∷ 4 ∷ [];
  client_random = 0 ∷ 0 ∷ 9 ∷ [];
  supported_aead = codes "AES" ∷ codes "XCHACHA20_POLY1305" ∷ [];
}

second_choice :
    (accept to_string stamp hello ticket (codes "k1")).selected_aead ≡ codes "XCHACHA20_POLY1305"
unfolding accept accepted supports_aead has_any_non_zero bytes_eq
second_choice = refl

accept-Answers_example :
    Answers stamp hello ticket (codes "k1") (accept to_string stamp hello ticket (codes "k1"))
accept-Answers_example = accept-Answers to_string stamp hello ticket (codes "k1")
