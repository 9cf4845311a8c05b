-- ===== src/Handshake.antt =====
-- src/handshake.cpp and include/phk/battle/handshake.hpp: the development handshake, with material that
-- FNV-1a and a xorshift generator give. Arrays of 32 bytes are lists.
pub mod Laws
mod Tests
use Prim.Native.Nat.{bit_xor}
use Prim.Native.String.{String}
use ph_k_battle_server.Base.{
  ℕ, zero, suc, ◌+◌, ◌*◌, ◌/◌, ◌%◌, ◌^◌, Bool, true, false, ◌&&◌, ◌||◌, not, List, [], ◌∷◌, ◌++◌,
  ltb, leb, ◌==◌, if◌then◌else◌, length, is_empty, Bytes, codes, bytes_eq,
}
use ph_k_battle_server.Base.Decimal.{to_string}
use ph_k_battle_server.LobbyRng.{hex_text, zero_fill}
use ph_k_battle_server.Protocol.{VersionStamp}
use ph_k_battle_server.Protocol.Nonce.{hash_append, hex64}
use ph_k_battle_server.Ticket.{BattleTicket, SignedBattleTicket, canonical_ticket_payload}

pub record BattleHandshakeHello (Double : Type 0) : Type 0 where
  pub version : VersionStamp
  pub battle_ticket : SignedBattleTicket Double
  pub client_x25519_pub : Bytes
  pub client_random : Bytes
  pub supported_aead : List Bytes

pub record BattleHandshakeAccept : Type 0 where
  pub ok : Bool
  pub reason : String
  pub version : VersionStamp
  pub match_id : Bytes
  pub player_id : Bytes
  pub server_x25519_pub : Bytes
  pub server_random : Bytes
  pub selected_aead : Bytes
  pub kcp_conv : ℕ
  pub key_id : Bytes
  pub transcript_hash_hex : Bytes
  pub client_to_server_key_ref : Bytes
  pub server_to_client_key_ref : Bytes
  pub server_signature_alg : Bytes
  pub server_signature_hex : Bytes
  pub dev_session_id : Bytes

unfoldable pub fnv1a : Bytes → ℕ
fnv1a value = hash_append 1469598103934665603 value

-- The three steps of the generator, in 64 bits.
unfoldable pub xorshift : ℕ → ℕ
xorshift state =
    let a = bit_xor state (state * 8192 % 2 ^ 64) in
    let b = bit_xor a (a / 128) in bit_xor b (b * 131072 % 2 ^ 64)

-- The rounds of `FillDevBytes` that are left, at index i.
unfoldable pub fill_bytes : ℕ → ℕ → ℕ → Bytes
fill_bytes zero i state = []
fill_bytes (suc rounds) i state =
    let next = xorshift state in (next / 2 ^ (i % 8 * 8) % 256) ∷ fill_bytes rounds (i + 1) next

unfoldable pub fill_dev_bytes : Bytes → Bytes
fill_dev_bytes seed = fill_bytes 32 0 (fnv1a seed)

-- The loop of `DevHexMaterial`; a round adds sixteen digits.
unfoldable pub material_loop : ℕ → Bytes → ℕ → ℕ → Bytes → Bytes
material_loop zero seed hex_chars counter out = out
material_loop (suc rounds) seed hex_chars counter out =
    let block = hex64 (fnv1a (seed ++ (b':' ∷ to_string counter))) in
    let more = material_loop rounds seed hex_chars (counter + 1) (out ++ block) in
    if ltb (length out) hex_chars then more else out

-- `resize` cuts the text, or fills it with zeros.
unfoldable pub dev_hex_material : Bytes → ℕ → Bytes
dev_hex_material seed hex_chars = zero_fill hex_chars (material_loop hex_chars seed hex_chars 0 [])

unfoldable pub supports_aead : List Bytes → Bytes → Bool
supports_aead [] name = false
supports_aead (value ∷ values) name =
    if bytes_eq value name then true else supports_aead values name

unfoldable pub has_any_non_zero : Bytes → Bool
has_any_non_zero [] = false
has_any_non_zero (value ∷ values) = not (value == 0) || has_any_non_zero values

unfoldable pub derive_dev_kcp_conv : Bytes → Bytes → ℕ
derive_dev_kcp_conv match_id player_id = fnv1a (match_id ++ (b':' ∷ player_id)) % 2 ^ 32

unfoldable pub aead_list : List Bytes → Bytes
aead_list [] = []
aead_list (aead ∷ rest) = codes "|aead=" ++ (aead ++ aead_list rest)

unfoldable pub transcript :
    {Double : Type 0} → (Double → Bytes) → BattleHandshakeHello Double → BattleTicket Double → Bytes
transcript print hello verified_ticket =
    canonical_ticket_payload print verified_ticket
    ++ (codes "|aead_count="
        ++ (to_string (length hello.supported_aead)
            ++ (aead_list hello.supported_aead
                ++ (codes "|client_x25519_pub="
                    ++ (hex_text hello.client_x25519_pub
                        ++ (codes "|client_random=" ++ hex_text hello.client_random))))))

unfoldable pub dev_transcript_hash :
    {Double : Type 0} → (Double → Bytes) → BattleHandshakeHello Double → BattleTicket Double → Bytes
dev_transcript_hash print hello verified_ticket =
    let input = transcript print hello verified_ticket in
    hex64 (fnv1a input) ++ hex64 (fnv1a (input ++ codes ":2"))

unfoldable pub dev_handshake_key_ref : Bytes → Bytes → Bytes
dev_handshake_key_ref transcript_hash_hex direction_label =
    codes "hkdf-dev:"
    ++ (direction_label
        ++ (b':' ∷ dev_hex_material (transcript_hash_hex ++ (b':' ∷ direction_label)) 32))

unfoldable pub dev_handshake_server_signature : Bytes → Bytes → Bytes
dev_handshake_server_signature transcript_hash_hex server_key_id =
    dev_hex_material (transcript_hash_hex ++ (b':' ∷ (server_key_id ++ codes ":server-signature")))
      128

-- The struct's defaults, for the version of the build.
unfoldable pub fresh_accept : VersionStamp → BattleHandshakeAccept
fresh_accept version = record {
  ok = false;
  reason = "";
  version = version;
  match_id = [];
  player_id = [];
  server_x25519_pub = zero_fill 32 [];
  server_random = zero_fill 32 [];
  selected_aead = [];
  kcp_conv = 0;
  key_id = [];
  transcript_hash_hex = [];
  client_to_server_key_ref = [];
  server_to_client_key_ref = [];
  server_signature_alg = codes "ED25519";
  server_signature_hex = [];
  dev_session_id = [];
}

unfoldable pub accepted :
    {Double : Type 0}
    → (Double → Bytes)
    → BattleHandshakeHello Double
    → BattleTicket Double
    → Bytes
    → BattleHandshakeAccept
accepted print hello verified_ticket server_key_id =
    let hash = dev_transcript_hash print hello verified_ticket in
    record {
      ok = true;
      reason = "ok";
      version = verified_ticket.version;
      match_id = verified_ticket.match_id;
      player_id = verified_ticket.player_id;
      server_x25519_pub = fill_dev_bytes (verified_ticket.match_id ++ codes ":server-pub");
      server_random = fill_dev_bytes (verified_ticket.ticket_nonce_hex ++ codes ":server-random");
      selected_aead =
          if supports_aead hello.supported_aead (codes "CHACHA20_POLY1305")
          then codes "CHACHA20_POLY1305"
          else codes "XCHACHA20_POLY1305";
      kcp_conv = derive_dev_kcp_conv verified_ticket.match_id verified_ticket.player_id;
      key_id = server_key_id;
      transcript_hash_hex = hash;
      client_to_server_key_ref = dev_handshake_key_ref hash (codes "client_to_server");
      server_to_client_key_ref = dev_handshake_key_ref hash (codes "server_to_client");
      server_signature_alg = codes "ED25519";
      server_signature_hex = dev_handshake_server_signature hash server_key_id;
      dev_session_id =
          verified_ticket.match_id
          ++ (b':' ∷ (verified_ticket.player_id ++ (b':' ∷ hex64 (fnv1a hash))));
    }

-- `HandshakeManager::Accept`.
unfoldable pub accept :
    {Double : Type 0}
    → (Double → Bytes)
    → VersionStamp
    → BattleHandshakeHello Double
    → BattleTicket Double
    → Bytes
    → BattleHandshakeAccept
accept print build hello verified_ticket server_key_id =
    if not (has_any_non_zero hello.client_x25519_pub)
    then record (fresh_accept build) { reason = "client_key_missing" }
    else (if not (has_any_non_zero hello.client_random)
        then record (fresh_accept build) { reason = "client_random_missing" }
        else (if not (supports_aead hello.supported_aead (codes "CHACHA20_POLY1305"))
              && not (supports_aead hello.supported_aead (codes "XCHACHA20_POLY1305"))
            then record (fresh_accept build) { reason = "aead_unsupported" }
            else accepted print hello verified_ticket server_key_id))
