-- ===== src/Ticket.antt =====
-- src/ticket.cpp and include/phk/battle/ticket.hpp: the tickets of the lobby, their verifier and their
-- canonical text. The energy is a double, of which the code uses `Amounts`, a test whether
-- it is finite, and a printer.
pub mod Digits
pub mod Decimal
pub mod Checks
pub mod Verification
pub mod Verified
mod Tests
use Prim.Native.String.{String}
use ph_k_battle_server.Base.{
  ℕ, zero, suc, ◌+◌, ◌-◌, ◌*◌, ◌≡◌, Bool, true, false, ◌&&◌, ◌||◌, not, List, [], ◌∷◌, ◌++◌, Option,
  none, some, ltb, leb, ◌==◌, if◌then◌else◌, length, all, is_empty, is_some, Bytes, codes, bytes_eq,
}
use ph_k_battle_server.Base.Int.{ℤ, pos, negsuc, ◌≤ℤ◌, ltb_ℤ}
use ph_k_battle_server.Base.Decimal.{to_string, to_string_ℤ}
use ph_k_battle_server.Protocol.{VersionStamp}
use ph_k_battle_server.CardHand.{Amounts}

pub record BattleTicket (Double : Type 0) : Type 0 where
  pub version : VersionStamp
  pub ticket_id : Bytes
  pub match_id : Bytes
  pub user_id : Bytes
  pub player_id : Bytes
  pub mode_id : Bytes
  pub battle_server_id : Bytes
  pub endpoint : Bytes
  pub deck_snapshot_hash : Bytes
  pub ruleset_version : Bytes
  pub ticket_nonce_hex : Bytes
  pub issued_at_ms : ℤ
  pub expires_at_ms : ℤ
  pub business_session_id : Bytes
  pub hand_card_ids : List Bytes
  pub deck_card_ids : List Bytes
  pub initial_energy : Double
  pub server_seed_decimal : Bytes

pub record SignedBattleTicket (Double : Type 0) : Type 0 where
  pub ticket : BattleTicket Double
  pub signature_alg : Bytes
  pub key_id : Bytes
  pub signature_hex : Bytes
  pub public_key_hex : Bytes
  pub server_authoritative : Bool

pub record TicketVerificationOptions : Type 0 where
  pub now_ms : ℤ
  pub required_battle_server_id : Bytes
  pub required_endpoint : Bytes
  pub required_key_id : Bytes
  pub allow_dev_signature_shape_only : Bool

pub record VerificationResult : Type 0 where
  pub ok : Bool
  pub reason : String
  pub warnings : List String

-- What the code takes from a double beyond `Amounts`: `std::isfinite` and `operator<<`.
pub record EnergyText (Double : Type 0) : Type 0 where
  pub is_finite : Double → Bool
  pub print : Double → Bytes

-- `std::isalnum` in the C locale.
unfoldable pub is_alnum : ℕ → Bool
is_alnum ch =
    (leb b'0' ch && leb ch b'9') || ((leb b'a' ch && leb ch b'z') || (leb b'A' ch && leb ch b'Z'))

unfoldable pub is_allowed_audit_token_char : ℕ → Bool
is_allowed_audit_token_char ch = is_alnum ch || ((ch == b'_') || ((ch == b'-') || (ch == b'.')))

unfoldable pub is_valid_audit_token : Bytes → Bool
is_valid_audit_token value = not (is_empty value) && all is_allowed_audit_token_char value

-- A list of texts, each with the separator behind it.
unfoldable pub each_terminated : ℕ → List Bytes → Bytes
each_terminated separator [] = []
each_terminated separator (text ∷ texts) = text ++ (separator ∷ each_terminated separator texts)

unfoldable pub canonical_ticket_payload :
    {Double : Type 0} → (Double → Bytes) → BattleTicket Double → Bytes
canonical_ticket_payload print ticket =
    each_terminated b'|' (
      to_string ticket.version.protocol_version
      ∷ ticket.version.business_api_version
      ∷ ticket.version.battle_api_version
      ∷ ticket.version.ruleset_version
      ∷ ticket.ticket_id
      ∷ ticket.match_id
      ∷ ticket.user_id
      ∷ ticket.player_id
      ∷ ticket.mode_id
      ∷ ticket.battle_server_id
      ∷ ticket.endpoint
      ∷ ticket.deck_snapshot_hash
      ∷ ticket.ruleset_version
      ∷ ticket.ticket_nonce_hex
      ∷ to_string_ℤ ticket.issued_at_ms
      ∷ to_string_ℤ ticket.expires_at_ms
      ∷ ticket.business_session_id
      ∷ [])
    ++ (codes "hand="
        ++ (each_terminated b'/' ticket.hand_card_ids
            ++ (b'|'
                ∷ (codes "deck="
                    ++ (each_terminated b'/' ticket.deck_card_ids
                        ++ (b'|'
                            ∷ (codes "energy="
                                ++ (print ticket.initial_energy
                                    ++ (b'|'
                                        ∷ (codes "seed=" ++ ticket.server_seed_decimal))))))))))
