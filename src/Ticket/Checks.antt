-- ===== src/Ticket/Checks.antt =====
-- `TicketVerifier::Verify` of src/ticket.cpp: the checks in their order, each as a test and the reason
-- that it gives when it is met.
use Prim.Native.String.{String}
use ph_k_battle_server.Base.{
  ℕ, Bool, true, false, ◌&&◌, ◌||◌, not, List, [], ◌∷◌, ◌++◌, Option, none, some, ltb, ◌==◌,
  if◌then◌else◌, length, is_empty, is_some, Bytes, codes, bytes_eq,
}
use ph_k_battle_server.Base.Int.{pos, ltb_ℤ}
use ph_k_battle_server.Protocol.{is_compatible}
use ph_k_battle_server.Protocol.Nonce.{is_hex}
use ph_k_battle_server.Protocol.Json.{has_prefix, find_bytes}
use ph_k_battle_server.Protocol.ModeAction.{lower_ascii}
use ph_k_battle_server.CardHand.{Amounts, card_hand_limit, find_card_definition}
use ph_k_battle_server.Ticket.{
  BattleTicket, SignedBattleTicket, TicketVerificationOptions, VerificationResult, EnergyText,
  is_valid_audit_token,
}
use ph_k_battle_server.Ticket.Decimal.{parse_decimal_int64_text}

abbrev pub card_deck_limit : ℕ
card_deck_limit = 20

unfoldable pub looks_like_sha256_ref : Bytes → Bool
looks_like_sha256_ref value = not (ltb (length value) 10) && has_prefix (codes "sha256:") value

unfoldable pub looks_like_raw_bearer_session : Bytes → Bool
looks_like_raw_bearer_session value =
    let lowered = lower_ascii value in
    has_prefix (codes "bearer ") lowered
    || (has_prefix (codes "jwt:") lowered || is_some (find_bytes (codes ".eyj") lowered))

-- A test that refuses, and its reason.
abbrev pub Check : Type 0
Check = Bool × String

-- The reason of the first test that is met: the early returns of the code.
unfoldable pub first_failure : List Check → Option String
first_failure [] = none
first_failure ((refused, reason) ∷ checks) =
    let later = first_failure checks in if refused then some reason else later

-- The loop that compares the hand with the front of the deck.
unfoldable pub is_front_of : List Bytes → List Bytes → Bool
is_front_of [] deck = true
is_front_of (card ∷ hand) [] = false
is_front_of (card ∷ hand) (top ∷ deck) = bytes_eq card top && is_front_of hand deck

-- A required text that is given and not met.
abbrev pub is_mismatched : Bytes → Bytes → Bool
is_mismatched required value = not (is_empty required) && not (bytes_eq value required)

unfoldable pub identity_checks : {Double : Type 0} → BattleTicket Double → List Check
identity_checks ticket =
    (not (is_compatible ticket.version), "version_incompatible")
    ∷ (
      is_empty ticket.ticket_id
          || (is_empty ticket.match_id
              || (is_empty ticket.user_id
                  || (is_empty ticket.player_id || is_empty ticket.mode_id))),
      "ticket_identity_missing",
    )
    ∷ (not (is_valid_audit_token ticket.ticket_id), "ticket_id_invalid")
    ∷ (not (is_valid_audit_token ticket.match_id), "match_id_invalid")
    ∷ (not (is_valid_audit_token ticket.user_id), "user_id_invalid")
    ∷ (not (is_valid_audit_token ticket.player_id), "player_id_invalid")
    ∷ (not (is_valid_audit_token ticket.mode_id), "mode_id_invalid")
    ∷ []

unfoldable pub endpoint_checks :
    {Double : Type 0} → BattleTicket Double → TicketVerificationOptions → List Check
endpoint_checks ticket options =
    (is_empty ticket.battle_server_id || is_empty ticket.endpoint, "battle_endpoint_missing")
    ∷ (
      is_mismatched options.required_battle_server_id ticket.battle_server_id,
      "battle_server_mismatch",
    )
    ∷ (is_mismatched options.required_endpoint ticket.endpoint, "endpoint_mismatch")
    ∷ (not (looks_like_sha256_ref ticket.deck_snapshot_hash), "deck_snapshot_hash_invalid")
    ∷ []

unfoldable pub time_checks :
    {Double : Type 0} → BattleTicket Double → TicketVerificationOptions → List Check
time_checks ticket options =
    (is_empty ticket.ruleset_version, "ruleset_missing")
    ∷ (
      is_mismatched ticket.version.ruleset_version ticket.ruleset_version,
      "ruleset_version_mismatch",
    )
    ∷ (
      ltb (length ticket.ticket_nonce_hex) 24 || not (is_hex ticket.ticket_nonce_hex),
      "ticket_nonce_invalid",
    )
    ∷ (
      not (ltb_ℤ (pos 0) ticket.issued_at_ms)
          || not (ltb_ℤ ticket.issued_at_ms ticket.expires_at_ms),
      "ticket_time_invalid",
    )
    ∷ (
      ltb_ℤ (pos 0) options.now_ms && not (ltb_ℤ options.now_ms ticket.expires_at_ms),
      "ticket_expired",
    )
    ∷ (looks_like_raw_bearer_session ticket.business_session_id, "raw_business_session_rejected")
    ∷ []

unfoldable pub signature_checks :
    {Double : Type 0} → SignedBattleTicket Double → TicketVerificationOptions → List Check
signature_checks signed options =
    (not (bytes_eq signed.signature_alg (codes "ED25519")), "signature_alg_unsupported")
    ∷ (is_mismatched options.required_key_id signed.key_id, "signature_key_mismatch")
    ∷ (
      is_empty signed.key_id || (is_empty signed.signature_hex || is_empty signed.public_key_hex),
      "signature_fields_missing",
    )
    ∷ (
      not (length signed.public_key_hex == 64) || not (is_hex signed.public_key_hex),
      "ed25519_public_key_shape_invalid",
    )
    ∷ (
      not (length signed.signature_hex == 128) || not (is_hex signed.signature_hex),
      "ed25519_signature_shape_invalid",
    )
    ∷ (not signed.server_authoritative, "ticket_not_server_authoritative")
    ∷ []

module _ (m : Amounts) (t : EnergyText m.Double) where
  -- The loop over the cards of a hand or a deck, with the reasons of its two tests.
  unfoldable pub card_checks : String → String → List Bytes → List Check
  card_checks no_id unknown [] = []
  card_checks no_id unknown (card_id ∷ cards) =
      (is_empty card_id, no_id)
      ∷ (not (is_some (find_card_definition m card_id)), unknown)
      ∷ card_checks no_id unknown cards

  unfoldable pub hand_checks : BattleTicket m.Double → List Check
  hand_checks ticket =
      (ltb card_hand_limit (length ticket.hand_card_ids), "hand_too_many_cards")
      ∷ card_checks "hand_card_id_empty" "hand_card_not_in_catalog" ticket.hand_card_ids

  -- Of a deck that the ticket has.
  unfoldable pub given_deck_checks : List Bytes → List Bytes → List Check
  given_deck_checks hand deck =
      ((ltb card_deck_limit (length deck), "deck_too_many_cards")
        ∷ card_checks "deck_card_id_empty" "deck_card_not_in_catalog" deck)
      ++ ((ltb (length deck) (length hand), "deck_hand_not_prefix")
          ∷ (not (is_front_of hand deck), "deck_hand_not_prefix")
          ∷ [])

  unfoldable pub deck_checks : BattleTicket m.Double → List Check
  deck_checks ticket =
      if is_empty ticket.deck_card_ids
      then []
      else given_deck_checks ticket.hand_card_ids ticket.deck_card_ids

  unfoldable pub opening_checks : BattleTicket m.Double → List Check
  opening_checks ticket =
      (
        not (t.is_finite ticket.initial_energy)
            || (m.less_than ticket.initial_energy (m.decimal 0 0)
                || m.less_than (m.decimal 10 0) ticket.initial_energy),
        "initial_energy_invalid",
      )
      ∷ (not (is_some (parse_decimal_int64_text ticket.server_seed_decimal)), "server_seed_invalid")
      ∷ []

  unfoldable pub all_checks : SignedBattleTicket m.Double → TicketVerificationOptions → List Check
  all_checks signed options =
      identity_checks signed.ticket
      ++ (endpoint_checks signed.ticket options
          ++ (hand_checks signed.ticket
              ++ (deck_checks signed.ticket
                  ++ (opening_checks signed.ticket
                      ++ (time_checks signed.ticket options ++ signature_checks signed options)))))

  unfoldable pub verify :
      SignedBattleTicket m.Double → TicketVerificationOptions → VerificationResult
  verify signed options = elim (first_failure (all_checks signed options)) [
    | some reason ↦ record { ok = false; reason = reason; warnings = [] }
    | none ↦ record {
      ok = true;
      reason = "ok";
      warnings =
          if options.allow_dev_signature_shape_only then "dev_signature_shape_only" ∷ [] else [];
    }
  ]
