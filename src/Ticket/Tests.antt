-- ===== src/Ticket/Tests.antt =====
-- The verifier at concrete tickets, and the theorems at inputs that meet their premises.
use ph_k_battle_server.Base.{
  ℕ, ◌+◌, ◌-◌, ◌*◌, ◌^◌, ◌≡◌, ◌↔◌, refl, true, [], ◌∷◌, ◌++◌, none, some, max, ltb, Bytes, codes,
  bytes_eq,
}
use ph_k_battle_server.Base.Int.{pos, negsuc}
use ph_k_battle_server.Base.Decimal.{to_string, read_decimal}
use ph_k_battle_server.Protocol.{is_compatible}
use ph_k_battle_server.Protocol.Nonce.{is_hex, is_xdigit}
use ph_k_battle_server.Protocol.Json.{has_prefix, find_bytes}
use ph_k_battle_server.Protocol.ModeAction.{lower_ascii, to_lower}
use ph_k_battle_server.CardHand.{Amounts, catalog, find_card_definition, find_row}
use ph_k_battle_server.Ticket.{
  BattleTicket, SignedBattleTicket, TicketVerificationOptions, EnergyText, is_valid_audit_token,
  is_allowed_audit_token_char, is_alnum,
}
use ph_k_battle_server.Ticket.Decimal.{
  parse_decimal_int64_text, IsDecimalOf, parse_decimal_int64_text_iff,
}
use ph_k_battle_server.Ticket.Digits.{is_plain_number, is_digit}
use ph_k_battle_server.Ticket.Checks.{
  first_failure, is_front_of, looks_like_sha256_ref, looks_like_raw_bearer_session, identity_checks,
  endpoint_checks, time_checks, signature_checks, card_checks, given_deck_checks, hand_checks,
  deck_checks, opening_checks, all_checks, verify,
}
use ph_k_battle_server.Ticket.Verified.{verify-IsVerified}
use ph_k_battle_server.Ticket.Verification.{IsVerified}

-- Amounts as whole numbers of 1 / 10000.
abbrev amounts : Amounts
amounts = record {
  Double = ℕ;
  decimal = λ m k. m * 10 ^ (4 - k);
  add = λ a b. a + b;
  sub = λ a b. a - b;
  max_of = λ a b. max a b;
  less_than = ltb;
}

abbrev plain_energy : EnergyText ℕ
plain_energy = record { is_finite = λ e. true; print = to_string }

abbrev sixteen : Bytes
sixteen = codes "0123456789abcdef"

abbrev public_key : Bytes
public_key = sixteen ++ (sixteen ++ (sixteen ++ sixteen))

abbrev sample_ticket : BattleTicket ℕ
sample_ticket = record {
  version = record {
    protocol_version = 1;
    business_api_version = [];
    battle_api_version = codes "0.1.0-draft";
    ruleset_version = codes "r1";
  };
  ticket_id = codes "t-1";
  match_id = codes "m.1";
  user_id = codes "u_1";
  player_id = codes "p1";
  mode_id = codes "duel";
  battle_server_id = codes "s1";
  endpoint = codes "host:1";
  deck_snapshot_hash = codes "sha256:abc";
  ruleset_version = codes "r1";
  ticket_nonce_hex = sixteen ++ sixteen;
  issued_at_ms = pos 10;
  expires_at_ms = pos 20;
  business_session_id = codes "session";
  hand_card_ids = codes "focus_lens" ∷ [];
  deck_card_ids = codes "focus_lens" ∷ codes "last_arc" ∷ [];
  initial_energy = 20000;
  server_seed_decimal = codes "-42";
}

abbrev sample : SignedBattleTicket ℕ
sample = record {
  ticket = sample_ticket;
  signature_alg = codes "ED25519";
  key_id = codes "k1";
  signature_hex = public_key ++ public_key;
  public_key_hex = public_key;
  server_authoritative = true;
}

abbrev options : TicketVerificationOptions
options = record {
  now_ms = pos 15;
  required_battle_server_id = codes "s1";
  required_endpoint = [];
  required_key_id = [];
  allow_dev_signature_shape_only = true;
}

sample-passes : (verify amounts plain_energy sample options).ok ≡ true
unfolding verify all_checks first_failure identity_checks endpoint_checks hand_checks deck_checks
    given_deck_checks opening_checks time_checks signature_checks card_checks is_front_of
    is_compatible is_valid_audit_token is_allowed_audit_token_char is_alnum looks_like_sha256_ref
    looks_like_raw_bearer_session has_prefix find_bytes lower_ascii to_lower is_hex is_xdigit
    catalog find_card_definition find_row bytes_eq parse_decimal_int64_text is_plain_number is_digit
    read_decimal
sample-passes = refl

-- A deck that does not start with the hand.
other_deck :
    (verify amounts plain_energy
      (record sample { ticket = record sample_ticket { deck_card_ids = codes "last_arc" ∷ [] } })
      options).reason
    ≡ "deck_hand_not_prefix"
unfolding verify all_checks first_failure identity_checks endpoint_checks hand_checks deck_checks
    given_deck_checks opening_checks time_checks signature_checks card_checks is_front_of
    is_compatible is_valid_audit_token is_allowed_audit_token_char is_alnum looks_like_sha256_ref
    looks_like_raw_bearer_session has_prefix find_bytes lower_ascii to_lower is_hex is_xdigit
    catalog find_card_definition find_row bytes_eq parse_decimal_int64_text is_plain_number is_digit
    read_decimal
other_deck = refl

verify-IsVerified_example : IsVerified amounts plain_energy sample options
verify-IsVerified_example = verify-IsVerified amounts plain_energy sample options sample-passes

least : parse_decimal_int64_text (codes "-9223372036854775808") ≡ some (negsuc 9223372036854775807)
unfolding parse_decimal_int64_text is_plain_number is_digit read_decimal
least = refl

too_large : parse_decimal_int64_text (codes "9223372036854775808") ≡ none
unfolding parse_decimal_int64_text is_plain_number is_digit read_decimal
too_large = refl

parse_decimal_int64_text_iff_example :
    (parse_decimal_int64_text (codes "-42") ≡ some (negsuc 41))
    ↔ IsDecimalOf (codes "-42") (negsuc 41)
parse_decimal_int64_text_iff_example = parse_decimal_int64_text_iff (codes "-42") (negsuc 41)
