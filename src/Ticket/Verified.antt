-- ===== src/Ticket/Verified.antt =====
-- What a ticket that the verifier of src/ticket.cpp lets pass is.
use Prim.Native.String.{String}
use ph_k_battle_server.Base.{
  ◌≤◌, ◌≡◌, refl, ◌⊎◌, inl, inr, true, false, not, List, [], ◌∷◌, ◌++◌, none, arith, if◌then◌else◌,
  length, All, is_empty, is_some, Bytes, codes, bytes_eq_iff, Option-cases,
}
use ph_k_battle_server.Base.Int.{ℤ}
use ph_k_battle_server.CardHand.{Amounts, find_card_definition}
use ph_k_battle_server.Ticket.{SignedBattleTicket, TicketVerificationOptions, EnergyText}
use ph_k_battle_server.Ticket.Decimal.{
  parse_decimal_int64_text, IsDecimalOf, parse_decimal_int64_text_iff,
}
use ph_k_battle_server.Ticket.Checks.{
  first_failure, identity_checks, endpoint_checks, time_checks, signature_checks, card_checks,
  given_deck_checks, hand_checks, deck_checks, opening_checks, all_checks, verify,
}
use ph_k_battle_server.Ticket.Verification.{
  Passes, first_failure-none, All-split, groups_pass, front_of-split, not-false, met, either-false,
  or-false, InCatalog, IsVerified,
}

module _ (m : Amounts) (t : EnergyText m.Double) where
  known_card :
      (card_id : Bytes)
      → not (is_some (find_card_definition m card_id)) ≡ false
      → InCatalog m card_id
  unfolding InCatalog
  known_card card_id h = elim (Option-cases (find_card_definition m card_id)) [
    | inl absent ↦ ground (arith, h, absent)
    | inr found ↦ found
  ]

  known_cards :
      (no_id unknown : String) (cards : List Bytes)
      → All Passes (card_checks m t no_id unknown cards)
      → All (InCatalog m) cards
  unfolding card_checks
  known_cards no_id unknown [] h = tt
  known_cards no_id unknown (card_id ∷ cards) h =
      (known_card card_id h.1.0, known_cards no_id unknown cards h.1.1)

  given_deck :
      (hand deck : List Bytes)
      → All Passes (given_deck_checks m t hand deck)
      → (length deck ≤ 20) × All (InCatalog m) deck × ((rest : List Bytes) × (deck ≡ hand ++ rest))
  unfolding given_deck_checks
  given_deck hand deck h =
      let (cards, front) = All-split (card_checks m t _ _ deck) _ h.1 in
      (
        ground (arith, h.0),
        known_cards _ _ deck cards,
        front_of-split hand deck (not-false _ front.1.0),
      )

  deck_lem :
      (hand deck : List Bytes)
      → All Passes (if is_empty deck then [] else given_deck_checks m t hand deck)
      → (deck ≡ [])
        ⊎ ((length deck ≤ 20)
            × All (InCatalog m) deck
            × ((rest : List Bytes) × (deck ≡ hand ++ rest)))
  deck_lem hand [] h = inl refl
  deck_lem hand (card ∷ deck) h = inr (given_deck hand (card ∷ deck) h)

  seed_lem :
      (text : Bytes)
      → not (is_some (parse_decimal_int64_text text)) ≡ false
      → (z : ℤ) × IsDecimalOf text z
  seed_lem text h = elim (Option-cases (parse_decimal_int64_text text)) [
    | inl absent ↦ ground (arith, h, absent)
    | inr (z, found) ↦ (z, (parse_decimal_int64_text_iff text z).0 found)
  ]

  no_failure :
      (signed : SignedBattleTicket m.Double) (options : TicketVerificationOptions)
      → (verify m t signed options).ok ≡ true
      → first_failure (all_checks m t signed options) ≡ none
  unfolding verify
  no_failure signed options h =
      elim (Option-cases (first_failure (all_checks m t signed options))) [
        | inl passed ↦ passed
        | inr (reason, failed) ↦ ground (arith, h, failed)
      ]

  verified :
      (signed : SignedBattleTicket m.Double) (options : TicketVerificationOptions)
      → All Passes (all_checks m t signed options)
      → IsVerified m t signed options
  unfolding all_checks identity_checks endpoint_checks hand_checks opening_checks time_checks
      deck_checks signature_checks
  verified signed options h =
      let ticket = signed.ticket in
      let (i, e, c, d, o, times, s) =
        groups_pass (identity_checks ticket) (endpoint_checks ticket options)
          (hand_checks m t ticket) (deck_checks m t ticket) (opening_checks m t ticket)
          (time_checks ticket options) (signature_checks signed options) h in
      record {
        compatible = not-false _ i.0;
        tokens = (
          not-false _ i.1.1.0,
          (
            not-false _ i.1.1.1.0,
            (
              not-false _ i.1.1.1.1.0,
              (not-false _ i.1.1.1.1.1.0, (not-false _ i.1.1.1.1.1.1.0, tt)),
            ),
          ),
        );
        for_this_server = met options.required_battle_server_id ticket.battle_server_id e.1.0;
        for_this_endpoint = met options.required_endpoint ticket.endpoint e.1.1.0;
        hand_bound = ground (arith, c.0);
        hand_known = known_cards _ _ ticket.hand_card_ids c.1;
        deck_of_hand = deck_lem ticket.hand_card_ids ticket.deck_card_ids d;
        energy_finite = ground (arith, o.0);
        energy_lower = ground (arith, o.0);
        energy_upper = ground (arith, o.0);
        seed = seed_lem ticket.server_seed_decimal o.1.0;
        rules = met ticket.version.ruleset_version ticket.ruleset_version times.1.0;
        nonce_length = ground (arith, times.1.1.0);
        nonce_hex = ground (arith, times.1.1.0);
        issued = (or-false _ _ times.1.1.1.0).0;
        lasting = (or-false _ _ times.1.1.1.0).1;
        not_expired = either-false _ _ times.1.1.1.1.0;
        no_bearer = times.1.1.1.1.1.0;
        algorithm = (bytes_eq_iff signed.signature_alg (codes "ED25519")).0 (not-false _ s.0);
        key = met options.required_key_id signed.key_id s.1.0;
        public_key = (ground (arith, s.1.1.1.0), ground (arith, s.1.1.1.0));
        signature = (ground (arith, s.1.1.1.1.0), ground (arith, s.1.1.1.1.0));
        authoritative = not-false _ s.1.1.1.1.1.0;
      }

  -- A ticket passes only if its version is compatible, its five ids are tokens, it is for this server and
  -- endpoint if those are required, its hand has at most four cards and its deck, if it has
  -- one, at most twenty, all of them in the catalog, with the hand in front; if its energy is
  -- finite and in range, its seed the decimal text of a 64-bit integer, its ruleset that of the
  -- version, its nonce hexadecimal and long enough, its times in order and not past, its
  -- session not a bearer token, and its signature of the shape and key required.
  pub verify-IsVerified :
      (signed : SignedBattleTicket m.Double) (options : TicketVerificationOptions)
      → (verify m t signed options).ok ≡ true
      → IsVerified m t signed options
  verify-IsVerified signed options h =
      verified signed options
        (first_failure-none (all_checks m t signed options) (no_failure signed options h))
