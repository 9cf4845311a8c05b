-- ===== src/Ticket/Verification.antt =====
-- What the checks of `TicketVerifier::Verify` of src/ticket.cpp ask for.
use ph_k_battle_server.Base.{
  ◌≤◌, ◌≡◌, refl, ◌⊎◌, inl, inr, Bool, true, false, ◌&&◌, ◌||◌, not, List, [], ◌∷◌, ◌++◌, none,
  some, arith, length, All, is_empty, Bytes, codes, bytes_eq, bytes_eq_iff,
}
use ph_k_battle_server.Base.Int.{ℤ, pos, ltb_ℤ}
use ph_k_battle_server.Protocol.{is_compatible}
use ph_k_battle_server.Protocol.Nonce.{is_hex}
use ph_k_battle_server.CardHand.{Amounts, CardDefinition, find_card_definition}
use ph_k_battle_server.Ticket.{
  SignedBattleTicket, TicketVerificationOptions, EnergyText, is_valid_audit_token,
}
use ph_k_battle_server.Ticket.Decimal.{IsDecimalOf}
use ph_k_battle_server.Ticket.Checks.{
  Check, first_failure, is_front_of, looks_like_raw_bearer_session,
}

abbrev pub Passes : Check → Type 0
Passes check = check.0 ≡ false

pub first_failure-none : (checks : List Check) → first_failure checks ≡ none → All Passes checks
unfolding first_failure
first_failure-none [] h = tt
first_failure-none ((true, reason) ∷ checks) h = cc
first_failure-none ((false, reason) ∷ checks) h = (refl, first_failure-none checks h)

pub All-split : (xs ys : List Check) → All Passes (xs ++ ys) → All Passes xs × All Passes ys
All-split [] ys h = (tt, h)
All-split (x ∷ xs) ys h = let (hx, hy) = All-split xs ys h.1 in ((h.0, hx), hy)

pub groups_pass :
    (i e c d o t s : List Check)
    → All Passes (i ++ (e ++ (c ++ (d ++ (o ++ (t ++ s))))))
    → All Passes i
      × All Passes e
      × All Passes c
      × All Passes d
      × All Passes o
      × All Passes t
      × All Passes s
groups_pass i e c d o t s h =
    let (hi, h1) = All-split i (e ++ (c ++ (d ++ (o ++ (t ++ s))))) h in
    let (he, h2) = All-split e (c ++ (d ++ (o ++ (t ++ s)))) h1 in
    let (hc, h3) = All-split c (d ++ (o ++ (t ++ s))) h2 in
    let (hd, h4) = All-split d (o ++ (t ++ s)) h3 in
    let (ho, h5) = All-split o (t ++ s) h4 in
    let (ht, hs) = All-split t s h5 in (hi, he, hc, hd, ho, ht, hs)

-- The deck starts with the hand.
pub front_of-split :
    (hand deck : List Bytes)
    → is_front_of hand deck ≡ true
    → (rest : List Bytes) × (deck ≡ hand ++ rest)
unfolding is_front_of
front_of-split [] deck h = (deck, refl)
front_of-split (card ∷ hand) [] h = cc
front_of-split (card ∷ hand) (top ∷ deck) h =
    let (rest, e) = front_of-split hand deck (ground (arith, h)) in
    (rest, ground (arith, h, e, bytes_eq_iff card top))

pub not-false : (b : Bool) → not b ≡ false → b ≡ true
not-false true h = refl
not-false false h = cc

-- A required text is absent or met.
pub met :
    (required value : Bytes)
    → (not (is_empty required) && not (bytes_eq value required)) ≡ false
    → (required ≡ []) ⊎ (value ≡ required)
met [] value h = inl refl
met (c ∷ cs) value h = inr ((bytes_eq_iff value (c ∷ cs)).0 (not-false _ h))

pub either-false : (a b : Bool) → (a && not b) ≡ false → (a ≡ false) ⊎ (b ≡ true)
either-false false b h = inl refl
either-false true b h = inr (not-false b h)

pub or-false : (a b : Bool) → (not a || not b) ≡ false → (a ≡ true) × (b ≡ true)
or-false true true h = (refl, refl)
or-false true false h = cc
or-false false b h = cc

-- An identifier of the catalog.
unfoldable pub InCatalog : (m : Amounts) → Bytes → Type 0
InCatalog m card_id =
    (definition : CardDefinition m.Double) × (find_card_definition m card_id ≡ some definition)

pub record IsVerified (m : Amounts) (t : EnergyText m.Double) (signed : SignedBattleTicket m.Double)
    (options : TicketVerificationOptions) : Type 0 where
  pub compatible : is_compatible signed.ticket.version ≡ true
  pub tokens :
      All
        (λ text. is_valid_audit_token text ≡ true)
        (signed.ticket.ticket_id ∷ signed.ticket.match_id ∷ signed.ticket.user_id
          ∷ signed.ticket.player_id ∷ signed.ticket.mode_id ∷ [])
  pub for_this_server :
      (options.required_battle_server_id ≡ [])
      ⊎ (signed.ticket.battle_server_id ≡ options.required_battle_server_id)
  pub for_this_endpoint :
      (options.required_endpoint ≡ []) ⊎ (signed.ticket.endpoint ≡ options.required_endpoint)
  pub hand_bound : length signed.ticket.hand_card_ids ≤ 4
  pub hand_known : All (InCatalog m) signed.ticket.hand_card_ids
  pub deck_of_hand :
      (signed.ticket.deck_card_ids ≡ [])
      ⊎ ((length signed.ticket.deck_card_ids ≤ 20)
          × All (InCatalog m) signed.ticket.deck_card_ids
          × ((rest : List Bytes) × (signed.ticket.deck_card_ids
                ≡ signed.ticket.hand_card_ids ++ rest)))
  pub energy_finite : t.is_finite signed.ticket.initial_energy ≡ true
  pub energy_lower : m.less_than signed.ticket.initial_energy (m.decimal 0 0) ≡ false
  pub energy_upper : m.less_than (m.decimal 10 0) signed.ticket.initial_energy ≡ false
  pub seed : (z : ℤ) × IsDecimalOf signed.ticket.server_seed_decimal z
  pub rules :
      (signed.ticket.version.ruleset_version ≡ [])
      ⊎ (signed.ticket.ruleset_version ≡ signed.ticket.version.ruleset_version)
  pub nonce_length : 24 ≤ length signed.ticket.ticket_nonce_hex
  pub nonce_hex : is_hex signed.ticket.ticket_nonce_hex ≡ true
  pub issued : ltb_ℤ (pos 0) signed.ticket.issued_at_ms ≡ true
  pub lasting : ltb_ℤ signed.ticket.issued_at_ms signed.ticket.expires_at_ms ≡ true
  pub not_expired :
      (ltb_ℤ (pos 0) options.now_ms ≡ false)
      ⊎ (ltb_ℤ options.now_ms signed.ticket.expires_at_ms ≡ true)
  pub no_bearer : looks_like_raw_bearer_session signed.ticket.business_session_id ≡ false
  pub algorithm : signed.signature_alg ≡ codes "ED25519"
  pub key : (options.required_key_id ≡ []) ⊎ (signed.key_id ≡ options.required_key_id)
  pub public_key : (length signed.public_key_hex ≡ 64) × (is_hex signed.public_key_hex ≡ true)
  pub signature : (length signed.signature_hex ≡ 128) × (is_hex signed.signature_hex ≡ true)
  pub authoritative : signed.server_authoritative ≡ true
