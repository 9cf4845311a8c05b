-- ===== src/Handshake/Laws.antt =====
-- What the handshake of src/handshake.cpp answers.
use ph_k_battle_server.Base.{
  ℕ, zero, suc, ◌+◌, ◌^◌, ◌≤◌, ◌<◌, ◌≡◌, ◌≢◌, refl, sym, ap, subst, ◌⊎◌, inl, inr, Bool, true,
  false, ◌&&◌, not, List, [], ◌∷◌, ◌++◌, get_or, arith, ltb, if◌then◌else◌, length, length-append,
  length-take, take, all, all-append, all-take, Bytes, codes, bytes_eq, bytes_eq_iff, Bool-cases,
  if_both,
}
use ph_k_battle_server.LobbyRng.{zero_fill}
use ph_k_battle_server.Protocol.{VersionStamp}
use ph_k_battle_server.Protocol.Nonce.{is_xdigit, hex64, hex_digits-hex, length-hex_digits}
use ph_k_battle_server.Base.Decimal.{to_string}
use ph_k_battle_server.Ticket.{BattleTicket}
use ph_k_battle_server.Handshake.{
  BattleHandshakeHello, BattleHandshakeAccept, fnv1a, fill_bytes, fill_dev_bytes, material_loop,
  dev_hex_material, supports_aead, has_any_non_zero, derive_dev_kcp_conv, transcript,
  dev_transcript_hash, dev_handshake_key_ref, dev_handshake_server_signature, fresh_accept,
  accepted, accept,
}

hex64-shape : (n : ℕ) → (length (hex64 n) ≡ 16) × (all is_xdigit (hex64 n) ≡ true)
unfolding hex64
hex64-shape n = (length-hex_digits 16 n, hex_digits-hex 16 n)

-- With a round for each digit, the loop ends with enough digits.
material_loop-shape :
    (rounds : ℕ) (seed : Bytes) (hex_chars counter : ℕ) (out : Bytes)
    → hex_chars ≤ rounds + length out
    → all is_xdigit out ≡ true
    → (hex_chars ≤ length (material_loop rounds seed hex_chars counter out))
      × (all is_xdigit (material_loop rounds seed hex_chars counter out) ≡ true)
unfolding material_loop
material_loop-shape zero seed hex_chars counter out h k = (omega arith, k)
material_loop-shape (suc rounds) seed hex_chars counter out h k =
    let block = hex64 (fnv1a (seed ++ (b':' ∷ to_string counter))) in
    let (len, hex) = hex64-shape (fnv1a (seed ++ (b':' ∷ to_string counter))) in
    let P : Bytes → Type 0 = λ r. (hex_chars ≤ length r) × (all is_xdigit r ≡ true) in
    if_both P (ltb (length out) hex_chars)
      (λ short.
        material_loop-shape rounds seed hex_chars (counter + 1) (out ++ block)
          (omega (arith, len, length-append out block)) (all-append is_xdigit out block k hex))
      (λ long. (ground (arith, long), k))

zero_fill-take : (n : ℕ) (text : Bytes) → n ≤ length text → zero_fill n text ≡ take n text
unfolding zero_fill
zero_fill-take zero text h = refl
zero_fill-take (suc n) [] h = absurd (omega arith)
zero_fill-take (suc n) (ch ∷ text) h = ap (λ rest. ch ∷ rest) (zero_fill-take n text (omega arith))

dev_hex_material-shape :
    (seed : Bytes) (n : ℕ)
    → (length (dev_hex_material seed n) ≡ n) × (all is_xdigit (dev_hex_material seed n) ≡ true)
unfolding dev_hex_material
dev_hex_material-shape seed n =
    let text = material_loop n seed n 0 [] in
    let (enough, hex) = material_loop-shape n seed n 0 [] (omega arith) refl in
    subst (λ r. (length r ≡ n) × (all is_xdigit r ≡ true)) (sym (zero_fill-take n text enough))
      (omega (arith, length-take n text), all-take is_xdigit n text hex)

length-fill_bytes : (rounds i state : ℕ) → length (fill_bytes rounds i state) ≡ rounds
unfolding fill_bytes
length-fill_bytes zero i state = refl
length-fill_bytes (suc rounds) i state = omega (arith, length-fill_bytes rounds (i + 1))

-- A name that is supported stands in the list.
pub Offers : List Bytes → Bytes → Type 0
Offers names name =
    (before : List Bytes) × ((after : List Bytes) × (names ≡ before ++ (name ∷ after)))

supports-Offers :
    (names : List Bytes) (name : Bytes) → supports_aead names name ≡ true → Offers names name
unfolding supports_aead Offers
supports-Offers [] name h = cc
supports-Offers (value ∷ values) name h = elim (Bool-cases (bytes_eq value name)) [
  | inl same ↦ ([], (values, ground (arith, same, bytes_eq_iff value name)))
  | inr other ↦
      let (before, (after, e)) = supports-Offers values name (ground (arith, h, other)) in
      (value ∷ before, (after, ap (λ rest. value ∷ rest) e))
]

-- The shape of an accepted handshake.
pub record IsNegotiated {Double : Type 0} (hello : BattleHandshakeHello Double)
    (ticket : BattleTicket Double) (key : Bytes) (a : BattleHandshakeAccept) : Type 0 where
  pub client_key : has_any_non_zero hello.client_x25519_pub ≡ true
  pub client_random : has_any_non_zero hello.client_random ≡ true
  pub offered : Offers hello.supported_aead a.selected_aead
  pub preferred :
      (a.selected_aead ≡ codes "CHACHA20_POLY1305")
      ⊎ ((a.selected_aead ≡ codes "XCHACHA20_POLY1305")
          × (supports_aead hello.supported_aead (codes "CHACHA20_POLY1305") ≡ false))
  pub for_ticket : (a.match_id ≡ ticket.match_id) × (a.player_id ≡ ticket.player_id)
  pub conversation : a.kcp_conv < 2 ^ 32
  pub named_key : a.key_id ≡ key
  pub server_bytes : (length a.server_x25519_pub ≡ 32) × (length a.server_random ≡ 32)
  pub transcript_hash :
      (length a.transcript_hash_hex ≡ 32) × (all is_xdigit a.transcript_hash_hex ≡ true)
  pub signature :
      (length a.server_signature_hex ≡ 128) × (all is_xdigit a.server_signature_hex ≡ true)
  pub two_keys : a.client_to_server_key_ref ≢ a.server_to_client_key_ref

selected_lem :
    (names : List Bytes)
    → (not (supports_aead names (codes "CHACHA20_POLY1305"))
        && not (supports_aead names (codes "XCHACHA20_POLY1305")))
      ≡ false
    → let selected =
        if supports_aead names (codes "CHACHA20_POLY1305")
        then codes "CHACHA20_POLY1305"
        else codes "XCHACHA20_POLY1305" in
      Offers names selected
      × ((selected ≡ codes "CHACHA20_POLY1305")
          ⊎ ((selected ≡ codes "XCHACHA20_POLY1305")
              × (supports_aead names (codes "CHACHA20_POLY1305") ≡ false)))
selected_lem names h =
    if_both
      (λ s.
        Offers names s
        × ((s ≡ codes "CHACHA20_POLY1305")
            ⊎ ((s ≡ codes "XCHACHA20_POLY1305")
                × (supports_aead names (codes "CHACHA20_POLY1305") ≡ false))))
      (supports_aead names (codes "CHACHA20_POLY1305"))
      (λ chacha. (supports-Offers names (codes "CHACHA20_POLY1305") chacha, inl refl))
      (λ no. (
        supports-Offers names (codes "XCHACHA20_POLY1305") (ground (arith, h, no)),
        inr (refl, no),
      ))

key_refs-differ :
    (hash : Bytes)
    → dev_handshake_key_ref hash (codes "client_to_server")
      ≢ dev_handshake_key_ref hash (codes "server_to_client")
unfolding dev_handshake_key_ref
key_refs-differ hash =
    λ e. let letters : ◌≡◌ {A = ℕ} 99 115 = ap (λ s. get_or s 9 0) e in absurd (omega arith)

transcript-shape :
    {Double : Type 0} (print : Double → Bytes) (hello : BattleHandshakeHello Double)
    (ticket : BattleTicket Double)
    → (length (dev_transcript_hash print hello ticket) ≡ 32)
      × (all is_xdigit (dev_transcript_hash print hello ticket) ≡ true)
unfolding dev_transcript_hash
transcript-shape print hello ticket =
    let first = hex64 (fnv1a (transcript print hello ticket)) in
    let second = hex64 (fnv1a (transcript print hello ticket ++ codes ":2")) in
    let (len1, hex1) = hex64-shape (fnv1a (transcript print hello ticket)) in
    let (len2, hex2) = hex64-shape (fnv1a (transcript print hello ticket ++ codes ":2")) in
    (
      omega (arith, len1, len2, length-append first second),
      all-append is_xdigit first second hex1 hex2,
    )

accepted-IsNegotiated :
    {Double : Type 0} (print : Double → Bytes) (hello : BattleHandshakeHello Double)
    (ticket : BattleTicket Double) (key : Bytes)
    → has_any_non_zero hello.client_x25519_pub ≡ true
    → has_any_non_zero hello.client_random ≡ true
    → (not (supports_aead hello.supported_aead (codes "CHACHA20_POLY1305"))
        && not (supports_aead hello.supported_aead (codes "XCHACHA20_POLY1305")))
      ≡ false
    → IsNegotiated hello ticket key (accepted print hello ticket key)
unfolding accepted derive_dev_kcp_conv dev_handshake_server_signature fill_dev_bytes
accepted-IsNegotiated print hello ticket key k r s = record {
  client_key = k;
  client_random = r;
  offered = (selected_lem hello.supported_aead s).0;
  preferred = (selected_lem hello.supported_aead s).1;
  for_ticket = (refl, refl);
  conversation = omega arith;
  named_key = refl;
  server_bytes = (length-fill_bytes 32 0 _, length-fill_bytes 32 0 _);
  transcript_hash = transcript-shape print hello ticket;
  signature = dev_hex_material-shape _ 128;
  two_keys = key_refs-differ (dev_transcript_hash print hello ticket);
}

-- What an answer says of the hello.
pub Answers :
    {Double : Type 0}
    → VersionStamp
    → BattleHandshakeHello Double
    → BattleTicket Double
    → Bytes
    → BattleHandshakeAccept
    → Type 0
Answers build hello ticket key a =
    ((a.ok ≡ true) × IsNegotiated hello ticket key a)
    ⊎ (((a ≡ record (fresh_accept build) { reason = "client_key_missing" })
          × (has_any_non_zero hello.client_x25519_pub ≡ false))
        ⊎ (((a ≡ record (fresh_accept build) { reason = "client_random_missing" })
              × (has_any_non_zero hello.client_random ≡ false))
            ⊎ ((a ≡ record (fresh_accept build) { reason = "aead_unsupported" })
                × (supports_aead hello.supported_aead (codes "CHACHA20_POLY1305") ≡ false)
                × (supports_aead hello.supported_aead (codes "XCHACHA20_POLY1305") ≡ false))))

-- The handshake either refuses with nothing but a reason, because the client's key or its random bytes
-- are all zero or no known cipher is offered, or its answer is negotiated: a cipher that the
-- client offers, the preferred one if it is there, the ids of the ticket, a conversation of 32
-- bits, a transcript of 32 and a signature of 128 hexadecimal digits, and two different keys for
-- the two directions.
pub accept-Answers :
    {Double : Type 0} (print : Double → Bytes) (build : VersionStamp)
    (hello : BattleHandshakeHello Double) (ticket : BattleTicket Double) (key : Bytes)
    → Answers build hello ticket key (accept print build hello ticket key)
unfolding accept Answers accepted
accept-Answers print build hello ticket key =
    let P : BattleHandshakeAccept → Type 0 = Answers build hello ticket key in
    if_both P (not (has_any_non_zero hello.client_x25519_pub)) (λ no. inr (inl (refl, not_true no)))
      (λ k.
        if_both P (not (has_any_non_zero hello.client_random))
          (λ no. inr (inr (inl (refl, not_true no))))
          (λ r.
            if_both P _ (λ no. inr (inr (inr (refl, ground (arith, no), ground (arith, no)))))
              (λ s. inl (
                refl,
                accepted-IsNegotiated print hello ticket key (not_false k) (not_false r) s,
              ))))
  where
    not_true : {b : Bool} → not b ≡ true → b ≡ false
    not_true {b = true} h = cc
    not_true {b = false} h = refl

    not_false : {b : Bool} → not b ≡ false → b ≡ true
    not_false {b = true} h = refl
    not_false {b = false} h = cc
