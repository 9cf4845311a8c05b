-- ===== src/Aead/Open/Pinned.antt =====
-- What the additional data of a packet, of src/aead.cpp, pins.
use ph_k_battle_server.Base.{
  ℕ, ◌^◌, ◌<◌, ◌≡◌, refl, sym, ap, ◌∙◌, [], ◌∷◌, ◌++◌, arith, length, Bytes, length-append,
  append_assoc, ◌↔◌,
}
use ph_k_battle_server.Base.LittleEndian.{read_le, read_le-le_bytes, length-le_bytes, le_bytes}
use ph_k_battle_server.Protocol.{payload_byte, BattlePacketHeader}
use ph_k_battle_server.Aead.Open.{u64_le, aad_bytes}

-- The numbers of a header have 64 bits.
abbrev pub Fits64 : BattlePacketHeader → Type 0
Fits64 h =
    (payload_byte h.payload_type < 2 ^ 64) × (h.tick < 2 ^ 64) × (h.seq < 2 ^ 64) × (h.ack < 2 ^ 64)

abbrev pub SameNumbers : BattlePacketHeader → BattlePacketHeader → Type 0
SameNumbers h h' =
    (payload_byte h.payload_type ≡ payload_byte h'.payload_type)
    × (h.tick ≡ h'.tick)
    × (h.seq ≡ h'.seq)
    × (h.ack ≡ h'.ack)

-- Two texts of one length in front of others.
same_head : (a b as' bs : Bytes) → length a ≡ length b → a ++ as' ≡ b ++ bs → (a ≡ b) × (as' ≡ bs)
same_head [] [] as' bs h e = (refl, e)
same_head [] (y ∷ b) as' bs h e = absurd (omega arith)
same_head (x ∷ a) [] as' bs h e = absurd (omega arith)
same_head (x ∷ a) (y ∷ b) as' bs h e = ground (arith, same_head a b as' bs, e)

-- A number of 64 bits in front of the rest.
same_number :
    (v w : ℕ) (as' bs : Bytes)
    → v < 2 ^ 64
    → w < 2 ^ 64
    → u64_le v ++ as' ≡ u64_le w ++ bs
    → (v ≡ w) × (as' ≡ bs)
unfolding u64_le
same_number v w as' bs hv hw e =
    let (heads, tails) =
      same_head (u64_le v) (u64_le w) as' bs (length-le_bytes 8 v ∙ sym (length-le_bytes 8 w)) e in
    (sym (read_le-le_bytes 8 v hv) ∙ ap read_le heads ∙ read_le-le_bytes 8 w hw, tails)

-- The ids of a header as they stand in the additional data, and the numbers behind them.
abbrev ids : BattlePacketHeader → Bytes
ids h = h.key_id ++ (h.match_id ++ h.player_id)

abbrev numbers : BattlePacketHeader → Bytes
numbers h =
    u64_le (payload_byte h.payload_type) ++ (u64_le h.tick ++ (u64_le h.seq ++ u64_le h.ack))

aad_bytes_split :
    (h : BattlePacketHeader) (direction : Bytes)
    → aad_bytes h direction ≡ direction ++ (ids h ++ numbers h)
unfolding aad_bytes
aad_bytes_split h direction = ground (
  arith,
  append_assoc h.key_id (h.match_id ++ h.player_id) (numbers h),
  append_assoc h.match_id h.player_id (numbers h),
)

length-numbers : (h : BattlePacketHeader) → length (numbers h) ≡ 32
unfolding u64_le
length-numbers h =
    let t = le_bytes 8 (payload_byte h.payload_type) in
    omega (
      arith,
      length-append t (le_bytes 8 h.tick ++ (le_bytes 8 h.seq ++ le_bytes 8 h.ack)),
      length-append (le_bytes 8 h.tick) (le_bytes 8 h.seq ++ le_bytes 8 h.ack),
      length-append (le_bytes 8 h.seq) (le_bytes 8 h.ack),
      length-le_bytes 8 (payload_byte h.payload_type),
      length-le_bytes 8 h.tick,
      length-le_bytes 8 h.seq,
      length-le_bytes 8 h.ack,
    )

same_numbers :
    (h h' : BattlePacketHeader) → Fits64 h → Fits64 h' → numbers h ≡ numbers h' → SameNumbers h h'
same_numbers h h' f f' e =
    let (type, e1) =
      same_number (payload_byte h.payload_type) (payload_byte h'.payload_type) _ _ f.0 f'.0 e in
    let (tick, e2) = same_number h.tick h'.tick _ _ f.1 f'.1 e1 in
    let (seq, e3) = same_number h.seq h'.seq _ _ f.2 f'.2 e2 in
    let (ack, e4) = same_number h.ack h'.ack [] [] f.3 f'.3 (ap (λ bytes. bytes ++ []) e3) in
    (type, tick, seq, ack)

pinned :
    (h h' : BattlePacketHeader) (direction : Bytes)
    → Fits64 h
    → Fits64 h'
    → aad_bytes h direction ≡ aad_bytes h' direction
    → (ids h ≡ ids h') × SameNumbers h h'
pinned h h' direction f f' e =
    let (_, rest) =
      same_head direction direction _ _ refl
        (sym (aad_bytes_split h direction) ∙ e ∙ aad_bytes_split h' direction) in
    let same_length : length (ids h) ≡ length (ids h') = omega (
      arith,
      ap length rest,
      length-append (ids h) (numbers h),
      length-append (ids h') (numbers h'),
      length-numbers h,
      length-numbers h',
    ) in
    let (same_ids, tails) = same_head (ids h) (ids h') (numbers h) (numbers h') same_length rest in
    (same_ids, same_numbers h h' f f' tails)

-- Two headers with numbers of 64 bits have the same additional data exactly when they agree in the
-- text of the key id, match id and player id written one behind the other, in the type of payload,
-- the tick, the sequence number and the acknowledgement. The text does not say where one id ends
-- and the next begins.
pub aad_bytes_iff :
    (h h' : BattlePacketHeader) (direction : Bytes)
    → Fits64 h
    → Fits64 h'
    → (aad_bytes h direction ≡ aad_bytes h' direction) ↔ (
        (h.key_id ++ (h.match_id ++ h.player_id) ≡ h'.key_id ++ (h'.match_id ++ h'.player_id))
        × SameNumbers h h')
unfolding u64_le
aad_bytes_iff h h' direction f f' = (
  pinned h h' direction f f',
  λ (same_ids, (type, tick, seq, ack)).
      aad_bytes_split h direction
      ∙ ap (λ x. direction ++ (x ++ numbers h)) same_ids
      ∙ ap (λ x. direction ++ (ids h' ++ x))
          (ap (λ t. u64_le t ++ (u64_le h.tick ++ (u64_le h.seq ++ u64_le h.ack))) type
            ∙ ap
                (λ t.
                  u64_le (payload_byte h'.payload_type)
                  ++ (u64_le t ++ (u64_le h.seq ++ u64_le h.ack)))
                tick
            ∙ ap
                (λ t.
                  u64_le (payload_byte h'.payload_type)
                  ++ (u64_le h'.tick ++ (u64_le t ++ u64_le h.ack)))
                seq
            ∙ ap
                (λ t.
                  u64_le (payload_byte h'.payload_type)
                  ++ (u64_le h'.tick ++ (u64_le h'.seq ++ u64_le t)))
                ack)
      ∙ sym (aad_bytes_split h' direction),
)
