-- ===== src/Aead/Termination.antt =====
-- The parsers of src/aead.cpp end: every round of their loops takes a byte.
use ph_k_battle_server.Base.{
  ℕ, zero, suc, ◌+◌, ◌*◌, ◌%◌, ◌^◌, ◌≤◌, ◌<◌, ◌≡◌, refl, inl, inr, Bool, true, false, [], ◌∷◌,
  Option, none, some, arith, ◌==◌, if◌then◌else◌, length, length-drop, Bytes, Option-cases,
}
use ph_k_battle_server.Protocol.{BattlePacketHeader, BattleEncryptedPacket}
use ph_k_battle_server.Aead.{
  EnvelopeStatus, varint_loop, read_varint, take_bytes, read_bytes, Tag, read_tag, Progress, failed,
  advanced, ok, empty, truncated, bad_wire_type, bad_varint, unexpected_field, is_ok, delimited,
  numeric, parse_loop, header_field, parse_header, nested_header, envelope_field, parse_envelope,
}

-- A reader leaves fewer bytes than it was given.
varint_loop-shrinks :
    (rounds weight value : ℕ) (bytes rest : Bytes) (out : ℕ)
    → varint_loop rounds weight value bytes ≡ some (out, rest)
    → length rest < length bytes
unfolding varint_loop
varint_loop-shrinks zero weight value bytes rest out h = ground (arith, h)
varint_loop-shrinks (suc rounds) weight value [] rest out h = ground (arith, h)
varint_loop-shrinks (suc rounds) weight value (byte ∷ bytes) rest out h = ground (
  arith,
  h,
  varint_loop-shrinks rounds (weight * 128) (value + byte % 128 * weight % 2 ^ 64) bytes rest out,
)

pub read_varint-shrinks :
    (bytes rest : Bytes) (out : ℕ)
    → read_varint bytes ≡ some (out, rest)
    → length rest < length bytes
unfolding read_varint
read_varint-shrinks bytes rest out h = varint_loop-shrinks 10 1 0 bytes rest out h

take_bytes-shrinks :
    (count : ℕ) (bytes raw rest : Bytes)
    → take_bytes count bytes ≡ some (raw, rest)
    → length rest ≤ length bytes
unfolding take_bytes
take_bytes-shrinks count bytes raw rest h = ground (arith, h, length-drop count bytes)

read_bytes-shrinks :
    (bytes raw rest : Bytes) → read_bytes bytes ≡ some (raw, rest) → length rest < length bytes
unfolding read_bytes
read_bytes-shrinks bytes raw rest h = elim (Option-cases (read_varint bytes)) [
  | inl bad ↦ ground (arith, h, bad)
  | inr ((count, after), good) ↦ ground (
    arith,
    h,
    good,
    read_varint-shrinks bytes after count,
    take_bytes-shrinks count after raw rest,
  )
]

read_tag-shrinks :
    (bytes : Bytes) (tag : Tag) → read_tag bytes ≡ some tag → length tag.rest < length bytes
unfolding read_tag
read_tag-shrinks bytes tag h = elim (Option-cases (read_varint bytes)) [
  | inl bad ↦ ground (arith, h, bad)
  | inr ((packed, after), good) ↦ ground (arith, h, good, read_varint-shrinks bytes after packed)
]

-- A field's parser leaves no more bytes than the tag did.
Shrinks : {A : Type 0} → Tag → Progress A → Type 0
Shrinks tag (failed status) = Unit
Shrinks tag (advanced message rest) = length rest ≤ length tag.rest

delimited-Shrinks : {A : Type 0} (tag : Tag) (set : Bytes → A) → Shrinks tag (delimited tag set)
unfolding delimited Shrinks
delimited-Shrinks tag set = go (tag.wire_type == 2) (read_bytes tag.rest) refl
  where
    go :
        (b : Bool) (o : Option (Bytes × Bytes))
        → read_bytes tag.rest ≡ o
        → Shrinks tag (
            if b
            then elim o [ none ↦ failed truncated | some (raw, rest) ↦ advanced (set raw) rest ]
            else failed bad_wire_type)
    go false o e = tt
    go true none e = tt
    go true (some (raw, rest)) e = omega (arith, read_bytes-shrinks tag.rest raw rest e)

numeric-Shrinks : {A : Type 0} (tag : Tag) (set : ℕ → A) → Shrinks tag (numeric tag set)
unfolding numeric Shrinks
numeric-Shrinks tag set = go (tag.wire_type == 0) (read_varint tag.rest) refl
  where
    go :
        (b : Bool) (o : Option (ℕ × Bytes))
        → read_varint tag.rest ≡ o
        → Shrinks tag (
            if b
            then elim o [ none ↦ failed truncated | some (value, rest) ↦ advanced (set value) rest ]
            else failed bad_wire_type)
    go false o e = tt
    go true none e = tt
    go true (some (value, rest)) e = omega (arith, read_varint-shrinks tag.rest rest value e)

failed-Shrinks :
    (A : Type 0) (tag : Tag) (status : EnvelopeStatus) → Shrinks {A = A} tag (failed status)
unfolding Shrinks
failed-Shrinks A tag status = tt

if_Shrinks :
    {A : Type 0} (tag : Tag) (b : Bool) (p q : Progress A)
    → Shrinks tag p
    → Shrinks tag q
    → Shrinks tag (if b then p else q)
if_Shrinks tag true p q hp hq = hp
if_Shrinks tag false p q hp hq = hq

header_field-Shrinks :
    (header : BattlePacketHeader) (tag : Tag) → Shrinks tag (header_field header tag)
unfolding header_field
header_field-Shrinks header tag =
    search (if_Shrinks, delimited-Shrinks, numeric-Shrinks, failed-Shrinks) depth 12

-- With a round for each byte, the loop ends.
parse_loop-ends :
    {A : Type 0} (field : A → Tag → Progress A)
    → ((message : A) (tag : Tag) → Shrinks tag (field message tag))
    → (rounds : ℕ) (message : A) (bytes : Bytes) → length bytes ≤ rounds
    → (result : EnvelopeStatus × A) × (parse_loop field rounds message bytes ≡ some result)
unfolding parse_loop
parse_loop-ends field shrinks rounds message [] h = ((ok, message), refl)
parse_loop-ends field shrinks zero message (byte ∷ bytes) h = absurd (omega arith)
parse_loop-ends {A = A} field shrinks (suc rounds) message (byte ∷ bytes) h =
    go (read_tag (byte ∷ bytes)) refl (parse_loop-ends field shrinks rounds)
  where
    after :
        (tag : Tag)
        → length tag.rest < length (byte ∷ bytes)
        → ((message' : A) (rest : Bytes)
            → length rest ≤ rounds
            → (result : EnvelopeStatus × A) × (parse_loop field rounds message' rest ≡ some result))
        → (p : Progress A) → Shrinks tag p
        → (result : EnvelopeStatus × A) × (elim p [
          | failed status ↦ some (status, message)
          | advanced message' rest ↦ parse_loop field rounds message' rest
        ]
            ≡ some result)
    after tag less ih (failed status) shrunk = ((status, message), refl)
    after tag less ih (advanced message' rest) shrunk =
        ih message' rest (unfold Shrinks in omega arith)

    go :
        (o : Option Tag)
        → read_tag (byte ∷ bytes) ≡ o
        → ((message' : A) (rest : Bytes)
            → length rest ≤ rounds
            → (result : EnvelopeStatus × A) × (parse_loop field rounds message' rest ≡ some result))
        → (result : EnvelopeStatus × A) × (elim o [
          | none ↦ some (bad_varint, message)
          | some tag ↦ elim (field message tag) [
            | failed status ↦ some (status, message)
            | advanced message' rest ↦ parse_loop field rounds message' rest
          ]
        ]
            ≡ some result)
    go none e ih = ((bad_varint, message), refl)
    go (some tag) e ih =
        after tag (read_tag-shrinks (byte ∷ bytes) tag e) ih (field message tag)
          (shrinks message tag)

pub parse_header-ends :
    (bytes : Bytes) (header : BattlePacketHeader)
    → (result : EnvelopeStatus × BattlePacketHeader) × (parse_header bytes header ≡ some result)
unfolding parse_header
parse_header-ends bytes header =
    parse_loop-ends header_field header_field-Shrinks (length bytes) header bytes (omega arith)

nested_header-Shrinks :
    (packet : BattleEncryptedPacket) (tag : Tag) (raw rest : Bytes)
    → length rest ≤ length tag.rest
    → Shrinks tag (nested_header packet raw rest)
unfolding nested_header
nested_header-Shrinks packet tag raw rest less = go (parse_header raw packet.header)
  where
    go :
        (o : Option (EnvelopeStatus × BattlePacketHeader))
        → Shrinks tag (elim o [
          | none ↦ failed bad_varint
          | some (status, header) ↦
              if is_ok status
              then advanced (record packet { header = header }) rest
              else failed status
        ])
    go none = failed-Shrinks _ tag bad_varint
    go (some (status, header)) =
        if_Shrinks tag (is_ok status) _ _ (unfold Shrinks in less) (failed-Shrinks _ tag status)

envelope_field-Shrinks :
    (packet : BattleEncryptedPacket) (tag : Tag) → Shrinks tag (envelope_field packet tag)
unfolding envelope_field
envelope_field-Shrinks packet tag =
    if_Shrinks tag (tag.field_number == 1) _ _
      (if_Shrinks tag (tag.wire_type == 2) _ _ (go (read_bytes tag.rest) refl)
        (failed-Shrinks _ tag bad_wire_type))
      (if_Shrinks tag (tag.field_number == 2) _ _
        (delimited-Shrinks tag (λ raw. record packet { ciphertext = raw }))
        (if_Shrinks tag (tag.field_number == 3) _ _
          (delimited-Shrinks tag (λ raw. record packet { auth_tag = raw }))
          (failed-Shrinks _ tag unexpected_field)))
  where
    go :
        (o : Option (Bytes × Bytes))
        → read_bytes tag.rest ≡ o
        → Shrinks tag
            (elim o [ none ↦ failed truncated | some (raw, rest) ↦ nested_header packet raw rest ])
    go none e = failed-Shrinks _ tag truncated
    go (some (raw, rest)) e =
        nested_header-Shrinks packet tag raw rest
          (omega (arith, read_bytes-shrinks tag.rest raw rest e))

-- The parser of envelopes ends on every payload, with a status, and so does that of the header
-- inside, so that the failure that stands for a loop without end is never met.
pub parse_envelope-ends :
    (fresh : BattleEncryptedPacket) (payload raw : Bytes)
    → ((result : EnvelopeStatus × BattleEncryptedPacket) × (parse_envelope fresh payload
          ≡ some result))
      × ((result : EnvelopeStatus × BattlePacketHeader) × (parse_header raw fresh.header
            ≡ some result))
unfolding parse_envelope
parse_envelope-ends fresh [] raw = (((empty, fresh), refl), parse_header-ends raw fresh.header)
parse_envelope-ends fresh (byte ∷ payload) raw = (
  parse_loop-ends envelope_field envelope_field-Shrinks (length (byte ∷ payload)) fresh
      (byte ∷ payload) (omega arith),
  parse_header-ends raw fresh.header,
)
