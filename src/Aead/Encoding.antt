-- ===== src/Aead/Encoding.antt =====
-- The wire format of protobuf, as its documentation describes it, for the envelope of a sealed
-- packet, and the parsers of src/aead.cpp on what is so encoded.
use ph_k_battle_server.Base.{
  ℕ, zero, suc, ◌+◌, ◌*◌, ◌/◌, ◌%◌, ◌^◌, ◌<◌, ◌≡◌, refl, ap, ◌∙◌, subst, inl, inr, false, [], ◌∷◌,
  ◌++◌, Option, none, some, arith, ltb, if◌then◌else◌, length, length-append, take-append,
  drop-append, Bytes, Bool-cases, ltb→lt,
}
use ph_k_battle_server.Aead.{
  EnvelopeStatus, bad_varint, varint_loop, read_varint, take_bytes, read_bytes, Tag, read_tag,
  Progress, failed, advanced, parse_loop,
}

-- The groups of seven bits of a value, the lowest first, all but the last with the high bit.
unfoldable pub varint_groups : ℕ → ℕ → Bytes
varint_groups zero value = []
varint_groups (suc rounds) value =
    let more = varint_groups rounds (value / 128) in
    if ltb value 128 then value ∷ [] else (value % 128 + 128) ∷ more

unfoldable pub varint : ℕ → Bytes
varint value = varint_groups 10 value

split_product : (value p : ℕ) → value * p ≡ value / 128 * (p * 128) + value % 128 * p
split_product value p =
    let parts : value ≡ value / 128 * 128 + value % 128 = omega arith in
    ap (λ v. v * p) parts ∙ omega arith

one_group :
    (rounds weight acc value : ℕ) (rest : Bytes)
    → acc + value * weight < 2 ^ 64
    → value < 128
    → varint_loop (suc rounds) weight acc (varint_groups (suc rounds) value ++ rest)
      ≡ some (acc + value * weight, rest)
unfolding varint_loop varint_groups
one_group rounds weight acc value rest fits small = ground (arith, fits, small)

next_group :
    (rounds weight acc value : ℕ) (rest : Bytes)
    → acc + value * weight < 2 ^ 64
    → ltb value 128 ≡ false
    → varint_loop (suc rounds) weight acc (varint_groups (suc rounds) value ++ rest)
      ≡ varint_loop rounds
          (weight * 128)
          (acc + value % 128 * weight)
          (varint_groups rounds (value / 128) ++ rest)
unfolding varint_loop varint_groups
next_group rounds weight acc value rest fits large = ground (arith, split_product value weight)

-- Each group adds its bits above those that are there. `last_weight` is the weight of the last
-- round.
varint_loop-groups :
    (rounds weight acc value : ℕ) (rest : Bytes)
    → acc + value * weight < 2 ^ 64
    → value < 128 ^ suc rounds
    → varint_loop (suc rounds) weight acc (varint_groups (suc rounds) value ++ rest)
      ≡ some (acc + value * weight, rest)
varint_loop-groups zero weight acc value rest fits bound =
    one_group zero weight acc value rest fits (omega arith)
varint_loop-groups (suc rounds) weight acc value rest fits bound =
    elim (Bool-cases (ltb value 128)) [
      | inl small ↦
          one_group (suc rounds) weight acc value rest fits (omega (arith, ltb→lt value 128 small))
      | inr large ↦
          next_group (suc rounds) weight acc value rest fits large
          ∙ varint_loop-groups rounds (weight * 128) (acc + value % 128 * weight) (value / 128) rest
              (omega (arith, split_product value weight)) (omega arith)
          ∙ ap (λ v. some (v, rest)) (omega (arith, split_product value weight))
    ]

-- A value of 64 bits is read back.
pub read_varint-varint :
    (value : ℕ) (rest : Bytes)
    → value < 2 ^ 64
    → read_varint (varint value ++ rest) ≡ some (value, rest)
unfolding read_varint varint
read_varint-varint value rest fits =
    varint_loop-groups 9 1 0 value rest (omega arith) (omega arith)
    ∙ ap (λ v. some (v, rest)) (omega arith)

pub read_bytes-varint :
    (raw rest : Bytes)
    → length raw < 2 ^ 64
    → read_bytes (varint (length raw) ++ (raw ++ rest)) ≡ some (raw, rest)
unfolding read_bytes take_bytes
read_bytes-varint raw rest fits = ground (
  arith,
  read_varint-varint (length raw) (raw ++ rest) fits,
  take-append raw rest,
  drop-append raw rest,
  length-append raw rest,
)

-- The key of a field.
unfoldable pub key : ℕ → ℕ → Bytes
key number wire = varint (number * 8 + wire)

pub read_tag-key :
    (number wire : ℕ) (rest : Bytes)
    → 0 < number
    → number < 16
    → wire < 8
    → read_tag (key number wire ++ rest)
      ≡ some (record { field_number = number; wire_type = wire; rest = rest })
unfolding read_tag key
read_tag-key number wire rest positive few known =
    ground (arith, read_varint-varint (number * 8 + wire) rest)

-- The two kinds of fields, in front of the rest.
unfoldable pub text_field : ℕ → Bytes → Bytes → Bytes
text_field number raw rest = key number 2 ++ (varint (length raw) ++ (raw ++ rest))

unfoldable pub number_field : ℕ → ℕ → Bytes → Bytes
number_field number value rest = key number 0 ++ (varint value ++ rest)

no_tag : read_tag [] ≡ none
unfolding read_tag read_varint varint_loop
no_tag = refl

pub parse_loop-step :
    {A : Type 0} (field : A → Tag → Progress A) (rounds : ℕ) (message message' : A)
    (bytes rest : Bytes) (tag : Tag)
    → read_tag bytes ≡ some tag
    → field message tag ≡ advanced message' rest
    → parse_loop field (suc rounds) message bytes ≡ parse_loop field rounds message' rest
unfolding parse_loop
parse_loop-step field rounds message message' [] rest tag h e = ground (arith, h, no_tag)
parse_loop-step field rounds message message' (byte ∷ bytes) rest tag h e =
    ap
      (λ o. elim o [
        | none ↦ some (bad_varint, message)
        | some tag ↦ elim (field message tag) [
          | failed status ↦ some (status, message)
          | advanced next left ↦ parse_loop field rounds next left
        ]
      ])
      h
    ∙ ap
        (λ p. elim p [
          | failed status ↦ some (status, message)
          | advanced next left ↦ parse_loop field rounds next left
        ])
        e

-- More rounds give the same result.
pub parse_loop-more :
    {A : Type 0} (field : A → Tag → Progress A) (more rounds : ℕ) (message : A) (bytes : Bytes)
    (result : EnvelopeStatus × A)
    → parse_loop field rounds message bytes ≡ some result
    → parse_loop field (rounds + more) message bytes ≡ some result
unfolding parse_loop
parse_loop-more field more rounds message [] result h = h
parse_loop-more field more zero message (byte ∷ bytes) result h = ground (arith, h)
parse_loop-more {A = A} field more (suc rounds) message (byte ∷ bytes) result h =
    subst (λ n. parse_loop field n message (byte ∷ bytes) ≡ some result) count
      (go (read_tag (byte ∷ bytes)) h (λ m b e. parse_loop-more field more rounds m b result e))
  where
    count : suc (rounds + more) ≡ suc rounds + more
    count = omega arith

    IH : Type 0
    IH =
        (m : A) (b : Bytes)
        → parse_loop field rounds m b ≡ some result
        → parse_loop field (rounds + more) m b ≡ some result

    next :
        (p : Progress A)
        → elim p [
          | failed status ↦ some (status, message)
          | advanced message' rest ↦ parse_loop field rounds message' rest
        ]
          ≡ some result
        → IH
        → elim p [
          | failed status ↦ some (status, message)
          | advanced message' rest ↦ parse_loop field (rounds + more) message' rest
        ]
          ≡ some result
    next (failed status) e ih = e
    next (advanced message' rest) e ih = ih message' rest e

    go :
        (o : Option Tag)
        → elim o [
          | none ↦ some (bad_varint, message)
          | some tag ↦ elim (field message tag) [
            | failed status ↦ some (status, message)
            | advanced message' rest ↦ parse_loop field rounds message' rest
          ]
        ]
          ≡ some result
        → IH
        → elim o [
          | none ↦ some (bad_varint, message)
          | some tag ↦ elim (field message tag) [
            | failed status ↦ some (status, message)
            | advanced message' rest ↦ parse_loop field (rounds + more) message' rest
          ]
        ]
          ≡ some result
    go none e ih = e
    go (some tag) e ih = next (field message tag) e ih

pub varint_positive : (value : ℕ) → 0 < length (varint value)
unfolding varint varint_groups
varint_positive value = ground (arith)
