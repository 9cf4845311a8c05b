-- ===== src/Dem/Body.antt =====
-- The body of a replay file (`EncodeDemBody`, `DecodeDemBody` of src/dem.cpp) is read back.
use ph_k_battle_server.Base.{
  ℕ, zero, suc, ◌+◌, ◌%◌, ◌^◌, ◌≤◌, ◌<◌, ◌≡◌, refl, ap, ◌∙◌, inl, inr, List, [], ◌∷◌, ◌++◌, some,
  arith, length, length-append, length-drop, append_assoc, take-append, drop-append, All, Bytes,
  Option-cases, ◌>>=◌, >>=-some,
}
use ph_k_battle_server.Base.Int.{ℤ, pos, negsuc, FitsInt64}
use ph_k_battle_server.Base.LittleEndian.{le_bytes, get_le, get_le-le_bytes, length-le_bytes}
use ph_k_battle_server.Dem.{
  DemBodyEntry, to_u64, of_u64, put_bytes, take_text, get_bytes, encode_entry, encode_dem_body,
  decode_texts, decode_entry, decode_loop, decode_dem_body,
}

-- The entries that the format holds: numbers of 64 bits, and texts of fewer than 2 ^ 16 bytes.
pub record Fits (entry : DemBodyEntry) : Type 0 where
  pub seq_fits : entry.seq < 2 ^ 64
  pub tick_fits : FitsInt64 entry.tick
  pub player_fits : length entry.player_id < 2 ^ 16
  pub action_fits : length entry.action_type < 2 ^ 16
  pub payload_fits : length entry.payload < 2 ^ 16

of_u64-to_u64 : (z : ℤ) → FitsInt64 z → of_u64 (to_u64 z) ≡ z
unfolding of_u64 to_u64 FitsInt64
of_u64-to_u64 (pos n) h = ground (arith, h)
of_u64-to_u64 (negsuc n) h = ground (arith, h)

to_u64-bound : (z : ℤ) → to_u64 z < 2 ^ 64
unfolding to_u64
to_u64-bound (pos n) = omega arith
to_u64-bound (negsuc n) = omega arith

get_bytes-put_bytes :
    (text rest : Bytes)
    → length text < 2 ^ 16
    → get_bytes (put_bytes text ++ rest) ≡ some (text, rest)
unfolding get_bytes put_bytes take_text
get_bytes-put_bytes text rest h = ground (
  arith,
  append_assoc (le_bytes 2 (length text % 2 ^ 16)) text rest,
  get_le-le_bytes 2 (length text % 2 ^ 16) (text ++ rest),
  take-append text rest,
  drop-append text rest,
  length-append text rest,
)

flat :
    (entry : DemBodyEntry) (rest : Bytes)
    → encode_entry entry ++ rest
      ≡ le_bytes 8 entry.seq
        ++ (le_bytes 8 (to_u64 entry.tick)
            ++ (put_bytes entry.player_id
                ++ (put_bytes entry.action_type ++ (put_bytes entry.payload ++ rest))))
unfolding encode_entry
flat entry rest = simp (append_assoc)

decode-encode_entry :
    (entry : DemBodyEntry) (rest : Bytes)
    → Fits entry
    → decode_entry (encode_entry entry ++ rest) ≡ some (entry, rest)
unfolding decode_entry decode_texts encode_entry
decode-encode_entry entry rest fits =
    let tail2 = put_bytes entry.payload ++ rest in
    let tail1 = put_bytes entry.action_type ++ tail2 in
    let tail0 = put_bytes entry.player_id ++ tail1 in
    let raw = to_u64 entry.tick in
    let shape : encode_entry entry ++ rest ≡ le_bytes 8 entry.seq ++ (le_bytes 8 raw ++ tail0) =
      flat entry rest in
    ap decode_entry shape
    ∙ >>=-some _ _ _ (get_le-le_bytes 8 entry.seq (le_bytes 8 raw ++ tail0) fits.seq_fits)
    ∙ >>=-some _ _ _ (get_le-le_bytes 8 raw tail0 (to_u64-bound entry.tick))
    ∙ >>=-some _ _ _ (get_bytes-put_bytes entry.player_id tail1 fits.player_fits)
    ∙ >>=-some _ _ _ (get_bytes-put_bytes entry.action_type tail2 fits.action_fits)
    ∙ >>=-some _ _ _ (get_bytes-put_bytes entry.payload rest fits.payload_fits)
    ∙ ap (λ z. some (record entry { tick = z }, rest)) (of_u64-to_u64 entry.tick fits.tick_fits)

length-encode_entry : (entry : DemBodyEntry) → 8 ≤ length (encode_entry entry)
unfolding encode_entry
length-encode_entry entry =
    omega (arith, length-append (le_bytes 8 entry.seq) _, length-le_bytes 8 entry.seq)

decode_loop-step :
    (rounds : ℕ) (bytes : Bytes) (entry : DemBodyEntry) (rest : Bytes)
    → 0 < length bytes
    → decode_entry bytes ≡ some (entry, rest)
    → decode_loop (suc rounds) bytes
      ≡ (decode_loop rounds rest >>= λ entries. some (entry ∷ entries))
unfolding decode_loop
decode_loop-step rounds [] entry rest h e = absurd (omega arith)
decode_loop-step rounds (b ∷ bytes) entry rest h e = >>=-some _ _ _ e

loop-encode :
    (rounds : ℕ) (entries : List DemBodyEntry)
    → All Fits entries
    → length (encode_dem_body entries) ≤ rounds
    → decode_loop rounds (encode_dem_body entries) ≡ some entries
unfolding encode_dem_body decode_loop
loop-encode rounds [] fits h = refl
loop-encode zero (entry ∷ entries) fits h = absurd (
    omega (
      arith,
      length-append (encode_entry entry) (encode_dem_body entries),
      length-encode_entry entry,
    ))
loop-encode (suc rounds) (entry ∷ entries) fits h =
    let rest = encode_dem_body entries in
    let longer = length-append (encode_entry entry) rest in
    decode_loop-step rounds (encode_entry entry ++ rest) entry rest
      (omega (arith, longer, length-encode_entry entry)) (decode-encode_entry entry rest fits.0)
    ∙ >>=-some _ _ _
        (loop-encode rounds entries fits.1 (omega (arith, longer, length-encode_entry entry)))

-- The body that was written for entries that fit the format is read back as those entries.
pub decode-encode_dem_body :
    (entries : List DemBodyEntry)
    → All Fits entries
    → decode_dem_body (encode_dem_body entries) ≡ some entries
unfolding decode_dem_body
decode-encode_dem_body entries fits =
    loop-encode (length (encode_dem_body entries)) entries fits (omega arith)

get_le-shrinks :
    (k : ℕ) (bytes rest : Bytes) (out : ℕ)
    → get_le k bytes ≡ some (out, rest)
    → length rest + k ≡ length bytes
unfolding get_le
get_le-shrinks k bytes rest out h = ground (arith, h, length-drop k bytes)

get_bytes-shrinks :
    (bytes text rest : Bytes) → get_bytes bytes ≡ some (text, rest) → length rest ≤ length bytes
unfolding get_bytes take_text
get_bytes-shrinks bytes text rest h = elim (Option-cases (get_le 2 bytes)) [
  | inl bad ↦ ground (arith, h, bad)
  | inr ((len, after), good) ↦
      ground (arith, h, good, get_le-shrinks 2 bytes after len, length-drop len after)
]

decode_texts-shrinks :
    (b2 rest : Bytes) (seq : ℕ) (tick : ℤ) (entry : DemBodyEntry)
    → decode_texts seq tick b2 ≡ some (entry, rest)
    → length rest ≤ length b2
unfolding decode_texts
decode_texts-shrinks b2 rest seq tick entry h = elim (Option-cases (get_bytes b2)) [
  | inl bad ↦ ground (arith, h, bad)
  | inr ((player, b3), e3) ↦ elim (Option-cases (get_bytes b3)) [
    | inl bad ↦ ground (arith, h, e3, bad)
    | inr ((action, b4), e4) ↦ elim (Option-cases (get_bytes b4)) [
      | inl bad ↦ ground (arith, h, e3, e4, bad)
      | inr ((payload, b5), e5) ↦ ground (
        arith,
        h,
        e3,
        e4,
        e5,
        get_bytes-shrinks b2 player b3 e3,
        get_bytes-shrinks b3 action b4 e4,
        get_bytes-shrinks b4 payload b5 e5,
      )
    ]
  ]
]

decode_entry-shrinks :
    (bytes rest : Bytes) (entry : DemBodyEntry)
    → decode_entry bytes ≡ some (entry, rest)
    → length rest < length bytes
unfolding decode_entry
decode_entry-shrinks bytes rest entry h = elim (Option-cases (get_le 8 bytes)) [
  | inl bad ↦ ground (arith, h, bad)
  | inr ((seq, b1), e1) ↦ elim (Option-cases (get_le 8 b1)) [
    | inl bad ↦ ground (arith, h, e1, bad)
    | inr ((raw, b2), e2) ↦ omega (
      arith,
      get_le-shrinks 8 bytes b1 seq e1,
      get_le-shrinks 8 b1 b2 raw e2,
      decode_texts-shrinks b2 rest seq (of_u64 raw) entry (ground (arith, h, e1, e2)),
    )
  ]
]

-- With a round for each byte the reader of bodies has enough of them: more change nothing.
pub decode_loop-enough :
    (f g : ℕ) (bytes : Bytes)
    → length bytes ≤ f
    → length bytes ≤ g
    → decode_loop f bytes ≡ decode_loop g bytes
unfolding decode_loop
decode_loop-enough f g [] h k = refl
decode_loop-enough zero g (b ∷ bytes) h k = absurd (omega arith)
decode_loop-enough (suc f) zero (b ∷ bytes) h k = absurd (omega arith)
decode_loop-enough (suc f) (suc g) (b ∷ bytes) h k =
    elim (Option-cases (decode_entry (b ∷ bytes))) [
      | inl bad ↦ rw (bad) refl
      | inr ((entry, rest), good) ↦ rw (good) (
          ap (λ o. o >>= λ entries. some (entry ∷ entries))
            (decode_loop-enough f g rest
              (omega (arith, decode_entry-shrinks (b ∷ bytes) rest entry good))
              (omega (arith, decode_entry-shrinks (b ∷ bytes) rest entry good))))
    ]
