-- ===== src/Protocol/Json/RoundTrip.antt =====
-- The string decoder of `ExtractJsonStringField` (src/protocol.cpp) against a printer of JSON texts.
use ph_k_battle_server.Base.{
  ℕ, zero, suc, ◌+◌, ◌≡◌, refl, sym, ◌∙◌, true, false, [], ◌∷◌, ◌++◌, some, arith, ◌==◌, ==_iff,
  if◌then◌else◌, length, drop, Bytes, length-append,
}
use mathlib.Core.List.{append_assoc, append-nil}
use native.Mathlib.Nat.{add-zero, suc-add}
use ph_k_battle_server.Protocol.Json.{
  spaces, has_prefix, find_bytes, json_field_value_start, extract_json_string_field, decode_string,
  field_value_loop, find_from, quoted, value_after_key, is_top_level_json_object_key, skip_spaces,
  byte_is,
}

-- How a byte stands in a JSON text: the two-byte escapes that the decoder reads, or itself.
pub escape_byte : ℕ → Bytes
escape_byte ch =
    if ch == b'"'
    then b'\\' ∷ b'"' ∷ []
    else (if ch == b'\\'
        then b'\\' ∷ b'\\' ∷ []
        else (if ch == 8
            then b'\\' ∷ b'b' ∷ []
            else (if ch == 12
                then b'\\' ∷ b'f' ∷ []
                else (if ch == 10
                    then b'\\' ∷ b'n' ∷ []
                    else (if ch == 13
                        then b'\\' ∷ b'r' ∷ []
                        else (if ch == 9 then b'\\' ∷ b't' ∷ [] else ch ∷ []))))))

pub escape : Bytes → Bytes
unfolding escape_byte
escape [] = []
escape (ch ∷ text) = escape_byte ch ++ escape text

-- The object with one string field.
pub print_field : Bytes → Bytes → Bytes
unfolding escape
print_field field_name text =
    b'{' ∷ quoted field_name ++ (b':' ∷ b'"' ∷ (escape text ++ (b'"' ∷ b'}' ∷ [])))

decode-escape_byte :
    (decoded : Bytes) (ch : ℕ) (rest : Bytes)
    → decode_string decoded false (escape_byte ch ++ rest)
      ≡ decode_string (decoded ++ ch ∷ []) false rest
unfolding decode_string escape_byte
decode-escape_byte decoded ch rest = ground arith

decode-escape :
    (text decoded rest : Bytes)
    → decode_string decoded false (escape text ++ (b'"' ∷ rest)) ≡ decoded ++ text
unfolding escape
decode-escape [] decoded rest = unfold decode_string in sym (append-nil decoded)
decode-escape (ch ∷ text) decoded rest = simp append_assoc (
    decode-escape_byte decoded ch (escape text ++ (b'"' ∷ rest))
    ∙ decode-escape text (decoded ++ ch ∷ []) rest
    ∙ append_assoc decoded (ch ∷ []) text)

drop-length-append : (i : ℕ) (front back : Bytes) → i ≡ length front → drop i (front ++ back) ≡ back
drop-length-append zero [] back e = refl
drop-length-append zero (c ∷ front) back e = absurd (omega arith)
drop-length-append (suc i) [] back e = absurd (omega arith)
drop-length-append (suc i) (c ∷ front) back e = drop-length-append i front back (omega arith)

has_prefix-append : (word rest : Bytes) → has_prefix word (word ++ rest) ≡ true
unfolding has_prefix
has_prefix-append [] rest = refl
has_prefix-append (c ∷ word) rest = ground (arith, has_prefix-append word rest)

byte_is_at :
    (i : ℕ) (text : Bytes) (ch : ℕ) (rest : Bytes)
    → drop i text ≡ ch ∷ rest
    → byte_is text i ch ≡ true
unfolding byte_is
byte_is_at i text ch rest h = rw (h, byte_is) ((==_iff ch ch).1 refl)

-- A value that begins right behind the key and its colon.
value_after_key_next :
    (front tail : Bytes) (i : ℕ)
    → i ≡ length front
    → value_after_key (front ++ (b':' ∷ b'"' ∷ tail)) i ≡ some (i + 1)
unfolding value_after_key skip_spaces spaces
value_after_key_next front tail i e =
    let here : drop i (front ++ (b':' ∷ b'"' ∷ tail)) ≡ b':' ∷ b'"' ∷ tail =
      drop-length-append i front (b':' ∷ b'"' ∷ tail) e in
    let next : drop (i + 1) (front ++ (b':' ∷ b'"' ∷ tail)) ≡ b'"' ∷ tail =
      rw (← append_assoc front (b':' ∷ []) (b'"' ∷ tail)) (
        drop-length-append (i + 1) (front ++ b':' ∷ []) (b'"' ∷ tail)
          (omega (arith, length-append front (b':' ∷ [])))) in
    simp (here, next, add-zero)
      (rw (byte_is_at i (front ++ (b':' ∷ b'"' ∷ tail)) b':' (b'"' ∷ tail) here))

-- The key of a printed field is the first match, at the top level, and its value comes next.
printed_key :
    (field_name text : Bytes)
    → find_from (quoted field_name) (print_field field_name text) 0 ≡ some 1
unfolding find_from find_bytes quoted print_field
printed_key field_name text =
    ground (arith, has_prefix-append (quoted field_name) (b':' ∷ b'"' ∷ (escape text ++ tail)))
  where
    tail : Bytes
    tail = b'"' ∷ b'}' ∷ []

printed_key_top_level :
    (field_name text : Bytes) → is_top_level_json_object_key (print_field field_name text) 1 ≡ true
unfolding is_top_level_json_object_key print_field
printed_key_top_level field_name text = refl

printed_value :
    (field_name text : Bytes)
    → value_after_key (print_field field_name text) (1 + length (quoted field_name))
      ≡ some (1 + length (quoted field_name) + 1)
unfolding print_field
printed_value field_name text =
    value_after_key_next (b'{' ∷ quoted field_name) (escape text ++ (b'"' ∷ b'}' ∷ []))
      (1 + length (quoted field_name)) (omega arith)

printed_field_start :
    (field_name text : Bytes)
    → json_field_value_start (print_field field_name text) field_name
      ≡ some (1 + length (quoted field_name) + 1)
unfolding json_field_value_start field_value_loop
printed_field_start field_name text = ground (
  arith,
  printed_key field_name text,
  printed_key_top_level field_name text,
  printed_value field_name text,
)

printed_text :
    (field_name text : Bytes)
    → drop (1 + length (quoted field_name) + 1) (print_field field_name text)
      ≡ b'"' ∷ (escape text ++ (b'"' ∷ b'}' ∷ []))
unfolding print_field
printed_text field_name text =
    rw (← append_assoc (quoted field_name) (b':' ∷ []) (b'"' ∷ (escape text ++ (b'"' ∷ b'}' ∷ []))))
      (drop-length-append (1 + length (quoted field_name) + 1)
        (b'{' ∷ (quoted field_name ++ b':' ∷ [])) (b'"' ∷ (escape text ++ (b'"' ∷ b'}' ∷ [])))
        (omega (arith, length-append (quoted field_name) (b':' ∷ []))))

drop_next :
    (i : ℕ) (text : Bytes) {ch : ℕ} {rest : Bytes}
    → drop i text ≡ ch ∷ rest
    → drop (i + 1) text ≡ rest
drop_next zero [] h = cc
drop_next zero (c ∷ text) h = cc
drop_next (suc i) [] h = cc
drop_next (suc i) (c ∷ text) h = rw (suc-add) (drop_next i text h)

-- A text that is printed as the only field of an object is read back, whatever bytes it and the
-- name of the field hold.
pub extract-print_field :
    (field_name text : Bytes)
    → extract_json_string_field (print_field field_name text) field_name ≡ text
unfolding extract_json_string_field
extract-print_field field_name text =
    let start = 1 + length (quoted field_name) + 1 in
    rw (printed_field_start field_name text, extract_json_string_field)
      (rw (byte_is_at start (print_field field_name text) b'"' _ (printed_text field_name text)) (
        rw (drop_next start (print_field field_name text) (printed_text field_name text))
          (decode-escape text [] (b'}' ∷ []))))
