-- ===== src/Dem/Json.antt =====
-- The JSON parser of src/dem.cpp (`DemJsonParser`). The text from the cursor on is the list of the bytes
-- that are left; the recursion has fuel.
pub mod Strings
pub mod Numbers
pub mod Printing
pub mod Lengths
pub mod RoundTrip
use ph_k_battle_server.Base.{
  ℕ, zero, suc, ◌+◌, ◌-◌, ◌*◌, ◌/◌, ◌%◌, Bool, true, false, ◌&&◌, ◌||◌, not, [], ◌∷◌, ◌++◌, Option,
  none, some, ltb, leb, ◌==◌, if◌then◌else◌, length, is_empty, Bytes, codes, ◌>>=◌,
}
use ph_k_battle_server.LobbyRng.{hex_digit}
use ph_k_battle_server.Protocol.Json.{has_prefix}
use ph_k_battle_server.Base.{drop}
use ph_k_battle_server.Aead.Open.{hex_nibble}
use ph_k_battle_server.Ticket.Digits.{is_digit}

mutual
  pub data DemJsonValue : Type 0 where
    null : DemJsonValue
    boolean : Bool → DemJsonValue
    number : Bytes → DemJsonValue
    string : Bytes → DemJsonValue
    array : Elements → DemJsonValue
    object : Members → DemJsonValue

  pub data Elements : Type 0 where
    no_elements : Elements
    element : DemJsonValue → Elements → Elements

  pub data Members : Type 0 where
    no_members : Members
    member : Bytes → DemJsonValue → Members → Members

-- One byte of a text in `DemJsonEscape`.
unfoldable pub escape_byte : ℕ → Bytes
escape_byte ch =
    if ch == b'"'
    then codes "\\\""
    else (if ch == b'\\'
        then codes "\\\\"
        else (if ch == 8
            then codes "\\b"
            else (if ch == 12
                then codes "\\f"
                else (if ch == 10
                    then codes "\\n"
                    else (if ch == 13
                        then codes "\\r"
                        else (if ch == 9
                            then codes "\\t"
                            else (if ltb ch 32
                                then codes "\\u00"
                                  ++ (hex_digit (ch / 16 % 16) ∷ hex_digit (ch % 16) ∷ [])
                                else ch ∷ [])))))))

unfoldable pub dem_json_escape : Bytes → Bytes
dem_json_escape [] = []
dem_json_escape (ch ∷ value) = escape_byte ch ++ dem_json_escape value

unfoldable pub dem_json_string : Bytes → Bytes
dem_json_string value = b'"' ∷ (dem_json_escape value ++ (b'"' ∷ []))

unfoldable pub skip_whitespace : Bytes → Bytes
skip_whitespace [] = []
skip_whitespace (ch ∷ rest) =
    if (ch == 32) || ((ch == 9) || ((ch == 10) || (ch == 13)))
    then skip_whitespace rest
    else ch ∷ rest

unfoldable pub literal : Bytes → Bytes → Option Bytes
literal word text = if has_prefix word text then some (drop (length word) text) else none

unfoldable pub append_utf8 : ℕ → Bytes
append_utf8 c =
    if leb c 0x7f
    then c ∷ []
    else (if leb c 0x7ff
        then (0xc0 + c / 64) ∷ (0x80 + c % 64) ∷ []
        else (if leb c 0xffff
            then (0xe0 + c / 4096) ∷ (0x80 + c / 64 % 64) ∷ (0x80 + c % 64) ∷ []
            else (0xf0 + c / 262144)
              ∷ (0x80 + c / 4096 % 64)
              ∷ (0x80 + c / 64 % 64)
              ∷ (0x80 + c % 64)
              ∷ []))

unfoldable pub parse_hex4 : Bytes → Option (ℕ × Bytes)
parse_hex4 (a ∷ b ∷ c ∷ d ∷ rest) = do
  x ← hex_nibble a
  y ← hex_nibble b
  z ← hex_nibble c
  w ← hex_nibble d
  some (((x * 16 + y) * 16 + z) * 16 + w, rest)
parse_hex4 _ = none

-- The low half of a surrogate pair, after the high one.
unfoldable pub low_surrogate : ℕ → Bytes → Option (Bytes × Bytes)
low_surrogate high (slash ∷ u ∷ text) =
    if (slash == b'\\') && (u == b'u')
    then (parse_hex4 text >>= λ (low, rest).
        if leb 0xdc00 low && leb low 0xdfff
        then some (append_utf8 (0x10000 + (high - 0xd800) * 1024 + (low - 0xdc00)), rest)
        else none)
    else none
low_surrogate high _ = none

unfoldable pub unicode_escape : Bytes → Option (Bytes × Bytes)
unicode_escape text = parse_hex4 text >>= λ (code_point, rest).
    if leb 0xd800 code_point && leb code_point 0xdbff
    then low_surrogate code_point rest
    else (if leb 0xdc00 code_point && leb code_point 0xdfff
        then none
        else some (append_utf8 code_point, rest))

-- What an escape stands for, and the text after it.
unfoldable pub escape_sequence : Bytes → Option (Bytes × Bytes)
escape_sequence [] = none
escape_sequence (esc ∷ rest) =
    if (esc == b'"') || ((esc == b'\\') || (esc == b'/'))
    then some (esc ∷ [], rest)
    else (if esc == b'b'
        then some (8 ∷ [], rest)
        else (if esc == b'f'
            then some (12 ∷ [], rest)
            else (if esc == b'n'
                then some (10 ∷ [], rest)
                else (if esc == b'r'
                    then some (13 ∷ [], rest)
                    else (if esc == b't'
                        then some (9 ∷ [], rest)
                        else (if esc == b'u' then unicode_escape rest else none))))))

-- One round of the loop in `ParseString`: the end, a failure, or a piece and the text after it.
pub data StringStep : Type 0 where
  closes : StringStep
  breaks : StringStep
  piece : Bytes → Bytes → StringStep

unfoldable pub string_step : ℕ → Bytes → StringStep
string_step ch rest =
    if ch == b'"'
    then closes
    else (if ltb ch 32
        then breaks
        else (if not (ch == b'\\') then piece (ch ∷ []) rest else elim (escape_sequence rest) [
          | none ↦ breaks
          | some (out, after) ↦ piece out after
        ]))

unfoldable pub string_loop : ℕ → Bytes → Option (Bytes × Bytes)
string_loop fuel [] = none
string_loop zero (ch ∷ rest) = none
string_loop (suc fuel) (ch ∷ rest) = elim (string_step ch rest) [
  | closes ↦ some ([], rest)
  | breaks ↦ none
  | piece out after ↦ string_loop fuel after >>= λ (tail, left). some (out ++ tail, left)
]

unfoldable pub parse_string : Bytes → Option (Bytes × Bytes)
parse_string [] = none
parse_string (ch ∷ rest) = if ch == b'"' then string_loop (length rest) rest else none

-- The digits at the front, and the rest.
unfoldable pub span_digits : Bytes → Bytes × Bytes
span_digits [] = ([], [])
span_digits (ch ∷ rest) =
    let (digits, after) = span_digits rest in
    if is_digit ch then (ch ∷ digits, after) else ([], ch ∷ rest)

-- One digit at least.
unfoldable pub some_digits : Bytes → Option (Bytes × Bytes)
some_digits text =
    let (digits, after) = span_digits text in if is_empty digits then none else some (digits, after)

unfoldable pub optional_sign : Bool → Bytes → Bytes × Bytes
optional_sign plus [] = ([], [])
optional_sign plus (ch ∷ rest) =
    if (ch == b'-') || (plus && (ch == b'+')) then (ch ∷ [], rest) else ([], ch ∷ rest)

unfoldable pub fraction : Bytes → Option (Bytes × Bytes)
fraction [] = some ([], [])
fraction (ch ∷ rest) =
    if ch == b'.'
    then (some_digits rest >>= λ (digits, after). some (ch ∷ digits, after))
    else some ([], ch ∷ rest)

unfoldable pub exponent : Bytes → Option (Bytes × Bytes)
exponent [] = some ([], [])
exponent (ch ∷ rest) =
    let (sign, unsigned) = optional_sign true rest in
    if (ch == b'e') || (ch == b'E')
    then (some_digits unsigned >>= λ (digits, after). some (ch ∷ (sign ++ digits), after))
    else some ([], ch ∷ rest)

unfoldable pub parse_number : Bytes → Option (DemJsonValue × Bytes)
parse_number text =
    let (sign, unsigned) = optional_sign false text in
    some_digits unsigned >>= λ (digits, t1). fraction t1 >>= λ (frac, t2).
    exponent t2 >>= λ (exp, t3). some (number (sign ++ (digits ++ (frac ++ exp))), t3)

-- The byte that must follow.
unfoldable pub expect : ℕ → Bytes → Option Bytes
expect wanted [] = none
expect wanted (ch ∷ rest) = if ch == wanted then some rest else none

-- What a value starts with.
pub data ValueStart : Type 0 where
  opens_object opens_array quotes true_word false_word null_word digits : ValueStart

unfoldable pub value_start : ℕ → ValueStart
value_start ch =
    if ch == b'{'
    then opens_object
    else (if ch == b'['
        then opens_array
        else (if ch == b'"'
            then quotes
            else (if ch == b't'
                then true_word
                else (if ch == b'f'
                    then false_word
                    else (if ch == b'n' then null_word else digits)))))

-- What stands behind a member or an element: another one, the end, or neither.
pub data Separator : Type 0 where
  comma closing : Bytes → Separator
  neither : Separator

unfoldable pub separator : ℕ → Bytes → Separator
separator close [] = neither
separator close (ch ∷ rest) =
    if ch == b',' then comma rest else (if ch == close then closing rest else neither)

unfoldable mutual
  pub parse_value : ℕ → ℕ → Bytes → Option (DemJsonValue × Bytes)
  parse_value zero depth text = none
  parse_value (suc fuel) depth [] = none
  parse_value (suc fuel) depth (ch ∷ rest) = if ltb 32 depth then none else elim (value_start ch) [
    | opens_object ↦ elim (expect b'}' (skip_whitespace rest)) [
      | some after ↦ some (object no_members, after)
      | none ↦ parse_members fuel depth rest >>= λ (members, after). some (object members, after)
    ]
    | opens_array ↦ elim (expect b']' (skip_whitespace rest)) [
      | some after ↦ some (array no_elements, after)
      | none ↦ parse_elements fuel depth rest >>= λ (elements, after). some (array elements, after)
    ]
    | quotes ↦ parse_string (ch ∷ rest) >>= λ (text, after). some (string text, after)
    | true_word ↦ literal (codes "true") (ch ∷ rest) >>= λ after. some (boolean true, after)
    | false_word ↦ literal (codes "false") (ch ∷ rest) >>= λ after. some (boolean false, after)
    | null_word ↦ literal (codes "null") (ch ∷ rest) >>= λ after. some (null, after)
    | digits ↦ parse_number (ch ∷ rest)
  ]

  pub parse_members : ℕ → ℕ → Bytes → Option (Members × Bytes)
  parse_members zero depth text = none
  parse_members (suc fuel) depth text = parse_string (skip_whitespace text) >>= λ (key, t1).
      expect b':' (skip_whitespace t1) >>= λ t2.
      parse_value fuel (depth + 1) (skip_whitespace t2) >>= λ (value, t3).
      elim (separator b'}' (skip_whitespace t3)) [
        | comma t4 ↦
            parse_members fuel depth t4 >>= λ (members, t5). some (member key value members, t5)
        | closing t4 ↦ some (member key value no_members, t4)
        | neither ↦ none
      ]

  pub parse_elements : ℕ → ℕ → Bytes → Option (Elements × Bytes)
  parse_elements zero depth text = none
  parse_elements (suc fuel) depth text =
      parse_value fuel (depth + 1) (skip_whitespace text) >>= λ (value, t1).
      elim (separator b']' (skip_whitespace t1)) [
        | comma t2 ↦
            parse_elements fuel depth t2 >>= λ (elements, t3). some (element value elements, t3)
        | closing t2 ↦ some (element value no_elements, t2)
        | neither ↦ none
      ]

-- The parser on a whole text.
unfoldable pub parse_json : Bytes → Option DemJsonValue
parse_json text = parse_value (2 * length text + 1) 0 (skip_whitespace text) >>= λ (value, rest).
    if is_empty (skip_whitespace rest) then some value else none
