-- ===== src/Protocol/Json.antt =====
-- The JSON scanner of src/protocol.cpp: `IsTopLevelJsonObjectKey`, `JsonFieldValueStart`,
-- `ExtractJsonStringField`, the Boolean field tests and `LooksLikeJsonObject`. A `string_view` is
-- the list of its bytes, an iterator or index a position in it, and `npos` is `none`.

pub mod RoundTrip
use ph_k_battle_server.Base.{
  ℕ, zero, suc, ◌+◌, Bool, true, false, ◌&&◌, ◌||◌, not, [], ◌∷◌, ◌++◌, Option, none, some, ltb,
  leb, ◌==◌, if◌then◌else◌, length, take, drop, Bytes, codes, bytes_eq,
}
use ph_k_battle_server.Base.Int.{ℤ, pos, negsuc, ◌+ℤ◌, ◌-ℤ◌}

-- `std::isspace` in the C locale.
unfoldable pub is_space : ℕ → Bool
is_space ch = ch == 32 || (leb 9 ch && leb ch 13)

-- How many bytes at the front pass `isspace`.
unfoldable pub spaces : Bytes → ℕ
unfolding is_space
spaces [] = 0
spaces (ch ∷ rest) = let n = spaces rest in if is_space ch then suc n else 0

-- The local variables of the loop in `IsTopLevelJsonObjectKey`.
pub record ScanState : Type 0 where
  pub object_depth : ℤ
  pub array_depth : ℤ
  pub in_string : Bool
  pub escaped : Bool

abbrev pub scan_start : ScanState
scan_start = record {
  object_depth = pos 0;
  array_depth = pos 0;
  in_string = false;
  escaped = false;
}

scan_in_string : ScanState → ℕ → ScanState
scan_in_string s ch =
    if s.escaped
    then record s { escaped = false }
    else (if ch == b'\\'
        then record s { escaped = true }
        else (if ch == b'"' then record s { in_string = false } else s))

scan_outside : ScanState → ℕ → ScanState
unfolding ◌+ℤ◌ ◌-ℤ◌
scan_outside s ch =
    if ch == b'"'
    then record s { in_string = true }
    else (if ch == b'{'
        then record s { object_depth = s.object_depth +ℤ pos 1 }
        else (if ch == b'}'
            then record s { object_depth = s.object_depth -ℤ pos 1 }
            else (if ch == b'['
                then record s { array_depth = s.array_depth +ℤ pos 1 }
                else (if ch == b']'
                    then record s { array_depth = s.array_depth -ℤ pos 1 }
                    else s))))

-- One round of the loop.
scan_byte : ScanState → ℕ → ScanState
unfolding scan_in_string scan_outside
scan_byte s ch = if s.in_string then scan_in_string s ch else scan_outside s ch

scan : ScanState → Bytes → ScanState
unfolding scan_byte
scan s [] = s
scan s (ch ∷ rest) = scan (scan_byte s ch) rest

eq_ℤ : ℤ → ℤ → Bool
eq_ℤ (pos a) (pos b) = a == b
eq_ℤ (negsuc a) (negsuc b) = a == b
eq_ℤ _ _ = false

unfoldable pub is_top_level_json_object_key : Bytes → ℕ → Bool
unfolding scan eq_ℤ
is_top_level_json_object_key payload_json key_start =
    let s = scan scan_start (take key_start payload_json) in
    not s.in_string && (eq_ℤ s.object_depth (pos 1) && eq_ℤ s.array_depth (pos 0))

unfoldable pub has_prefix : Bytes → Bytes → Bool
has_prefix [] value = true
has_prefix (c ∷ cs) [] = false
has_prefix (c ∷ cs) (d ∷ ds) = (c == d) && has_prefix cs ds

-- `string_view::find(needle)`: the first position at which the needle stands.
unfoldable pub find_bytes : Bytes → Bytes → Option ℕ
unfolding has_prefix
find_bytes needle [] = if has_prefix needle [] then some 0 else none
find_bytes needle (ch ∷ rest) =
    let later = find_bytes needle rest in
    if has_prefix needle (ch ∷ rest)
    then some 0
    else elim later [ none ↦ none | some i ↦ some (suc i) ]

-- `find(needle, start)`.
unfoldable pub find_from : Bytes → Bytes → ℕ → Option ℕ
unfolding find_bytes
find_from needle value start =
    if leb start (length value)
    then elim (find_bytes needle (drop start value)) [ none ↦ none | some i ↦ some (start + i) ]
    else none

unfoldable pub quoted : Bytes → Bytes
quoted field_name = b'"' ∷ field_name ++ b'"' ∷ []

-- Past the white space at a position.
unfoldable pub skip_spaces : Bytes → ℕ → ℕ
unfolding spaces
skip_spaces payload_json i = i + spaces (drop i payload_json)

unfoldable pub byte_is : Bytes → ℕ → ℕ → Bool
byte_is payload_json i ch = elim (drop i payload_json) [ [] ↦ false | c ∷ rest ↦ c == ch ]

-- What stands behind a key: white space, a colon, white space and the value.
unfoldable pub value_after_key : Bytes → ℕ → Option ℕ
unfolding skip_spaces byte_is
value_after_key payload_json key_end =
    let colon = skip_spaces payload_json key_end in
    if byte_is payload_json colon b':' then some (skip_spaces payload_json (colon + 1)) else none

-- The loop of `JsonFieldValueStart`. Each round moves `search_start` up, so `length + 1` rounds
-- are enough.
unfoldable pub field_value_loop : ℕ → Bytes → Bytes → ℕ → Option ℕ
field_value_loop zero payload_json field_name search_start = none
field_value_loop (suc fuel) payload_json field_name search_start =
    elim (find_from (quoted field_name) payload_json search_start) [
      | none ↦ none
      | some key_start ↦
          let again = field_value_loop fuel payload_json field_name (key_start + 1) in
          if is_top_level_json_object_key payload_json key_start
          then elim (value_after_key payload_json (key_start + length (quoted field_name))) [
            | none ↦ again
            | some value_start ↦ some value_start
          ]
          else again
    ]

unfoldable pub json_field_value_start : Bytes → Bytes → Option ℕ
json_field_value_start payload_json field_name =
    field_value_loop (suc (length payload_json)) payload_json field_name 0

-- One round of the loop of `ExtractJsonStringField`: it ends with a text, or goes on with the
-- decoded bytes and whether the last byte was a backslash.
pub data DecodeStep : Type 0 where
  stop : Bytes → DecodeStep
  more : Bytes → Bool → DecodeStep

decode_escaped : Bytes → ℕ → DecodeStep
decode_escaped decoded ch =
    if ch == b'"' || (ch == b'\\' || ch == b'/')
    then more (decoded ++ ch ∷ []) false
    else (if ch == b'b'
        then more (decoded ++ 8 ∷ []) false
        else (if ch == b'f'
            then more (decoded ++ 12 ∷ []) false
            else (if ch == b'n'
                then more (decoded ++ 10 ∷ []) false
                else (if ch == b'r'
                    then more (decoded ++ 13 ∷ []) false
                    else (if ch == b't' then more (decoded ++ 9 ∷ []) false else stop [])))))

decode_plain : Bytes → ℕ → DecodeStep
decode_plain decoded ch =
    if ch == b'"'
    then stop decoded
    else (if ch == b'\\' then more decoded true else more (decoded ++ ch ∷ []) false)

unfoldable pub decode_step : Bytes → Bool → ℕ → DecodeStep
unfolding decode_escaped decode_plain
decode_step decoded true ch = decode_escaped decoded ch
decode_step decoded false ch = decode_plain decoded ch

-- A text that ends before its closing quote gives the empty string.
unfoldable pub decode_string : Bytes → Bool → Bytes → Bytes
unfolding decode_step
decode_string decoded esc [] = []
decode_string decoded esc (ch ∷ rest) = elim (decode_step decoded esc ch) [
  | stop text ↦ text
  | more next esc' ↦ decode_string next esc' rest
]

unfoldable pub extract_json_string_field : Bytes → Bytes → Bytes
extract_json_string_field payload_json field_name =
    elim (json_field_value_start payload_json field_name) [
      | none ↦ []
      | some value_start ↦
          if byte_is payload_json value_start b'"'
          then decode_string [] false (drop (value_start + 1) payload_json)
          else []
    ]

-- `substr(start, count) == word`.
unfoldable pub word_at : Bytes → ℕ → ℕ → Bytes → Bool
word_at payload_json start count word = bytes_eq (take count (drop start payload_json)) word

unfoldable pub json_bool_field_is_true : Bytes → Bytes → Bool
json_bool_field_is_true payload_json field_name =
    elim (json_field_value_start payload_json field_name) [
      | none ↦ false
      | some token_start ↦ word_at payload_json token_start 4 (codes "true")
    ]

-- Whether something other than `,` and `}` follows the token.
unfoldable pub junk_follows : Bytes → ℕ → Bool
unfolding skip_spaces byte_is
junk_follows payload_json token_end =
    let next = skip_spaces payload_json token_end in
    ltb next (length payload_json)
    && (not (byte_is payload_json next b',') && not (byte_is payload_json next b'}'))

unfoldable pub json_bool_field_is_malformed : Bytes → Bytes → Bool
json_bool_field_is_malformed payload_json field_name =
    elim (json_field_value_start payload_json field_name) [
      | none ↦ false
      | some token_start ↦
          if word_at payload_json token_start 4 (codes "true")
          then junk_follows payload_json (token_start + 4)
          else (if word_at payload_json token_start 5 (codes "false")
              then junk_follows payload_json (token_start + 5)
              else true)
    ]
