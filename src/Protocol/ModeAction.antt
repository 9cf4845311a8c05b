-- ===== src/Protocol/ModeAction.antt =====
-- `ValidatePlaintextModeActionPayload` of src/protocol.cpp and what it calls.
use Prim.Native.String.{String}
use ph_k_battle_server.Base.{
  ℕ, ◌+◌, Bool, false, ◌&&◌, ◌||◌, not, List, [], ◌∷◌, map, Option, none, some, leb, ◌==◌,
  if◌then◌else◌, Bytes, codes, bytes_eq, is_empty, is_some,
}
use mathlib.Core.List.{reverse}
use ph_k_battle_server.Protocol.Json.{
  is_space, find_bytes, json_field_value_start, extract_json_string_field,
  json_bool_field_is_malformed, json_bool_field_is_true,
}

-- `std::tolower` in the C locale.
unfoldable pub to_lower : ℕ → ℕ
to_lower ch = if leb b'A' ch && leb ch b'Z' then ch + 32 else ch

unfoldable pub lower_ascii : Bytes → Bytes
unfolding to_lower
lower_ascii value = map to_lower value

skip_leading : Bytes → Bytes
unfolding is_space
skip_leading [] = []
skip_leading (ch ∷ rest) = let tail = skip_leading rest in if is_space ch then tail else ch ∷ rest

starts_with_byte : Bytes → ℕ → Bool
starts_with_byte [] ch = false
starts_with_byte (c ∷ rest) ch = c == ch

-- The text between the iterators `first` and `last`, read from both ends.
unfoldable pub looks_like_json_object : Bytes → Bool
unfolding skip_leading starts_with_byte
looks_like_json_object value =
    starts_with_byte (skip_leading value) b'{'
    && starts_with_byte (skip_leading (reverse (skip_leading value))) b'}'

abbrev pub authority_fields : List Bytes
authority_fields =
    codes "x_milli"
    ∷ codes "y_milli"
    ∷ codes "position"
    ∷ codes "damage"
    ∷ codes "hp_delta"
    ∷ codes "current_hp"
    ∷ codes "max_hp"
    ∷ codes "boss_hp"
    ∷ codes "boss_current_hp"
    ∷ codes "boss_max_hp"
    ∷ codes "boss_damage"
    ∷ codes "score"
    ∷ codes "rank"
    ∷ codes "reward"
    ∷ codes "inventory"
    ∷ codes "wallet"
    ∷ codes "currency"
    ∷ codes "grant"
    ∷ codes "item_id"
    ∷ codes "balance"
    ∷ codes "database"
    ∷ codes "steam_inventory"
    ∷ codes "result_hash"
    ∷ codes "battle_result"
    ∷ codes "settlement"
    ∷ []

-- The loop over the needles.
unfoldable pub contains_any : Bytes → List Bytes → Bool
unfolding find_bytes
contains_any value [] = false
contains_any value (needle ∷ needles) =
    is_some (find_bytes needle value) || contains_any value needles

unfoldable pub contains_client_authored_authority_field : Bytes → Bool
unfolding contains_any lower_ascii
contains_client_authored_authority_field payload_json =
    contains_any (lower_ascii payload_json) authority_fields

unfoldable pub is_allowed_mode_action_type : Bytes → Bool
unfolding bytes_eq
is_allowed_mode_action_type action_type =
    bytes_eq action_type (codes "cast_card")
    || (bytes_eq action_type (codes "select_round_card")
        || (bytes_eq action_type (codes "transfer_card")
            || (bytes_eq action_type (codes "ready") || bytes_eq action_type (codes "reconnect"))))

-- The test of the field `action_type`, where the payload has it.
unfoldable pub action_type_reason : Bytes → Option String
action_type_reason payload_json =
    if is_some (json_field_value_start payload_json (codes "action_type"))
    then (let action_type = extract_json_string_field payload_json (codes "action_type") in
        if is_empty action_type
        then some "mode_action_type_invalid"
        else (if is_allowed_mode_action_type action_type
            then none
            else some "mode_action_type_unsupported"))
    else none

unfoldable pub client_result_reason : Bytes → Option String
unfolding json_bool_field_is_malformed json_bool_field_is_true
    contains_client_authored_authority_field
client_result_reason payload_json =
    if json_bool_field_is_malformed payload_json (codes "client_result_authoritative")
    then some "mode_action_client_result_invalid"
    else (if json_bool_field_is_true payload_json (codes "client_result_authoritative")
        then some "mode_action_client_result_forbidden"
        else (if contains_client_authored_authority_field payload_json
            then some "mode_action_authority_field_forbidden"
            else none))

-- The reason of the refusal; `none` is the result `true`.
unfoldable pub validate_plaintext_mode_action_payload : Bytes → Option String
validate_plaintext_mode_action_payload payload_json =
    if is_empty payload_json || not (looks_like_json_object payload_json)
    then none
    else elim (action_type_reason payload_json) [
      | some reason ↦ some reason
      | none ↦ client_result_reason payload_json
    ]
