-- ===== src/Dem/Header/RoundTrip.antt =====
-- `DecodeDemHeaderJson` of src/dem.cpp on what `EncodeDemHeaderJson` writes.
use ph_k_battle_server.Base.{
  ℕ, ◌+◌, ◌^◌, ◌≤◌, ◌<◌, ◌≡◌, refl, ap, ◌∙◌, inl, inr, Bool, true, false, List, [], ◌∷◌, ◌++◌, some,
  arith, ltb, Bytes, codes, bytes_eq, ◌>>=◌, append_assoc, Bool-cases,
}
use ph_k_battle_server.Base.Int.{ℤ, pos, negsuc, FitsInt64}
use ph_k_battle_server.Base.Decimal.{to_string, to_string_ℤ, read-to_string}
use ph_k_battle_server.Ticket.Digits.{is_digit, is_plain_number, IsPlain-to_string}
use ph_k_battle_server.Dem.{DemPlayer, DemHeader}
use ph_k_battle_server.Dem.Json.{
  DemJsonValue, number, string, array, object, Elements, no_elements, element, Members, no_members,
  member, dem_json_string, dem_json_escape, parse_json, escape_byte,
}
use ph_k_battle_server.Dem.Json.Numbers.{IsInteger, plain, negative, plain-digits}
use ph_k_battle_server.Dem.Json.Printing.{
  string_onto, before_elements, before_members, value_onto, elements_onto, members_onto, IsPrinted,
  of_string, of_number, of_array, of_object, AreElements, end_of_elements, more_elements,
  AreMembers, end_of_members, more_members,
}
use ph_k_battle_server.Dem.Json.RoundTrip.{parse_json-onto}
use ph_k_battle_server.Dem.Header.{
  encode_player, encode_players, encode_dem_header_json, find_member, dem_field, whole_number,
  strtoll, dem_bind_int, dem_bind_uint, dem_bind_string, string_field, decode_player,
  decode_players, players_of, boss_max_hp_of, tick_rate_of, header_of, decode_dem_header_json,
}

-- The documents that are printed.
abbrev player_value : DemPlayer → DemJsonValue
player_value player = object (
    member (codes "player_id") (string player.player_id) (
      member (codes "user_id") (string player.user_id) (
        member (codes "loadout")
          (object (
            member (codes "character_id") (string player.loadout.character_id) (
              member (codes "shot_type") (string player.loadout.shot_type)
                (member (codes "bomb_type") (string player.loadout.bomb_type) no_members))))
          no_members)))

abbrev player_values : List DemPlayer → Elements
player_values [] = no_elements
player_values (player ∷ players) = element (player_value player) (player_values players)

-- The field that is written only when it is positive.
abbrev boss_member : Bool → ℕ → Members → Members
boss_member true hp rest = member (codes "boss_max_hp") (number (to_string hp)) rest
boss_member false hp rest = rest

abbrev last_members : DemHeader → Members
last_members header = member (codes "players") (array (player_values header.players)) (
    member (codes "created_at") (number (to_string_ℤ header.created_at)) (
      member (codes "entry_count") (number (to_string header.entry_count))
        (member (codes "chain_head_digest") (string header.chain_head_digest) no_members)))

abbrev header_value : DemHeader → DemJsonValue
header_value header = object (
    member (codes "match_id") (string header.match_id) (
      member (codes "mode_id") (string header.mode_id) (
        member (codes "boss_id") (string header.boss_id) (
          member (codes "ruleset_version") (string header.ruleset_version) (
            member (codes "server_seed") (string header.server_seed) (
              member (codes "tick_rate_hz") (number (to_string header.tick_rate_hz)) (
                member (codes "final_tick") (number (to_string_ℤ header.final_tick)) (
                  member (codes "final_state_hash") (string header.final_state_hash) (
                    boss_member (ltb 0 header.boss_max_hp) header.boss_max_hp
                      (last_members header))))))))))

string-onto : (value rest : Bytes) → dem_json_string value ++ rest ≡ string_onto value rest
unfolding dem_json_string string_onto
string-onto value rest = ap (λ t. b'"' ∷ t) (append_assoc (dem_json_escape value) (b'"' ∷ []) rest)

encode_player-onto :
    (player : DemPlayer) (rest : Bytes)
    → encode_player player ++ rest ≡ value_onto (player_value player) rest
unfolding encode_player value_onto members_onto before_members dem_json_escape escape_byte
    dem_json_string string_onto
encode_player-onto player rest = simp append_assoc refl

encode_players-onto :
    (players : List DemPlayer) (rest : Bytes)
    → encode_players players ++ (b']' ∷ rest) ≡ elements_onto (player_values players) rest
unfolding encode_players elements_onto before_elements
encode_players-onto [] rest = refl
encode_players-onto (player ∷ []) rest = encode_player-onto player (b']' ∷ rest)
encode_players-onto (player ∷ next ∷ players) rest =
    append_assoc (encode_player player) (b',' ∷ encode_players (next ∷ players)) (b']' ∷ rest)
    ∙ ap (λ t. encode_player player ++ (b',' ∷ t)) (encode_players-onto (next ∷ players) rest)
    ∙ encode_player-onto player (b',' ∷ elements_onto (player_values (next ∷ players)) rest)

-- Numbers of the header.
whole_number-to_string : (n : ℕ) → whole_number (to_string n) ≡ some n
unfolding whole_number
whole_number-to_string n =
    let (ds, more) = plain-digits (to_string n) (IsPlain-to_string n) in
    ground (arith, ds, more, read-to_string n)

bind_uint-to_string : (n : ℕ) → n < 2 ^ 64 → dem_bind_uint (some (number (to_string n))) ≡ some n
unfolding dem_bind_uint
bind_uint-to_string n h = ground (arith, whole_number-to_string n, h)

strtoll-plain :
    (digits : Bytes) (n : ℕ)
    → is_plain_number digits ≡ true
    → whole_number digits ≡ some n
    → n < 2 ^ 63
    → strtoll digits ≡ some (pos n)
unfolding strtoll is_plain_number is_digit
strtoll-plain [] n p w h = cc
strtoll-plain (ch ∷ digits) n p w h = ground (arith, p, w, h)

bind_int-to_string : (z : ℤ) → FitsInt64 z → dem_bind_int (some (number (to_string_ℤ z))) ≡ some z
unfolding dem_bind_int to_string_ℤ strtoll FitsInt64
bind_int-to_string (pos n) h =
    strtoll-plain (to_string n) n (IsPlain-to_string n) (whole_number-to_string n) (omega arith)
bind_int-to_string (negsuc n) h = ground (arith, whole_number-to_string (n + 1), h)

-- The widths of the numbers of the struct.
pub record HeaderFits (header : DemHeader) : Type 0 where
  pub tick_rate_fits : header.tick_rate_hz < 2 ^ 32
  pub final_tick_fits : FitsInt64 header.final_tick
  pub boss_max_hp_fits : header.boss_max_hp < 2 ^ 64
  pub created_at_fits : FitsInt64 header.created_at
  pub entry_count_fits : header.entry_count < 2 ^ 64

to_string-IsInteger : (n : ℕ) → IsInteger (to_string n)
to_string-IsInteger n = plain (to_string n) (IsPlain-to_string n)

to_string_ℤ-IsInteger : (z : ℤ) → IsInteger (to_string_ℤ z)
unfolding to_string_ℤ
to_string_ℤ-IsInteger (pos n) = to_string-IsInteger n
to_string_ℤ-IsInteger (negsuc n) = negative (to_string (n + 1)) (IsPlain-to_string (n + 1))

decode_player-value : (player : DemPlayer) → decode_player (player_value player) ≡ some player
unfolding decode_player string_field dem_field find_member dem_bind_string bytes_eq
decode_player-value player = refl

decode_players-values :
    (players : List DemPlayer) → decode_players (player_values players) ≡ some players
unfolding decode_players
decode_players-values [] = refl
decode_players-values (player ∷ players) =
    simp (decode_player-value player, decode_players-values players) refl

encode-onto :
    (header : DemHeader) → encode_dem_header_json header ≡ value_onto (header_value header) []
unfolding encode_dem_header_json value_onto members_onto before_members dem_json_escape escape_byte
    dem_json_string string_onto
encode-onto header = elim (Bool-cases (ltb 0 header.boss_max_hp)) [
  | inl some_hp ↦ simp (some_hp, append_assoc, encode_players-onto) refl
  | inr no_hp ↦ simp (no_hp, append_assoc, encode_players-onto) refl
]

tick_rate-to_string : (n : ℕ) → n < 2 ^ 32 → tick_rate_of (some (number (to_string n))) ≡ some n
unfolding tick_rate_of
tick_rate-to_string n h = ground (arith, bind_uint-to_string n (omega arith), h)

header_of-value :
    (header : DemHeader) → HeaderFits header → header_of (header_value header) ≡ some header
unfolding header_of string_field dem_field find_member dem_bind_string bytes_eq players_of
    boss_max_hp_of
header_of-value header f = elim (Bool-cases (ltb 0 header.boss_max_hp)) [
  | inl some_hp ↦
      simp
        (
          some_hp,
          tick_rate-to_string header.tick_rate_hz f.tick_rate_fits,
          bind_int-to_string header.final_tick f.final_tick_fits,
          bind_uint-to_string header.boss_max_hp f.boss_max_hp_fits,
          bind_int-to_string header.created_at f.created_at_fits,
          bind_uint-to_string header.entry_count f.entry_count_fits,
          decode_players-values header.players,
        )
        refl
  | inr no_hp ↦
      let nothing : 0 ≡ header.boss_max_hp = ground (arith, no_hp) in
      simp
        (
          no_hp,
          tick_rate-to_string header.tick_rate_hz f.tick_rate_fits,
          bind_int-to_string header.final_tick f.final_tick_fits,
          bind_int-to_string header.created_at f.created_at_fits,
          bind_uint-to_string header.entry_count f.entry_count_fits,
          decode_players-values header.players,
        )
        (ap (λ hp. some (record header { boss_max_hp = hp })) nothing)
]

-- The document is one that the parser reads back.
text_field :
    (depth : ℕ) (k text : Bytes) (r : Members)
    → depth + 1 ≤ 32
    → AreMembers depth r
    → AreMembers depth (member k (string text) r)
text_field depth k text r h ps =
    more_members depth k (string text) r (of_string (depth + 1) text h) ps

number_field :
    (depth : ℕ) (k text : Bytes) (r : Members)
    → depth + 1 ≤ 32
    → IsInteger text
    → AreMembers depth r
    → AreMembers depth (member k (number text) r)
number_field depth k text r h i ps =
    more_members depth k (number text) r (of_number (depth + 1) text h i) ps

player_value-IsPrinted : (player : DemPlayer) → IsPrinted 2 (player_value player)
player_value-IsPrinted player = of_object 2 _ (omega arith) (
    text_field 2 _ player.player_id _ (omega arith) (
      text_field 2 _ player.user_id _ (omega arith) (
        more_members 2 _ _ no_members
          (of_object 3 _ (omega arith) (
            text_field 3 _ player.loadout.character_id _ (omega arith) (
              text_field 3 _ player.loadout.shot_type _ (omega arith) (
                text_field 3 _ player.loadout.bomb_type no_members (omega arith)
                  (end_of_members 3)))))
          (end_of_members 2))))

player_values-AreElements : (players : List DemPlayer) → AreElements 1 (player_values players)
player_values-AreElements [] = end_of_elements 1
player_values-AreElements (player ∷ players) =
    more_elements 1 _ _ (player_value-IsPrinted player) (player_values-AreElements players)

last_members-AreMembers : (header : DemHeader) → AreMembers 0 (last_members header)
last_members-AreMembers header =
    more_members 0 _ _ _ (of_array 1 _ (omega arith) (player_values-AreElements header.players)) (
      number_field 0 _ _ _ (omega arith) (to_string_ℤ-IsInteger header.created_at) (
        number_field 0 _ _ _ (omega arith) (to_string-IsInteger header.entry_count)
          (text_field 0 _ header.chain_head_digest no_members (omega arith) (end_of_members 0))))

boss_member-AreMembers :
    (b : Bool) (hp : ℕ) (r : Members) → AreMembers 0 r → AreMembers 0 (boss_member b hp r)
boss_member-AreMembers true hp r ps = number_field 0 _ _ r (omega arith) (to_string-IsInteger hp) ps
boss_member-AreMembers false hp r ps = ps

header_value-IsPrinted : (header : DemHeader) → IsPrinted 0 (header_value header)
header_value-IsPrinted header = of_object 0 _ (omega arith) (
    text_field 0 _ header.match_id _ (omega arith) (
      text_field 0 _ header.mode_id _ (omega arith) (
        text_field 0 _ header.boss_id _ (omega arith) (
          text_field 0 _ header.ruleset_version _ (omega arith) (
            text_field 0 _ header.server_seed _ (omega arith) (
              number_field 0 _ _ _ (omega arith) (to_string-IsInteger header.tick_rate_hz) (
                number_field 0 _ _ _ (omega arith) (to_string_ℤ-IsInteger header.final_tick) (
                  text_field 0 _ header.final_state_hash _ (omega arith) (
                    boss_member-AreMembers (ltb 0 header.boss_max_hp) header.boss_max_hp
                      (last_members header) (last_members-AreMembers header))))))))))

-- A header whose numbers have the widths of the struct is read back from its JSON text, whatever
-- bytes its texts and its players' texts hold.
pub decode-encode_dem_header_json :
    (header : DemHeader)
    → HeaderFits header
    → decode_dem_header_json (encode_dem_header_json header) ≡ some header
unfolding decode_dem_header_json
decode-encode_dem_header_json header f =
    ap (λ json. parse_json json >>= header_of) (encode-onto header)
    ∙ ap (λ document. document >>= header_of)
        (parse_json-onto (header_value header) (header_value-IsPrinted header))
    ∙ header_of-value header f
