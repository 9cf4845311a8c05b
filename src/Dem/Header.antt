-- ===== src/Dem/Header.antt =====
-- The header of a replay file (`EncodeDemHeaderJson`, `DecodeDemHeaderJson` of src/dem.cpp).
pub mod RoundTrip
use ph_k_battle_server.Base.{
  ℕ, ◌^◌, ◌&&◌, not, List, [], ◌∷◌, ◌++◌, Option, none, some, ltb, leb, ◌==◌, if◌then◌else◌, all,
  is_empty, Bytes, codes, bytes_eq, ◌>>=◌,
}
use ph_k_battle_server.Base.Int.{ℤ, pos}
use ph_k_battle_server.Base.Decimal.{to_string, to_string_ℤ, read_decimal}
use ph_k_battle_server.Ticket.Decimal.{minus}
use ph_k_battle_server.Ticket.Digits.{is_digit}
use ph_k_battle_server.Dem.{DemPlayer, DemHeader}
use ph_k_battle_server.Dem.Json.{
  DemJsonValue, null, boolean, number, string, array, object, Elements, no_elements, element,
  Members, no_members, member, dem_json_string, parse_json,
}

unfoldable pub encode_player : DemPlayer → Bytes
encode_player player =
    codes "{\"player_id\":"
    ++ (dem_json_string player.player_id
        ++ (codes ",\"user_id\":"
            ++ (dem_json_string player.user_id
                ++ (codes ",\"loadout\":{\"character_id\":"
                    ++ (dem_json_string player.loadout.character_id
                        ++ (codes ",\"shot_type\":"
                            ++ (dem_json_string player.loadout.shot_type
                                ++ (codes ",\"bomb_type\":"
                                    ++ (dem_json_string player.loadout.bomb_type
                                        ++ codes "}}")))))))))

-- The players, with a comma in front of all but the first.
unfoldable pub encode_players : List DemPlayer → Bytes
encode_players [] = []
encode_players (player ∷ []) = encode_player player
encode_players (player ∷ next ∷ players) =
    encode_player player ++ (b',' ∷ encode_players (next ∷ players))

unfoldable pub encode_dem_header_json : DemHeader → Bytes
encode_dem_header_json header =
    let boss_max_hp =
      if ltb 0 header.boss_max_hp
      then codes ",\"boss_max_hp\":" ++ to_string header.boss_max_hp
      else [] in
    codes "{\"match_id\":"
    ++ (dem_json_string header.match_id
        ++ (codes ",\"mode_id\":"
            ++ (dem_json_string header.mode_id
                ++ (codes ",\"boss_id\":"
                    ++ (dem_json_string header.boss_id
                        ++ (codes ",\"ruleset_version\":"
                            ++ (dem_json_string header.ruleset_version
                                ++ (codes ",\"server_seed\":"
                                    ++ (dem_json_string header.server_seed
                                        ++ (codes ",\"tick_rate_hz\":"
                                            ++ (to_string header.tick_rate_hz
                                                ++ (codes ",\"final_tick\":"
                                                    ++ (to_string_ℤ header.final_tick
                                                        ++ (codes ",\"final_state_hash\":"
                                                            ++ (dem_json_string
                                                            header.final_state_hash
                                                            ++ (boss_max_hp
                                                            ++ (codes ",\"players\":["
                                                            ++ (encode_players header.players
                                                            ++ (codes "],\"created_at\":"
                                                            ++ (to_string_ℤ header.created_at
                                                            ++ (codes ",\"entry_count\":"
                                                            ++ (to_string header.entry_count
                                                            ++ (codes ",\"chain_head_digest\":"
                                                            ++ (dem_json_string
                                                            header.chain_head_digest
                                                            ++ codes "}"))))))))))))))))))))))))

unfoldable pub find_member : Bytes → Members → Option DemJsonValue
find_member key no_members = none
find_member key (member name value rest) =
    let later = find_member key rest in if bytes_eq name key then some value else later

-- `DemField`; none stands for a null pointer.
unfoldable pub dem_field : Bytes → DemJsonValue → Option DemJsonValue
dem_field key (object members) = find_member key members
dem_field key null = none
dem_field key (boolean b) = none
dem_field key (number text) = none
dem_field key (string text) = none
dem_field key (array _) = none

-- `strtoll` and `strtoull` on the text of a number, where they take all of it.
unfoldable pub whole_number : Bytes → Option ℕ
whole_number text =
    if not (is_empty text) && all is_digit text then some (read_decimal 0 text) else none

unfoldable pub strtoll : Bytes → Option ℤ
strtoll [] = none
strtoll (ch ∷ rest) =
    if ch == b'-'
    then (whole_number rest >>= λ n. if leb n (2 ^ 63) then some (minus n) else none)
    else (whole_number (ch ∷ rest) >>= λ n. if ltb n (2 ^ 63) then some (pos n) else none)

unfoldable pub dem_bind_int : Option DemJsonValue → Option ℤ
dem_bind_int (some (number text)) = strtoll text
dem_bind_int _ = none

unfoldable pub dem_bind_uint : Option DemJsonValue → Option ℕ
dem_bind_uint (some (number text)) =
    whole_number text >>= λ n. if ltb n (2 ^ 64) then some n else none
dem_bind_uint _ = none

unfoldable pub dem_bind_string : Option DemJsonValue → Option Bytes
dem_bind_string (some (string text)) = some text
dem_bind_string _ = none

unfoldable pub string_field : Bytes → DemJsonValue → Option Bytes
string_field key value = dem_bind_string (dem_field key value)

unfoldable pub decode_player : DemJsonValue → Option DemPlayer
decode_player item = do
  player_id ← string_field (codes "player_id") item
  user_id ← string_field (codes "user_id") item
  loadout ← dem_field (codes "loadout") item
  character_id ← string_field (codes "character_id") loadout
  shot_type ← string_field (codes "shot_type") loadout
  bomb_type ← string_field (codes "bomb_type") loadout
  some (record {
    player_id = player_id;
    user_id = user_id;
    loadout = record { character_id = character_id; shot_type = shot_type; bomb_type = bomb_type };
  })

unfoldable pub decode_players : Elements → Option (List DemPlayer)
decode_players no_elements = some []
decode_players (element item rest) = do
  player ← decode_player item
  players ← decode_players rest
  some (player ∷ players)

unfoldable pub players_of : Option DemJsonValue → Option (List DemPlayer)
players_of (some (array elements)) = decode_players elements
players_of _ = none

-- The optional field.
unfoldable pub boss_max_hp_of : Option DemJsonValue → Option ℕ
boss_max_hp_of none = some 0
boss_max_hp_of (some value) = dem_bind_uint (some value)

unfoldable pub tick_rate_of : Option DemJsonValue → Option ℕ
tick_rate_of value = dem_bind_uint value >>= λ n. if ltb n (2 ^ 32) then some n else none

-- From the parsed document; a root that is no object has no fields.
unfoldable pub header_of : DemJsonValue → Option DemHeader
header_of root = do
  match_id ← string_field (codes "match_id") root
  mode_id ← string_field (codes "mode_id") root
  boss_id ← string_field (codes "boss_id") root
  ruleset_version ← string_field (codes "ruleset_version") root
  server_seed ← string_field (codes "server_seed") root
  tick_rate_hz ← tick_rate_of (dem_field (codes "tick_rate_hz") root)
  final_tick ← dem_bind_int (dem_field (codes "final_tick") root)
  final_state_hash ← string_field (codes "final_state_hash") root
  boss_max_hp ← boss_max_hp_of (dem_field (codes "boss_max_hp") root)
  created_at ← dem_bind_int (dem_field (codes "created_at") root)
  entry_count ← dem_bind_uint (dem_field (codes "entry_count") root)
  chain_head_digest ← string_field (codes "chain_head_digest") root
  players ← players_of (dem_field (codes "players") root)
  some (record {
    match_id = match_id;
    mode_id = mode_id;
    boss_id = boss_id;
    ruleset_version = ruleset_version;
    server_seed = server_seed;
    tick_rate_hz = tick_rate_hz;
    final_tick = final_tick;
    final_state_hash = final_state_hash;
    boss_max_hp = boss_max_hp;
    players = players;
    created_at = created_at;
    entry_count = entry_count;
    chain_head_digest = chain_head_digest;
  })

unfoldable pub decode_dem_header_json : Bytes → Option DemHeader
decode_dem_header_json json = parse_json json >>= header_of
