-- ===== src/Dem/Tests.antt =====
-- A recorded match, its file, and the theorems at inputs that meet their premises.
use ph_k_battle_server.Base.{
  ℕ, ◌≤◌, ◌≡◌, refl, sym, ◌∙◌, subst, true, [], ◌∷◌, some, arith, Bytes, codes, length, List, leb,
  if◌then◌else◌, All,
}
use ph_k_battle_server.Base.Int.{pos, negsuc, FitsInt64}
use ph_k_battle_server.Base.Decimal.{to_string, to_string_ℤ, decimal_onto}
use ph_k_battle_server.Base.LittleEndian.{le_bytes}
use ph_k_battle_server.Sha256.{
  sha256_bytes, digest_bytes, big_endian, padded_message, pad_zeros, compress_blocks, compress,
}
use ph_k_battle_server.LobbyRng.{hex_text, hex_digit, short_hash_hex}
use ph_k_battle_server.ChainLog.{
  head_digest, back, next_seq, new_entry, append_entry, append_match_seed, chain_payload_digest,
  canonical_chain_seed_payload, compute_chain_entry_digest, chain_entry_digest_material,
  digest_head,
}
use ph_k_battle_server.Dem.{
  DemHeader, DemBodyEntry, encode_dem_body, encode_entry, put_bytes, to_u64,
}
use ph_k_battle_server.Dem.Json.{dem_json_string, dem_json_escape, escape_byte}
use ph_k_battle_server.Dem.Header.{
  encode_dem_header_json, encode_players, encode_player, decode_dem_header_json,
}
use ph_k_battle_server.Dem.Container.{
  Zlib, Uncompressed, z_ok, z_buf_error, z_failed, dem_zlib_compress, body_entries, body_entry,
  is_too_long, write_dem_document, parse_dem_document, parsed, max_capacity,
}
use ph_k_battle_server.Dem.Header.RoundTrip.{HeaderFits, decode-encode_dem_header_json}
use ph_k_battle_server.Dem.Container.Inflate.{Inverts}
use ph_k_battle_server.Dem.Container.RoundTrip.{HasWidths, parse-write_dem_document}
use ph_k_battle_server.Dem.Recorder.{
  DemRecorder, empty_recorder, record_match_seed, seed_of, run, finalize, finalize-ok,
}

-- A match of which the seed alone was recorded.
abbrev recorded : DemRecorder
recorded = run empty_recorder (seed_of 7 ∷ [])

recorded_head : head_digest recorded.chain ≡ codes "d9cc8bf7"
unfolding sha256_bytes padded_message pad_zeros big_endian compress_blocks compress digest_bytes
    record_match_seed head_digest back append_match_seed append_entry new_entry next_seq
    chain_payload_digest canonical_chain_seed_payload compute_chain_entry_digest
    chain_entry_digest_material digest_head short_hash_hex to_string to_string_ℤ decimal_onto
    hex_text hex_digit
recorded_head = refl

abbrev header : DemHeader
header = record {
  match_id = codes "m1";
  mode_id = codes "boss";
  boss_id = [];
  ruleset_version = codes "r\"1";
  server_seed = codes "7";
  tick_rate_hz = 60;
  final_tick = negsuc 2;
  final_state_hash = codes "00ff";
  boss_max_hp = 0;
  players =
      record {
        player_id = codes "p1";
        user_id = codes "u1";
        loadout = record { character_id = codes "c"; shot_type = codes "s"; bomb_type = [] };
      }
      ∷ [];
  created_at = pos 5;
  entry_count = 1;
  chain_head_digest = codes "d9cc8bf7";
}

-- A zlib that only marks what it was given.
abbrev expand : ℕ → Bytes → Uncompressed
expand capacity [] = z_failed
expand capacity (mark ∷ raw) = if leb (length raw) capacity then z_ok raw else z_buf_error

abbrev stored : Zlib
stored = record { compress = λ raw. some (1 ∷ raw); uncompress = expand }

stored-Inverts : (raw : Bytes) → Inverts stored raw (dem_zlib_compress stored raw)
unfolding dem_zlib_compress
stored-Inverts raw = record {
  compresses = refl;
  fills = refl;
  expands = λ capacity h. ground (arith, h);
  waits = λ capacity h. ground (arith, h);
}

abbrev seed_body : DemBodyEntry
seed_body = record {
  seq = 1;
  tick = pos 0;
  player_id = [];
  action_type = codes "match_seed";
  payload = codes "seed_kind=battle_derived|seed=7";
}

recorded_bodies : body_entries recorded.chain recorded.payloads ≡ some (seed_body ∷ [])
unfolding body_entries body_entry is_too_long record_match_seed append_match_seed append_entry
    new_entry next_seq back canonical_chain_seed_payload to_string decimal_onto
recorded_bodies = refl

body_length : length (encode_dem_body (seed_body ∷ [])) ≡ 63
unfolding encode_dem_body encode_entry put_bytes to_u64 le_bytes
body_length = refl

counted : header.entry_count ≡ length recorded.chain
unfolding record_match_seed append_match_seed append_entry
counted = refl

finalize-ok_example : (finalize stored (run empty_recorder (seed_of 7 ∷ [])) header).ok ≡ true
finalize-ok_example =
    finalize-ok stored (seed_of 7 ∷ []) header (seed_body ∷ []) counted (sym recorded_head)
      recorded_bodies (Inverts.fills (stored-Inverts (encode_dem_body (seed_body ∷ []))))

written : (write_dem_document stored header recorded.chain recorded.payloads).ok ≡ true
unfolding finalize
written =
    finalize-ok stored (seed_of 7 ∷ []) header (seed_body ∷ []) counted (sym recorded_head)
      recorded_bodies (Inverts.fills (stored-Inverts (encode_dem_body (seed_body ∷ []))))

recorded-HasWidths : All HasWidths recorded.chain
unfolding record_match_seed append_match_seed append_entry new_entry next_seq back FitsInt64
recorded-HasWidths = ((omega arith, omega arith), tt)

header_length : length (encode_dem_header_json header) ≡ 320
unfolding encode_dem_header_json encode_players encode_player dem_json_string dem_json_escape
    escape_byte to_string to_string_ℤ decimal_onto
header_length = refl

header_fits : HeaderFits header
unfolding FitsInt64
header_fits = record {
  tick_rate_fits = omega arith;
  final_tick_fits = omega arith;
  boss_max_hp_fits = omega arith;
  created_at_fits = omega arith;
  entry_count_fits = omega arith;
}

decode-encode_dem_header_json_example :
    decode_dem_header_json (encode_dem_header_json header) ≡ some header
decode-encode_dem_header_json_example = decode-encode_dem_header_json header header_fits

packed :
    (bodies : List DemBodyEntry)
    → body_entries recorded.chain recorded.payloads ≡ some bodies
    → Inverts stored (encode_dem_body bodies) (dem_zlib_compress stored (encode_dem_body bodies))
      × (length (encode_dem_body bodies) ≤ max_capacity)
      × (length (dem_zlib_compress stored (encode_dem_body bodies)) ≤ max_capacity)
unfolding dem_zlib_compress
packed bodies h =
    let same : seed_body ∷ [] ≡ bodies = same_some (sym recorded_bodies ∙ h) in
    (
      stored-Inverts (encode_dem_body bodies),
      omega (arith, small bodies same),
      omega (arith, small bodies same),
    )
  where
    same_some : {x y : List DemBodyEntry} → some x ≡ some y → x ≡ y
    same_some e = cc

    small : (x : List DemBodyEntry) → seed_body ∷ [] ≡ x → length (encode_dem_body x) ≤ 63
    small x e = subst (λ y. length (encode_dem_body y) ≤ 63) e (omega (arith, body_length))

parse-write_dem_document_example :
    (bodies : List DemBodyEntry) × (body_entries recorded.chain recorded.payloads ≡ some bodies)
    × (parse_dem_document stored
          (write_dem_document stored header recorded.chain recorded.payloads).bytes
        ≡ parsed (record { header = header; entries = bodies }))
parse-write_dem_document_example =
    parse-write_dem_document stored header recorded.chain recorded.payloads written
      recorded-HasWidths packed (omega (arith, header_length)) header_fits
