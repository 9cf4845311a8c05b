-- ===== src/Dem/Container.antt =====
-- The container of a replay file: compression, `WriteDemDocument` and `ParseDemDocument` of src/dem.cpp.
-- zlib's `compress2` and `uncompress` are parameters.
pub mod Inflate
pub mod Rebuild
pub mod RoundTrip
use ph_k_battle_server.Base.{
  ℕ, zero, suc, ◌+◌, ◌*◌, ◌%◌, ◌^◌, Bool, true, false, ◌&&◌, ◌||◌, not, List, [], ◌∷◌, ◌++◌, Option,
  none, some, min, max, ltb, leb, ◌==◌, if◌then◌else◌, length, take, drop, is_empty, Bytes, codes,
  bytes_eq, ◌>>=◌,
}
use ph_k_battle_server.Base.LittleEndian.{le_bytes, get_le}
use ph_k_battle_server.Sha256.{sha256_bytes}
use ph_k_battle_server.Protocol.Json.{has_prefix}
use ph_k_battle_server.ChainLog.{
  ChainEntry, ChainVerificationResult, genesis_prev_digest, compute_chain_entry_digest,
  chain_payload_digest, verify_chain, head_digest,
}
use ph_k_battle_server.Dem.{DemHeader, DemBodyEntry, encode_dem_body, decode_dem_body}
use ph_k_battle_server.Dem.Header.{encode_dem_header_json, decode_dem_header_json}

-- The answers of `uncompress`.
pub data Uncompressed : Type 0 where
  z_ok : Bytes → Uncompressed
  z_buf_error z_failed : Uncompressed

-- zlib: `compress2` into a buffer of `compressBound` bytes, and `uncompress` into a buffer of a size.
pub record Zlib : Type 0 where
  pub compress : Bytes → Option Bytes
  pub uncompress : ℕ → Bytes → Uncompressed

pub record DemDocument : Type 0 where
  pub header : DemHeader
  pub entries : List DemBodyEntry

pub record DemWriteResult : Type 0 where
  pub ok : Bool
  pub reason : Bytes
  pub bytes : Bytes

-- `DemParseResult`: a reason, or the document.
pub data DemParseResult : Type 0 where
  refused : Bytes → DemParseResult
  parsed : DemDocument → DemParseResult

abbrev pub dem_magic : Bytes
dem_magic = codes "PHDEM001"

abbrev pub max_capacity : ℕ
max_capacity = 268435456

abbrev pub max_header_len : ℕ
max_header_len = 4194304

unfoldable pub dem_zlib_compress : Zlib → Bytes → Bytes
dem_zlib_compress z raw = elim (z.compress raw) [ none ↦ [] | some out ↦ out ]

-- The attempts of `DemZlibDecompress` that are left.
unfoldable pub decompress_loop : Zlib → ℕ → ℕ → Bytes → Option Bytes
decompress_loop z zero capacity compressed = none
decompress_loop z (suc attempts) capacity compressed =
    let more = decompress_loop z attempts (min (capacity * 4) max_capacity) compressed in
    elim (z.uncompress capacity compressed) [
      | z_ok raw ↦ some raw
      | z_buf_error ↦ if leb max_capacity capacity then none else more
      | z_failed ↦ none
    ]

unfoldable pub dem_zlib_decompress : Zlib → Bytes → Option Bytes
dem_zlib_decompress z compressed =
    if is_empty compressed
    then none
    else decompress_loop z 10 (max (length compressed * 4) 1024) compressed

unfoldable pub write_failed : Bytes → DemWriteResult
write_failed reason = record { ok = false; reason = reason; bytes = [] }

-- Every payload has the digest of its entry.
unfoldable pub digests_match : List ChainEntry → List Bytes → Bool
digests_match [] payloads = true
digests_match (entry ∷ entries) [] = true
digests_match (entry ∷ entries) (payload ∷ payloads) =
    bytes_eq (chain_payload_digest payload) entry.payload_digest && digests_match entries payloads

unfoldable pub is_too_long : ChainEntry → Bytes → Bool
is_too_long entry payload =
    ltb 65535 (length entry.player_id)
    || (ltb 65535 (length entry.action_type) || ltb 65535 (length payload))

unfoldable pub body_entry : ChainEntry → Bytes → DemBodyEntry
body_entry entry payload = record {
  seq = entry.seq;
  tick = entry.tick;
  player_id = entry.player_id;
  action_type = entry.action_type;
  payload = payload;
}

-- None if a text is too long for the format.
unfoldable pub body_entries : List ChainEntry → List Bytes → Option (List DemBodyEntry)
body_entries [] payloads = some []
body_entries (entry ∷ entries) [] = some []
body_entries (entry ∷ entries) (payload ∷ payloads) =
    let rest = body_entries entries payloads in
    if is_too_long entry payload
    then none
    else (rest >>= λ more. some (body_entry entry payload ∷ more))

-- The bytes of a file.
unfoldable pub container : Bytes → Bytes → Bytes
container header_json compressed =
    dem_magic
    ++ (le_bytes 4 (length header_json % 2 ^ 32)
        ++ (header_json
            ++ (le_bytes 8 (length compressed % 2 ^ 64)
                ++ (compressed ++ sha256_bytes (header_json ++ compressed)))))

unfoldable pub write_body : Zlib → DemHeader → List DemBodyEntry → DemWriteResult
write_body z header body_entries =
    let body = encode_dem_body body_entries in
    let compressed = dem_zlib_compress z body in
    if not (is_empty body) && is_empty compressed
    then write_failed (codes "dem_zlib_compress_failed")
    else record {
      ok = true;
      reason = codes "ok";
      bytes = container (encode_dem_header_json header) compressed;
    }

unfoldable pub write_entries :
    Zlib → DemHeader → List ChainEntry → List DemBodyEntry → DemWriteResult
write_entries z header entries body_entries =
    let verified = verify_chain entries in
    if not verified.ok
    then write_failed (codes "dem_chain_verify_failed:" ++ verified.reason)
    else write_body z header body_entries

unfoldable pub write_bodies :
    Zlib → DemHeader → List ChainEntry → Option (List DemBodyEntry) → DemWriteResult
write_bodies z header entries none = write_failed (codes "dem_payload_too_long")
write_bodies z header entries (some bodies) = write_entries z header entries bodies

unfoldable pub write_dem_document : Zlib → DemHeader → List ChainEntry → List Bytes → DemWriteResult
write_dem_document z header entries payloads =
    if not (length entries == length payloads)
    then write_failed (codes "dem_payload_count_mismatch")
    else (if not (header.entry_count == length entries)
        then write_failed (codes "dem_header_entry_count_mismatch")
        else (if not (bytes_eq header.chain_head_digest (head_digest entries))
            then write_failed (codes "dem_header_head_digest_mismatch")
            else (if not (digests_match entries payloads)
                then write_failed (codes "dem_payload_digest_mismatch")
                else write_bodies z header entries (body_entries entries payloads))))

-- The chain that the body stands for; the digest before it.
unfoldable pub rebuild : Bytes → List DemBodyEntry → List ChainEntry
rebuild prev [] = []
rebuild prev (body ∷ bodies) =
    let bare : ChainEntry = record {
      seq = body.seq;
      tick = body.tick;
      player_id = body.player_id;
      action_type = body.action_type;
      payload_digest = chain_payload_digest body.payload;
      prev_digest = prev;
      entry_digest = [];
    } in
    let digest = compute_chain_entry_digest bare in
    record bare { entry_digest = digest } ∷ rebuild digest bodies

-- The header against the chain.
unfoldable pub check_header : DemHeader → List ChainEntry → List DemBodyEntry → DemParseResult
check_header header entries bodies =
    if not (header.entry_count == length bodies)
    then refused (codes "dem_header_entry_count_mismatch")
    else (if not (bytes_eq header.chain_head_digest (head_digest entries))
        then refused (codes "dem_header_head_digest_mismatch")
        else parsed (record { header = header; entries = bodies }))

unfoldable pub parse_bodies : Bytes → List DemBodyEntry → DemParseResult
parse_bodies header_json bodies =
    let entries = rebuild genesis_prev_digest bodies in
    let verified = verify_chain entries in
    if not verified.ok
    then refused (codes "dem_chain_verify_failed:" ++ verified.reason)
    else elim (decode_dem_header_json header_json) [
      | none ↦ refused (codes "dem_header_decode_failed")
      | some header ↦ check_header header entries bodies
    ]

-- From the two parts and the trailer on.
unfoldable pub parse_parts : Zlib → Bytes → Bytes → Bytes → DemParseResult
parse_parts z header_json compressed trailer =
    if not (bytes_eq trailer (sha256_bytes (header_json ++ compressed)))
    then refused (codes "dem_sha256_mismatch")
    else elim (dem_zlib_decompress z compressed) [
      | none ↦ refused (codes "dem_zlib_failed")
      | some body ↦ elim (decode_dem_body body) [
        | none ↦ refused (codes "dem_body_decode_failed")
        | some bodies ↦ parse_bodies header_json bodies
      ]
    ]

-- From the length of the body on.
unfoldable pub parse_rest : Zlib → Bytes → Bytes → DemParseResult
parse_rest z header_json bytes = elim (get_le 8 bytes) [
  | none ↦ refused (codes "dem_truncated")
  | some (body_len, rest) ↦
      if ltb max_capacity body_len || not (body_len + 32 == length rest)
      then refused (codes "dem_length_mismatch")
      else parse_parts z header_json (take body_len rest) (drop body_len rest)
]

unfoldable pub parse_dem_document : Zlib → Bytes → DemParseResult
parse_dem_document z bytes =
    if ltb (length bytes) 52
    then refused (codes "dem_truncated")
    else (if not (has_prefix dem_magic bytes)
        then refused (codes "dem_bad_magic")
        else elim (get_le 4 (drop 8 bytes)) [
          | none ↦ refused (codes "dem_truncated")
          | some (header_len, rest) ↦
              if ltb max_header_len header_len
              then refused (codes "dem_header_too_large")
              else (if ltb (length rest) (header_len + 8)
                  then refused (codes "dem_truncated")
                  else parse_rest z (take header_len rest) (drop header_len rest))
        ])
