-- ===== src/Dem/Container/RoundTrip.antt =====
-- Reading back a replay file that `WriteDemDocument` of src/dem.cpp wrote.
use ph_k_battle_server.Base.{
  suc, ◌^◌, ◌≤◌, ◌<◌, ◌≡◌, refl, sym, ap, ◌∙◌, subst, Bool, true, false, not, List, [], ◌∷◌, ◌++◌,
  Option, none, some, arith, ◌==◌, length, All, Bytes, bytes_eq, bytes_eq_iff, bytes_eq_refl,
  if_both,
}
use ph_k_battle_server.Base.Int.{FitsInt64}
use ph_k_battle_server.Sha256.{sha256_bytes}
use ph_k_battle_server.ChainLog.{ChainEntry, genesis_prev_digest, verify_chain, head_digest}
use ph_k_battle_server.ChainLog.Laws.{verify_chain_iff}
use ph_k_battle_server.Dem.{DemHeader, DemBodyEntry, encode_dem_body}
use ph_k_battle_server.Dem.Header.RoundTrip.{HeaderFits, decode-encode_dem_header_json}
use ph_k_battle_server.Dem.Body.{Fits, decode-encode_dem_body}
use ph_k_battle_server.Dem.Header.{encode_dem_header_json, decode_dem_header_json}
use ph_k_battle_server.Dem.Container.{
  Zlib, DemWriteResult, parsed, max_capacity, max_header_len, dem_zlib_compress, write_failed,
  digests_match, is_too_long, body_entry, body_entries, container, write_body, write_entries,
  write_bodies, write_dem_document, rebuild, check_header, parse_bodies, parse_parts,
  parse_dem_document,
}
use ph_k_battle_server.Dem.Container.Inflate.{Inverts, decompress-Inverts}
use ph_k_battle_server.Dem.Container.Rebuild.{body_entries-cons, rebuild-chained, parse-container}

-- What a written file shows.
record IsWritten (z : Zlib) (header : DemHeader) (entries : List ChainEntry) (payloads : List Bytes)
    (bytes : Bytes) : Type 0 where
  paired : length entries ≡ length payloads
  counted : header.entry_count ≡ length entries
  headed : header.chain_head_digest ≡ head_digest entries
  matched : digests_match entries payloads ≡ true
  verified : (verify_chain entries).ok ≡ true
  bodies : List DemBodyEntry
  bodies_of : body_entries entries payloads ≡ some bodies
  contained :
      bytes
      ≡ container (encode_dem_header_json header) (dem_zlib_compress z (encode_dem_body bodies))

not-false : (b : Bool) → not b ≡ false → b ≡ true
not-false true h = refl
not-false false h = cc

write_entries-ok :
    (z : Zlib) (header : DemHeader) (entries : List ChainEntry) (bodies : List DemBodyEntry)
    → (write_entries z header entries bodies).ok ≡ true
    → ((verify_chain entries).ok ≡ true)
      × ((write_entries z header entries bodies).bytes
          ≡ container
              (encode_dem_header_json header)
              (dem_zlib_compress z (encode_dem_body bodies)))
unfolding write_entries write_body write_failed
write_entries-ok z header entries bodies h = (ground (arith, h), ground (arith, h))

write-IsWritten :
    (z : Zlib) (header : DemHeader) (entries : List ChainEntry) (payloads : List Bytes)
    → (write_dem_document z header entries payloads).ok ≡ true
    → IsWritten z header entries payloads (write_dem_document z header entries payloads).bytes
unfolding write_dem_document write_bodies write_failed
write-IsWritten z header entries payloads =
    let P : DemWriteResult → Type 0 =
      λ r. r.ok ≡ true → IsWritten z header entries payloads r.bytes in
    if_both P (not (length entries == length payloads)) (λ b h. cc)
      (λ paired.
        if_both P (not (header.entry_count == length entries)) (λ b h. cc)
          (λ counted.
            if_both P (not (bytes_eq header.chain_head_digest (head_digest entries))) (λ b h. cc)
              (λ headed.
                if_both P (not (digests_match entries payloads)) (λ b h. cc)
                  (λ matched.
                    with_bodies (ground (arith, paired)) (ground (arith, counted))
                      ((bytes_eq_iff header.chain_head_digest (head_digest entries)).0
                        (not-false _ headed))
                      (not-false _ matched) (body_entries entries payloads) refl))))
  where
    with_bodies :
        length entries ≡ length payloads
        → header.entry_count ≡ length entries
        → header.chain_head_digest ≡ head_digest entries
        → digests_match entries payloads ≡ true
        → (o : Option (List DemBodyEntry)) → body_entries entries payloads ≡ o
        → (write_bodies z header entries o).ok ≡ true
        → IsWritten z header entries payloads (write_bodies z header entries o).bytes
    with_bodies paired counted headed matched none e h = cc
    with_bodies paired counted headed matched (some bodies) e h =
        let (verified, contained) = write_entries-ok z header entries bodies h in
        record {
          paired = paired;
          counted = counted;
          headed = headed;
          matched = matched;
          verified = verified;
          bodies = bodies;
          bodies_of = e;
          contained = contained;
        }

-- The entries of a chain have the widths of the struct.
abbrev pub HasWidths : ChainEntry → Type 0
HasWidths entry = (entry.seq < 2 ^ 64) × FitsInt64 entry.tick

the_some : {x y : List DemBodyEntry} → some x ≡ some y → x ≡ y
the_some h = cc

bodies-Fits :
    (entries : List ChainEntry) (payloads : List Bytes) (bodies : List DemBodyEntry)
    → length entries ≡ length payloads
    → All HasWidths entries
    → body_entries entries payloads ≡ some bodies
    → All Fits bodies × (length bodies ≡ length entries)
unfolding body_entries is_too_long body_entry
bodies-Fits [] payloads bodies l w b =
    subst (λ x. All Fits x × (length x ≡ 0)) (the_some b) (tt, refl)
bodies-Fits (entry ∷ entries) [] bodies l w b = absurd (omega arith)
bodies-Fits (entry ∷ entries) (payload ∷ payloads) bodies l w b =
    let (more, rest, e) = body_entries-cons entry payload entries payloads bodies b in
    let (fits, count) = bodies-Fits entries payloads more (omega arith) w.1 rest in
    let first : Fits (body_entry entry payload) = record {
      seq_fits = w.0.0;
      tick_fits = w.0.1;
      player_fits = ground (arith, b);
      action_fits = ground (arith, b);
      payload_fits = ground (arith, b);
    } in
    subst (λ x. All Fits x × (length x ≡ suc (length entries))) (sym e)
      ((first, fits), omega (arith, count))

-- The refusals of the reader after the container: none for what was written.
parse_parts-ok :
    (z : Zlib) (header : DemHeader) (entries : List ChainEntry) (bodies : List DemBodyEntry)
    (header_json compressed : Bytes)
    → Inverts z (encode_dem_body bodies) compressed
    → length (encode_dem_body bodies) ≤ max_capacity
    → All Fits bodies
    → decode_dem_header_json header_json ≡ some header
    → rebuild genesis_prev_digest bodies ≡ entries
    → (verify_chain entries).ok ≡ true
    → header.entry_count ≡ length bodies
    → header.chain_head_digest ≡ head_digest entries
    → parse_parts z header_json compressed (sha256_bytes (header_json ++ compressed))
      ≡ parsed (record { header = header; entries = bodies })
unfolding parse_parts parse_bodies check_header
parse_parts-ok z header entries bodies header_json compressed inv small fits decoded rebuilt
      verified counted headed =
    ground (
      arith,
      bytes_eq_refl (sha256_bytes (header_json ++ compressed)),
      decompress-Inverts z (encode_dem_body bodies) compressed inv small,
      decode-encode_dem_body bodies fits,
      decoded,
      rebuilt,
      verified,
      counted,
      headed,
      bytes_eq_refl (head_digest entries),
    )

-- A file that the writer wrote is read back: the reader accepts it and gives the header and the entries
-- with their payloads. The numbers of the header and of the entries have the widths of the structs,
-- zlib does what its manual says, the body has at most 256 MiB, packed or not, and the text of the
-- header has at most 4 MiB.
pub parse-write_dem_document :
    (z : Zlib) (header : DemHeader) (entries : List ChainEntry) (payloads : List Bytes)
    → (write_dem_document z header entries payloads).ok ≡ true
    → All HasWidths entries
    → ((bodies : List DemBodyEntry)
        → body_entries entries payloads ≡ some bodies
        → Inverts z (encode_dem_body bodies) (dem_zlib_compress z (encode_dem_body bodies))
          × (length (encode_dem_body bodies) ≤ max_capacity)
          × (length (dem_zlib_compress z (encode_dem_body bodies)) ≤ max_capacity))
    → length (encode_dem_header_json header) ≤ max_header_len
    → HeaderFits header
    → (bodies : List DemBodyEntry) × (body_entries entries payloads ≡ some bodies)
      × (parse_dem_document z (write_dem_document z header entries payloads).bytes
          ≡ parsed (record { header = header; entries = bodies }))
parse-write_dem_document z header entries payloads ok widths zlib short fits_header =
    let w = write-IsWritten z header entries payloads ok in
    let (inv, small, packed) = zlib w.bodies w.bodies_of in
    let (fits, count) = bodies-Fits entries payloads w.bodies w.paired widths w.bodies_of in
    let json = encode_dem_header_json header in
    let compressed = dem_zlib_compress z (encode_dem_body w.bodies) in
    let rebuilt =
      rebuild-chained none entries payloads w.bodies ((verify_chain_iff entries).0 w.verified)
        w.paired w.matched w.bodies_of in
    (
      w.bodies,
      w.bodies_of,
      ap (parse_dem_document z) w.contained
          ∙ parse-container z json compressed short packed
          ∙ parse_parts-ok z header entries w.bodies json compressed inv small fits
              (decode-encode_dem_header_json header fits_header) rebuilt w.verified
              (w.counted ∙ sym count) w.headed,
    )
