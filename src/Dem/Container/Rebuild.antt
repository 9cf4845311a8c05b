-- ===== src/Dem/Container/Rebuild.antt =====
-- The chain and the container that `ParseDemDocument` of src/dem.cpp rebuilds.
use ph_k_battle_server.Base.{
  ◌%◌, ◌^◌, ◌≤◌, ◌≡◌, refl, sym, ap, ◌∙◌, subst, inl, inr, true, List, [], ◌∷◌, ◌++◌, Option, some,
  arith, length, length-append, take-append, drop-append, Bytes, bytes_eq_iff, Option-cases,
}
use ph_k_battle_server.Base.LittleEndian.{le_bytes, get_le-le_bytes, length-le_bytes}
use ph_k_battle_server.Sha256.{sha256_bytes}
use ph_k_battle_server.Sha256.Laws.{length-sha256_bytes}
use ph_k_battle_server.Protocol.Json.{has_prefix}
use ph_k_battle_server.ChainLog.{
  ChainEntry, compute_chain_entry_digest, chain_entry_digest_material, digest_head,
  chain_payload_digest,
}
use ph_k_battle_server.ChainLog.Laws.{due_digest, IsChained}
use ph_k_battle_server.Dem.{DemBodyEntry}
use ph_k_battle_server.Dem.Container.{
  Zlib, dem_magic, max_capacity, max_header_len, digests_match, body_entry, body_entries, container,
  rebuild, parse_parts, parse_rest, parse_dem_document,
}

-- An entry from its body, its payload's digest and the digest before it.
rebuilt_entry :
    (entry : ChainEntry) (d prev : Bytes)
    → entry.payload_digest ≡ d
    → entry.prev_digest ≡ prev
    → entry.entry_digest ≡ compute_chain_entry_digest entry
    → let bare : ChainEntry = record entry {
      payload_digest = d;
      prev_digest = prev;
      entry_digest = [];
    } in
      ◌≡◌ {A = ChainEntry} (record bare { entry_digest = compute_chain_entry_digest bare }) entry
unfolding compute_chain_entry_digest chain_entry_digest_material digest_head
rebuilt_entry entry d prev hd hp he =
    let P : Bytes → Bytes → Type 0 = λ d' p'.
      let bare : ChainEntry = record entry {
        payload_digest = d';
        prev_digest = p';
        entry_digest = [];
      } in
      ◌≡◌ {A = ChainEntry} (record bare { entry_digest = compute_chain_entry_digest bare }) entry in
    subst (λ d'. P d' prev) hd
      (subst (λ p'. P entry.payload_digest p') hp
        (ap (λ e. record entry { entry_digest = e }) (sym he)))

pub body_entries-cons :
    (entry : ChainEntry) (payload : Bytes) (entries : List ChainEntry) (payloads : List Bytes)
    (bodies : List DemBodyEntry)
    → body_entries (entry ∷ entries) (payload ∷ payloads) ≡ some bodies
    → (more : List DemBodyEntry) × (body_entries entries payloads ≡ some more)
      × (bodies ≡ body_entry entry payload ∷ more)
unfolding body_entries
body_entries-cons entry payload entries payloads bodies h =
    elim (Option-cases (body_entries entries payloads)) [
      | inl bad ↦ ground (arith, h, bad)
      | inr (more, good) ↦ (more, good, ground (arith, h, good))
    ]

same_cons :
    {x y : ChainEntry} {xs ys : List ChainEntry}
    → x ≡ y
    → xs ≡ ys
    → ◌≡◌ {A = List ChainEntry} (x ∷ xs) (y ∷ ys)
same_cons h k = cc

-- The chain of a body is the one it was written from.
pub rebuild-chained :
    (prev : Option ChainEntry) (entries : List ChainEntry) (payloads : List Bytes)
    (bodies : List DemBodyEntry)
    → IsChained prev entries
    → length entries ≡ length payloads
    → digests_match entries payloads ≡ true
    → body_entries entries payloads ≡ some bodies
    → rebuild (due_digest prev) bodies ≡ entries
unfolding rebuild digests_match body_entries body_entry
rebuild-chained prev [] payloads bodies c l d b = ground (arith, b)
rebuild-chained prev (entry ∷ entries) [] bodies c l d b = absurd (omega arith)
rebuild-chained prev (entry ∷ entries) (payload ∷ payloads) bodies c l d b =
    let (more, rest, e) = body_entries-cons entry payload entries payloads bodies b in
    let matches : chain_payload_digest payload ≡ entry.payload_digest =
      ground (arith, d, bytes_eq_iff (chain_payload_digest payload) entry.payload_digest) in
    let head =
      rebuilt_entry entry (chain_payload_digest payload) (due_digest prev) (sym matches) c.1 c.2 in
    ap (rebuild (due_digest prev)) e
    ∙ same_cons head (
        ap (λ digest. rebuild digest more) (ap (λ x. x.entry_digest) head)
        ∙ rebuild-chained (some entry) entries payloads more c.3 (omega arith) (ground (arith, d))
            rest)

parse_rest-tail :
    (z : Zlib) (header_json compressed : Bytes)
    → length compressed ≤ max_capacity
    → parse_rest z header_json (
        le_bytes 8 (length compressed % 2 ^ 64)
        ++ (compressed ++ sha256_bytes (header_json ++ compressed)))
      ≡ parse_parts z header_json compressed (sha256_bytes (header_json ++ compressed))
unfolding parse_rest
parse_rest-tail z header_json compressed cf =
    let sha = sha256_bytes (header_json ++ compressed) in
    ground (
      arith,
      get_le-le_bytes 8 (length compressed % 2 ^ 64) (compressed ++ sha),
      length-append compressed sha,
      length-sha256_bytes (header_json ++ compressed),
      take-append compressed sha,
      drop-append compressed sha,
    )

magic_there : (rest : Bytes) → has_prefix dem_magic (dem_magic ++ rest) ≡ true
unfolding has_prefix
magic_there rest = refl

pub parse-container :
    (z : Zlib) (header_json compressed : Bytes)
    → length header_json ≤ max_header_len
    → length compressed ≤ max_capacity
    → parse_dem_document z (container header_json compressed)
      ≡ parse_parts z header_json compressed (sha256_bytes (header_json ++ compressed))
unfolding parse_dem_document container
parse-container z header_json compressed hf cf =
    let sha = sha256_bytes (header_json ++ compressed) in
    let tail = le_bytes 8 (length compressed % 2 ^ 64) ++ (compressed ++ sha) in
    ground (
      arith,
      get_le-le_bytes 4 (length header_json % 2 ^ 32) (header_json ++ tail),
      length-append (le_bytes 4 (length header_json % 2 ^ 32)) (header_json ++ tail),
      length-le_bytes 4 (length header_json % 2 ^ 32),
      length-append header_json tail,
      length-append (le_bytes 8 (length compressed % 2 ^ 64)) (compressed ++ sha),
      length-le_bytes 8 (length compressed % 2 ^ 64),
      length-append compressed sha,
      length-sha256_bytes (header_json ++ compressed),
      take-append header_json tail,
      drop-append header_json tail,
      parse_rest-tail z header_json compressed cf,
      magic_there (le_bytes 4 (length header_json % 2 ^ 32) ++ (header_json ++ tail)),
    )
