-- ===== src/ChainLog/Appends.antt =====
-- The log that the `Append*` methods of src/chain_log.cpp build is a chain that `VerifyChain`
-- accepts.
use ph_k_battle_server.Base.{
  ℕ, ◌+◌, ◌≡◌, refl, sym, ap, ◌∙◌, Bool, true, List, [], ◌∷◌, ◌++◌, Option, none, some, arith,
  length, length-append, Bytes, codes,
}
use ph_k_battle_server.Base.Int.{ℤ}
use ph_k_battle_server.ChainLog.{
  ChainEntry, digest_head, chain_entry_digest_material, compute_chain_entry_digest, verify_chain,
  back, next_seq, head_digest, new_entry, append_entry, append_match_seed, append_input,
  append_mode_action, chain_payload_digest, canonical_chain_seed_payload,
  canonical_chain_input_payload, canonical_chain_mode_action_payload,
}
use ph_k_battle_server.ChainLog.Laws.{due_seq, due_digest, IsChained, verify_chain_iff}

-- A call of one of the four methods.
pub data Append : Type 0 where
  by_entry : ℤ → Bytes → Bytes → Bytes → Append
  by_match_seed : ℤ → Bytes → ℕ → Append
  by_input : ℤ → Bytes → ℕ → ℕ → Bool → Bool → Bool → ℤ → Bytes → Append
  by_mode_action : ℤ → Bytes → Bytes → ℕ → Bytes → Bytes → Append

abbrev pub append : List ChainEntry → Append → List ChainEntry
append entries (by_entry tick player_id action_type payload_digest) =
    append_entry entries tick player_id action_type payload_digest
append entries (by_match_seed tick seed_kind seed) = append_match_seed entries tick seed_kind seed
append entries (by_input tick player_id seq dir slow shoot bomb card_slot mode_action_id) =
    append_input entries tick player_id seq dir slow shoot bomb card_slot mode_action_id
append entries (by_mode_action tick player_id action_id seq action_type payload_json) =
    append_mode_action entries tick player_id action_id seq action_type payload_json

unfoldable pub append_all : List ChainEntry → List Append → List ChainEntry
append_all entries [] = entries
append_all entries (call ∷ calls) = append_all (append entries call) calls

-- The last entry of the list, or the one before it.
abbrev last_after : Option ChainEntry → List ChainEntry → Option ChainEntry
last_after prev [] = prev
last_after prev (entry ∷ entries) = last_after (some entry) entries

IsChained-append :
    (prev : Option ChainEntry) (entries : List ChainEntry) (added : ChainEntry)
    → IsChained prev entries
    → added.seq ≡ due_seq (last_after prev entries)
    → added.prev_digest ≡ due_digest (last_after prev entries)
    → added.entry_digest ≡ compute_chain_entry_digest added
    → IsChained prev (entries ++ added ∷ [])
IsChained-append prev [] added chained numbered linked hashed = (numbered, linked, hashed, tt)
IsChained-append prev (e ∷ entries) added (n, l, h, rest) numbered linked hashed =
    (n, l, h, IsChained-append (some e) entries added rest numbered linked hashed)

last_after-back :
    (e : ChainEntry) (entries : List ChainEntry) → last_after (some e) entries ≡ back (e ∷ entries)
unfolding back
last_after-back e [] = refl
last_after-back e (f ∷ entries) = ground (arith, last_after-back f entries)

last_after-none : (entries : List ChainEntry) → last_after none entries ≡ back entries
unfolding back
last_after-none [] = refl
last_after-none (e ∷ entries) = last_after-back e entries

next_seq-due : (entries : List ChainEntry) → next_seq entries ≡ due_seq (back entries)
unfolding next_seq
next_seq-due entries = ground arith

head_digest-due : (entries : List ChainEntry) → head_digest entries ≡ due_digest (back entries)
unfolding head_digest
head_digest-due entries = ground arith

pub append_entry-IsChained :
    (entries : List ChainEntry) (tick : ℤ) (player_id action_type payload_digest : Bytes)
    → IsChained none entries
    → IsChained none (append_entry entries tick player_id action_type payload_digest)
unfolding append_entry new_entry
append_entry-IsChained entries tick player_id action_type payload_digest chained =
    IsChained-append none entries (new_entry entries tick player_id action_type payload_digest)
      chained (next_seq-due entries ∙ ap due_seq (sym (last_after-none entries)))
      (head_digest-due entries ∙ ap due_digest (sym (last_after-none entries)))
      (unfold compute_chain_entry_digest chain_entry_digest_material digest_head in refl)

append-IsChained :
    (entries : List ChainEntry) (call : Append)
    → IsChained none entries
    → IsChained none (append entries call)
unfolding append_match_seed append_input append_mode_action
append-IsChained entries (by_entry tick player_id action_type payload_digest) h =
    append_entry-IsChained entries tick player_id action_type payload_digest h
append-IsChained entries (by_match_seed tick seed_kind seed) h =
    append_entry-IsChained entries tick [] (codes "match_seed")
      (chain_payload_digest (canonical_chain_seed_payload seed_kind seed)) h
append-IsChained entries (by_input tick player_id seq dir slow shoot bomb slot action) h =
    append_entry-IsChained entries tick player_id (codes "input")
      (chain_payload_digest (canonical_chain_input_payload seq dir slow shoot bomb slot action)) h
append-IsChained entries (by_mode_action tick player_id action_id seq action_type payload) h =
    append_entry-IsChained entries tick player_id action_type
      (chain_payload_digest (canonical_chain_mode_action_payload action_id seq payload)) h

append_all-IsChained :
    (calls : List Append) (entries : List ChainEntry)
    → IsChained none entries
    → IsChained none (append_all entries calls)
unfolding append_all
append_all-IsChained [] entries h = h
append_all-IsChained (call ∷ calls) entries h =
    append_all-IsChained calls (append entries call) (append-IsChained entries call h)

length-append_one :
    (entries : List ChainEntry) (call : Append) → length (append entries call) ≡ length entries + 1
unfolding append_match_seed append_input append_mode_action append_entry
length-append_one entries (by_entry tick player_id action_type payload_digest) =
    length-append entries (new_entry entries tick player_id action_type payload_digest ∷ [])
length-append_one entries (by_match_seed tick seed_kind seed) = length-append entries (
    new_entry entries tick [] (codes "match_seed")
      (chain_payload_digest (canonical_chain_seed_payload seed_kind seed))
    ∷ [])
length-append_one entries (by_input tick player_id seq dir slow shoot bomb slot action) =
    length-append entries (
      new_entry entries tick player_id (codes "input")
        (chain_payload_digest (canonical_chain_input_payload seq dir slow shoot bomb slot action))
      ∷ [])
length-append_one entries (by_mode_action tick player_id action_id seq action_type payload) =
    length-append entries (
      new_entry entries tick player_id action_type
        (chain_payload_digest (canonical_chain_mode_action_payload action_id seq payload))
      ∷ [])

length-append_all :
    (calls : List Append) (entries : List ChainEntry)
    → length (append_all entries calls) ≡ length entries + length calls
unfolding append_all
length-append_all [] entries = omega arith
length-append_all (call ∷ calls) entries =
    omega (arith, length-append_all calls (append entries call), length-append_one entries call)

-- Whatever is appended to an empty log, `VerifyChain` accepts the log, and it has one entry for
-- each call.
pub append_all-verified :
    (calls : List Append)
    → ((verify_chain (append_all [] calls)).ok ≡ true)
      × (length (append_all [] calls) ≡ length calls)
append_all-verified calls = (
  (verify_chain_iff (append_all [] calls)).1 (append_all-IsChained calls [] tt),
  omega (arith, length-append_all calls []),
)
