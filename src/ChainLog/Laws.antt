-- ===== src/ChainLog/Laws.antt =====
-- What the chain of src/chain_log.cpp guarantees.
use ph_k_battle_server.Base.{
  ℕ, ◌≡◌, ◌↔◌, refl, inl, inr, true, List, [], ◌∷◌, Option, none, some, arith, Bytes, bytes_eq_iff,
  Option-cases,
}
use ph_k_battle_server.ChainLog.{
  ChainEntry, genesis_prev_digest, compute_chain_entry_digest, next_of, entry_reason, verify_from,
  verify_chain,
}

-- The number and digest that the entry after `prev` must carry.
abbrev pub due_seq : Option ChainEntry → ℕ
due_seq none = 1
due_seq (some prev) = next_of prev.seq

abbrev pub due_digest : Option ChainEntry → Bytes
due_digest none = genesis_prev_digest
due_digest (some prev) = prev.entry_digest

-- The description of a chain: each entry carries the next number, the digest of the one before
-- and the hash of its own material.
abbrev pub IsChained : Option ChainEntry → List ChainEntry → Type 0
IsChained prev [] = Unit
IsChained prev (entry ∷ entries) =
    (entry.seq ≡ due_seq prev)
    × (entry.prev_digest ≡ due_digest prev)
    × (entry.entry_digest ≡ compute_chain_entry_digest entry)
    × IsChained (some entry) entries

entry_reason-none :
    (prev : Option ChainEntry) (entry : ChainEntry)
    → entry_reason prev entry ≡ none
    → (entry.seq ≡ due_seq prev)
      × (entry.prev_digest ≡ due_digest prev)
      × (entry.entry_digest ≡ compute_chain_entry_digest entry)
unfolding entry_reason
entry_reason-none none entry h = ground (
  arith,
  bytes_eq_iff entry.prev_digest genesis_prev_digest,
  bytes_eq_iff entry.entry_digest (compute_chain_entry_digest entry),
)
entry_reason-none (some prev) entry h = ground (
  arith,
  bytes_eq_iff entry.prev_digest prev.entry_digest,
  bytes_eq_iff entry.entry_digest (compute_chain_entry_digest entry),
)

entry_reason-due :
    (prev : Option ChainEntry) (entry : ChainEntry)
    → entry.seq ≡ due_seq prev
    → entry.prev_digest ≡ due_digest prev
    → entry.entry_digest ≡ compute_chain_entry_digest entry
    → entry_reason prev entry ≡ none
unfolding entry_reason
entry_reason-due none entry numbered linked hashed = ground (
  arith,
  bytes_eq_iff entry.prev_digest genesis_prev_digest,
  bytes_eq_iff entry.entry_digest (compute_chain_entry_digest entry),
)
entry_reason-due (some prev) entry numbered linked hashed = ground (
  arith,
  bytes_eq_iff entry.prev_digest prev.entry_digest,
  bytes_eq_iff entry.entry_digest (compute_chain_entry_digest entry),
)

pub verify_from_sound :
    (prev : Option ChainEntry) (entries : List ChainEntry)
    → (verify_from prev entries).ok ≡ true
    → IsChained prev entries
unfolding verify_from
verify_from_sound prev [] h = tt
verify_from_sound prev (entry ∷ entries) h = elim (Option-cases (entry_reason prev entry)) [
  | inl good ↦
      let (numbered, linked, hashed) = entry_reason-none prev entry good in
      (numbered, linked, hashed, verify_from_sound (some entry) entries (ground (arith, h, good)))
  | inr (reason, bad) ↦ ground (arith, h, bad)
]

pub verify_from_complete :
    (prev : Option ChainEntry) (entries : List ChainEntry)
    → IsChained prev entries
    → (verify_from prev entries).ok ≡ true
unfolding verify_from
verify_from_complete (none) [] h = refl
verify_from_complete (some last) [] h = refl
verify_from_complete prev (entry ∷ entries) h =
    ground (
      arith,
      entry_reason-due prev entry h.0 h.1 h.2,
      verify_from_complete (some entry) entries h.3,
    )

-- `VerifyChain` accepts exactly the chains: the first entry is numbered one and carries the
-- genesis digest, each later entry the next number and the digest of the one before, and every
-- entry the hash of its own material.
pub verify_chain_iff :
    (entries : List ChainEntry) → ((verify_chain entries).ok ≡ true) ↔ IsChained none entries
unfolding verify_chain
verify_chain_iff entries = (verify_from_sound none entries, verify_from_complete none entries)
