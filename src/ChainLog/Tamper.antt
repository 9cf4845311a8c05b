-- ===== src/ChainLog/Tamper.antt =====
-- What a verified chain of src/chain_log.cpp and its last digest pin down.
use ph_k_battle_server.Base.{
  ◌*◌, ◌≡◌, ◌≢◌, refl, sym, ap, ◌∙◌, ◌⊎◌, inl, inr, true, List, [], ◌∷◌, ◌++◌, map, Option, none,
  some, arith, length, take, length-take, length-append, Bytes, bytes_eq, bytes_eq_iff, Bool-cases,
}
use ph_k_battle_server.LobbyRng.{short_hash_hex, hex_text}
use ph_k_battle_server.Sha256.{sha256_bytes}
use ph_k_battle_server.Sha256.Laws.{length-sha256_bytes}
use ph_k_battle_server.ChainLog.{
  ChainEntry, genesis_prev_digest, digest_head, chain_entry_digest_material,
  compute_chain_entry_digest, verify_chain, back, head_digest,
}
use ph_k_battle_server.ChainLog.Laws.{due_digest, IsChained, verify_chain_iff}

length-hex_text : (bytes : Bytes) → length (hex_text bytes) ≡ length bytes * 2
unfolding hex_text
length-hex_text [] = omega arith
length-hex_text (byte ∷ rest) = omega (arith, length-hex_text rest)

length-short_hash_hex : (value : Bytes) → length (short_hash_hex value) ≡ 8
unfolding short_hash_hex
length-short_hash_hex value = omega (
  arith,
  length-hex_text (take 4 (sha256_bytes value)),
  length-take 4 (sha256_bytes value),
  length-sha256_bytes value,
)

-- Two lists have entries at one place whose hashed texts differ but have the same short hash.
abbrev pub Clash : List ChainEntry → List ChainEntry → Type 0
Clash (x ∷ xs) (y ∷ ys) =
    ((chain_entry_digest_material x ≢ chain_entry_digest_material y)
      × (short_hash_hex (chain_entry_digest_material x)
          ≡ short_hash_hex (chain_entry_digest_material y)))
    ⊎ Clash xs ys
Clash [] ys = ⊥
Clash (x ∷ xs) [] = ⊥

equal_or_Clash :
    (x y : ChainEntry) (xs ys : List ChainEntry)
    → short_hash_hex (chain_entry_digest_material x)
      ≡ short_hash_hex (chain_entry_digest_material y)
    → (chain_entry_digest_material x ≡ chain_entry_digest_material y) ⊎ Clash (x ∷ xs) (y ∷ ys)
equal_or_Clash x y xs ys h =
    let a = chain_entry_digest_material x in
    let b = chain_entry_digest_material y in
    elim (Bool-cases (bytes_eq a b)) [
      | inl same ↦ inl ((bytes_eq_iff a b).0 same)
      | inr other ↦ inr (inl ((λ e. ground (arith, (bytes_eq_iff a b).1 e, other)), h))
    ]

equal_suffix : (xs ys p q : Bytes) → length xs ≡ length ys → xs ++ p ≡ ys ++ q → p ≡ q
equal_suffix [] [] p q h e = e
equal_suffix [] (y ∷ ys) p q h e = ground arith
equal_suffix (x ∷ xs) [] p q h e = ground arith
equal_suffix (x ∷ xs) (y ∷ ys) p q h e = equal_suffix xs ys p q (omega arith) (ground (arith, e))

last_digest : Bytes → List ChainEntry → Bytes
last_digest digest [] = digest
last_digest digest (e ∷ entries) = last_digest e.entry_digest entries

last_digest-back :
    (e : ChainEntry) (entries : List ChainEntry)
    → last_digest e.entry_digest entries ≡ head_digest (e ∷ entries)
unfolding last_digest head_digest back
last_digest-back e [] = refl
last_digest-back e (f ∷ entries) = ground (arith, last_digest-back f entries)

last_digest-none :
    (entries : List ChainEntry) → last_digest genesis_prev_digest entries ≡ head_digest entries
unfolding last_digest
last_digest-none [] = (unfold head_digest back in refl)
last_digest-none (e ∷ entries) = last_digest-back e entries

length-entry_digest :
    (e : ChainEntry) → e.entry_digest ≡ compute_chain_entry_digest e → length e.entry_digest ≡ 8
unfolding compute_chain_entry_digest
length-entry_digest e hashed =
    ap length hashed ∙ length-short_hash_hex (chain_entry_digest_material e)

-- Equal material has equal links, which are of one length.
equal_links :
    (x y : ChainEntry)
    → length x.prev_digest ≡ 8
    → length y.prev_digest ≡ 8
    → chain_entry_digest_material x ≡ chain_entry_digest_material y
    → x.prev_digest ≡ y.prev_digest
unfolding chain_entry_digest_material
equal_links x y eight_x eight_y same =
    equal_suffix (digest_head x) (digest_head y) x.prev_digest y.prev_digest
      (omega (
        arith,
        ap length same,
        length-append (digest_head x) x.prev_digest,
        length-append (digest_head y) y.prev_digest,
      ))
      same

pinned :
    (p q : Option ChainEntry) (xs ys : List ChainEntry)
    → length (due_digest p) ≡ 8
    → length (due_digest q) ≡ 8
    → IsChained p xs
    → IsChained q ys
    → length xs ≡ length ys
    → last_digest (due_digest p) xs ≡ last_digest (due_digest q) ys
    → ((due_digest p ≡ due_digest q)
        × (map chain_entry_digest_material xs ≡ map chain_entry_digest_material ys))
      ⊎ Clash xs ys
unfolding last_digest compute_chain_entry_digest
pinned p q [] [] hp hq cx cy same_length same = inl (same, refl)
pinned p q [] (y ∷ ys) hp hq cx cy same_length same = ground arith
pinned p q (x ∷ xs) [] hp hq cx cy same_length same = ground arith
pinned p q (x ∷ xs) (y ∷ ys) hp hq (_, link_x, hash_x, cx) (_, link_y, hash_y, cy) same_length
      same =
    elim (pinned (some x) (some y) xs ys (length-entry_digest x hash_x)
      (length-entry_digest y hash_y) cx cy (omega arith) same) [
        | inr clash ↦ inr (inr clash)
        | inl (digests, rest) ↦ elim (equal_or_Clash x y xs ys (sym hash_x ∙ digests ∙ hash_y)) [
          | inr clash ↦ inr clash
          | inl equal ↦
              let links = equal_links x y (ap length link_x ∙ hp) (ap length link_y ∙ hq) equal in
              inl (
                sym link_x ∙ links ∙ link_y,
                ap (λ a. a ∷ map chain_entry_digest_material xs) equal
                    ∙ ap (λ rest. chain_entry_digest_material y ∷ rest) rest,
              )
        ]
      ]

-- Two verified logs of the same length with the same last digest have the same hashed text in every
-- entry, or else there is a place where their entries have different hashed texts with the same
-- short hash.
pub head_digest-pins :
    (xs ys : List ChainEntry)
    → (verify_chain xs).ok ≡ true
    → (verify_chain ys).ok ≡ true
    → length xs ≡ length ys
    → head_digest xs ≡ head_digest ys
    → (map chain_entry_digest_material xs ≡ map chain_entry_digest_material ys) ⊎ Clash xs ys
head_digest-pins xs ys ok_x ok_y same_length same =
    elim (pinned none none xs ys refl refl ((verify_chain_iff xs).0 ok_x)
      ((verify_chain_iff ys).0 ok_y) same_length
      (last_digest-none xs ∙ same ∙ sym (last_digest-none ys))) [
        | inl (_, agree) ↦ inl agree
        | inr clash ↦ inr clash
      ]
