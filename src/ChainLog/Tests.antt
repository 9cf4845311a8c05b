-- ===== src/ChainLog/Tests.antt =====
-- Chains of concrete operations, and the theorems at inputs that meet their premises.
use ph_k_battle_server.Base.{
  ◌≡◌, ◌↔◌, ◌⊎◌, refl, true, false, List, [], ◌∷◌, none, length, map, codes,
}
use ph_k_battle_server.Base.Int.{pos, negsuc}
use ph_k_battle_server.ChainLog.{
  chain_entry_digest_material, verify_chain, entry_reason, verify_from,
}
use ph_k_battle_server.ChainLog.Laws.{IsChained, verify_chain_iff}
use ph_k_battle_server.ChainLog.Appends.{
  Append, by_match_seed, by_input, by_mode_action, append_all, append_all-verified,
}
use ph_k_battle_server.ChainLog.Tamper.{Clash, head_digest-pins}

abbrev calls : List Append
calls =
    by_match_seed (pos 0) (codes "battle_derived") 42
    ∷ by_input (pos 3) (codes "p1") 1 2 false true false (negsuc 0) []
    ∷ by_mode_action (pos 4) (codes "p1") (codes "a1") 2 (codes "ready") (codes "{}")
    ∷ []

verify_chain_iff_example :
    ((verify_chain (append_all [] calls)).ok ≡ true) ↔ IsChained none (append_all [] calls)
verify_chain_iff_example = verify_chain_iff (append_all [] calls)

append_all-verified_example :
    ((verify_chain (append_all [] calls)).ok ≡ true) × (length (append_all [] calls) ≡ 3)
append_all-verified_example = append_all-verified calls

head_digest-pins_example :
    (map chain_entry_digest_material (append_all [] calls)
      ≡ map chain_entry_digest_material (append_all [] calls))
    ⊎ Clash (append_all [] calls) (append_all [] calls)
head_digest-pins_example =
    head_digest-pins (append_all [] calls) (append_all [] calls) (append_all-verified calls).0
      (append_all-verified calls).0 refl refl

-- A log that does not begin with number one is refused at its first entry.
late_start :
    verify_chain (
      record {
        seq = 2;
        tick = pos 0;
        player_id = [];
        action_type = codes "match_seed";
        payload_digest = [];
        prev_digest = codes "00000000";
        entry_digest = [];
      }
      ∷ [])
    ≡ record { ok = false; first_bad_seq = 2; reason = codes "chain_first_seq_not_one" }
unfolding verify_chain verify_from entry_reason
late_start = refl
