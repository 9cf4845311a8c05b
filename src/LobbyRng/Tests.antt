-- ===== src/LobbyRng/Tests.antt =====
-- The theorems on the lobby's stream and its hash at concrete inputs.
use ph_k_battle_server.Base.{◌++◌, ◌∷◌, ◌%◌, ◌<◌, ◌≡◌, length, take, codes}
use ph_k_battle_server.Base.Int.{pos}
use ph_k_battle_server.Sha256.{big_endian, sha256_bytes, padded_message}
use ph_k_battle_server.Sha256.Laws.{zeros, padded_message_lem}
use ph_k_battle_server.LobbyRng.{unit_material, lobby_deterministic_unit}
use ph_k_battle_server.LobbyRng.Laws.{number_of, lobby_deterministic_unit_lem}

padded_message_lem_example :
    (padded_message (codes "abc") ≡ codes "abc" ++ (0x80 ∷ (zeros 52 ++ big_endian 8 24)))
    × (length (padded_message (codes "abc")) % 64 ≡ 0)
padded_message_lem_example = padded_message_lem (codes "abc")

lobby_deterministic_unit_example :
    (lobby_deterministic_unit (pos 7) (pos 1) (codes "coop_cannon_dir") (pos 0)
      ≡ number_of 0
          (take 4 (sha256_bytes (unit_material (pos 7) (pos 1) (codes "coop_cannon_dir") (pos 0))))
        % 10000)
    × (lobby_deterministic_unit (pos 7) (pos 1) (codes "coop_cannon_dir") (pos 0) < 10000)
lobby_deterministic_unit_example =
    lobby_deterministic_unit_lem (pos 7) (pos 1) (codes "coop_cannon_dir") (pos 0)
