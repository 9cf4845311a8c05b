-- ===== src/Coop/Spawn.antt =====
-- `SpawnBulletsForTick` and `AdvanceBullets` of src/coop_boss.cpp.
pub mod Laws
use ph_k_battle_server.Base.{
  ℕ, zero, suc, ◌+◌, ◌-◌, ◌*◌, ◌/◌, ◌%◌, ◌≡◌, Bool, true, false, ◌&&◌, ◌||◌, not, List, [], ◌∷◌,
  ◌++◌, map, Option, none, some, ltb, leb, ◌==◌, if◌then◌else◌, length, Map, Bytes, codes,
}
use ph_k_battle_server.Base.Int.{ℤ, pos, negsuc, ◌+ℤ◌, ltb_ℤ}
use ph_k_battle_server.Base.Decimal.{to_string}
use ph_k_battle_server.Coop.{
  CoopBossSimulation, PlayerState, LiveBullet, CoopBulletKind, fan, cannon, spiral, max_bullets,
  fan_interval_ticks, fan_bullets_per_dir, spiral_every_ticks, spiral_window_ticks,
}
use ph_k_battle_server.Coop.Libm.{Libm}

unfoldable pub bullet_id_of : ℕ → Bytes
bullet_id_of number = b'c' ∷ to_string number

-- `live_bullets_.push_back(live)` with the next id.
unfoldable pub push_bullet : CoopBossSimulation → LiveBullet → CoopBossSimulation
push_bullet s live = record s {
  live_bullets = s.live_bullets ++ live ∷ [];
  next_bullet_id = s.next_bullet_id + 1;
}

abbrev pub has_room : CoopBossSimulation → Bool
has_room s = ltb (length s.live_bullets) max_bullets

abbrev pub locks_seat : Option ℕ → ℕ → Bool
locks_seat none seat = false
locks_seat (some dir) seat = dir == seat

module _ (m : Libm) where
  open m use {
    Double, of_int, decimal, add, sub, mul, div, cos, sin, sqrt, atan2, is_positive, llround,
  }

  pi : Double
  pi = decimal 314159265358979323846 20

  -- The fan's bullets i, i + 1, .. of a volley aimed along `aim`.
  unfoldable pub fan_bullet : Bytes → Double → ℕ → ℕ → LiveBullet
  unfolding pi
  fan_bullet owner aim i number =
      let spread = mul (sub (of_int (pos i)) (decimal 30 1)) (div pi (decimal 180 1)) in
      let angle = add aim spread in
      record {
        bullet_id = bullet_id_of number;
        owner_player_id = owner;
        x_milli = pos 0;
        y_milli = pos 0;
        vx_milli = llround (mul (decimal 36000 1) (cos angle));
        vy_milli = llround (mul (decimal 36000 1) (sin angle));
        radius_milli = 4000;
        kind = fan;
        pattern_id = codes "coop_fan";
      }

  unfoldable pub push_fan : CoopBossSimulation → Bytes → Double → ℕ → ℕ → CoopBossSimulation
  push_fan s owner aim i zero = s
  push_fan s owner aim i (suc k) =
      push_fan (push_bullet s (fan_bullet owner aim i s.next_bullet_id)) owner aim (suc i) k

  unfoldable pub cannon_bullet : PlayerState → ℕ → LiveBullet
  cannon_bullet player number =
      let dx = of_int player.x_milli in
      let dy = of_int player.y_milli in
      let len = sqrt (add (mul dx dx) (mul dy dy)) in
      let ux = if is_positive len then div dx len else decimal 0 1 in
      let uy = if is_positive len then div dy len else of_int (negsuc 0) in
      record {
        bullet_id = bullet_id_of number;
        owner_player_id = player.player_id;
        x_milli = pos 0;
        y_milli = pos 0;
        vx_milli = llround (mul (decimal 30000 1) ux);
        vy_milli = llround (mul (decimal 30000 1) uy);
        radius_milli = 12000;
        kind = cannon;
        pattern_id = codes "coop_cannon";
      }

  -- The volley at one seat: the fan, and the cannon where the seat is locked.
  unfoldable pub spawn_fan : CoopBossSimulation → ℕ → PlayerState → CoopBossSimulation
  spawn_fan s tick player =
      if (tick % fan_interval_ticks == 0) && has_room s
      then push_fan s player.player_id (atan2 (of_int player.y_milli) (of_int player.x_milli)) 0
          fan_bullets_per_dir
      else s

  unfoldable pub spawn_cannon : CoopBossSimulation → ℕ → PlayerState → CoopBossSimulation
  spawn_cannon s seat player =
      if locks_seat s.lock_dir seat && has_room s
      then push_bullet s (cannon_bullet player s.next_bullet_id)
      else s

  -- The loop over the players; a disconnected player keeps the seat and draws no fire.
  unfoldable pub spawn_for_players :
      CoopBossSimulation → ℕ → ℕ → Map Bytes PlayerState → CoopBossSimulation
  spawn_for_players s tick seat [] = s
  spawn_for_players s tick seat ((id, player) ∷ rest) =
      spawn_for_players
        (if player.connected then spawn_cannon (spawn_fan s tick player) seat player else s) tick
        (suc seat) rest

  unfoldable pub spiral_bullet : ℕ → ℕ → ℕ → LiveBullet
  unfolding pi
  spiral_bullet tick i number =
      let angle =
        mul (mul (of_int (pos (tick % 360000))) (decimal 9 1)) (div pi (decimal 1800 1)) in
      let radius =
        add (decimal 120000 1) (mul (of_int (pos (tick % spiral_window_ticks))) (decimal 2600 1)) in
      let theta = add angle (mul (of_int (pos i)) (div pi (decimal 20 1))) in
      let cos_t = cos theta in
      let sin_t = sin theta in
      record {
        bullet_id = bullet_id_of number;
        owner_player_id = codes "boss";
        x_milli = llround (mul radius cos_t);
        y_milli = llround (mul radius sin_t);
        vx_milli = llround (sub (mul (decimal 26000 1) cos_t) (mul (decimal 8000 1) sin_t));
        vy_milli = llround (add (mul (decimal 26000 1) sin_t) (mul (decimal 8000 1) cos_t));
        radius_milli = 4200;
        kind = spiral;
        pattern_id = codes "coop_spiral";
      }

  unfoldable pub push_spiral : CoopBossSimulation → ℕ → ℕ → ℕ → CoopBossSimulation
  push_spiral s tick i zero = s
  push_spiral s tick i (suc k) =
      push_spiral (push_bullet s (spiral_bullet tick i s.next_bullet_id)) tick (suc i) k

  unfoldable pub spawn_spiral : CoopBossSimulation → ℕ → CoopBossSimulation
  spawn_spiral s tick =
      if s.spiral_active && ((tick % spiral_every_ticks == 0) && has_room s)
      then push_spiral s tick 0 4
      else s

  unfoldable pub spawn_bullets_for_tick : CoopBossSimulation → ℕ → CoopBossSimulation
  spawn_bullets_for_tick s tick =
      if (tick == 0) || (length s.players == 0)
      then s
      else spawn_spiral (spawn_for_players s tick 0 s.players) tick

unfoldable pub move_bullet : LiveBullet → LiveBullet
unfolding ◌+ℤ◌
move_bullet live = record live {
  x_milli = live.x_milli +ℤ live.vx_milli;
  y_milli = live.y_milli +ℤ live.vy_milli;
}

-- `cull` is 110000.
unfoldable pub is_culled : LiveBullet → Bool
is_culled live =
    ltb_ℤ live.x_milli (negsuc 109999)
    || (ltb_ℤ (pos 110000) live.x_milli
        || (ltb_ℤ live.y_milli (negsuc 109999) || ltb_ℤ (pos 110000) live.y_milli))

-- Every bullet moves; those that leave the field are removed.
unfoldable pub moved : List LiveBullet → List LiveBullet
unfolding move_bullet is_culled
moved [] = []
moved (live ∷ rest) =
    let after = moved rest in
    if is_culled (move_bullet live) then after else move_bullet live ∷ after

unfoldable pub advance_bullets : CoopBossSimulation → CoopBossSimulation
advance_bullets s = record s { live_bullets = moved s.live_bullets }
