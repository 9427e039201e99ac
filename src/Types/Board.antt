-- ===== src/Types/Board.antt =====
-- src/boards/*.h: how many connectors a board has. A board is a parameter of the model.
use fanpico.Base.{ℕ, ◌≤◌}
use fanpico.Types.Limits.{fan_max_count, mbfan_max_count, sensor_max_count}

pub record Board : Type 0 where
  pub fan_count : ℕ
  pub mbfan_count : ℕ
  pub sensor_count : ℕ

-- A board has no more connectors than the arrays have room for.
pub record Fits (b : Board) : Type 0 where
  pub fans : b.fan_count ≤ fan_max_count
  pub mbfans : b.mbfan_count ≤ mbfan_max_count
  pub sensors : b.sensor_count ≤ sensor_max_count

-- The board 0804.
abbrev pub board_0804 : Board
board_0804 = record { fan_count = 8; mbfan_count = 4; sensor_count = 3 }
