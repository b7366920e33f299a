-- ===== src/Position/State.antt =====
-- The data of src/position_monitor.rs, and `Holding` of src/models.rs without the token metadata and
-- the timings, which the modelled code only carries along.
use girasolbot.Prelude.{ℕ, Bool, Option, List, String}
use girasolbot.Prelude.Dict.{Dict}
use girasolbot.Float.{Float}

pub data AcquireResult : Type 0 where
  already_holding acquired busy : AcquireResult

pub data SellReason (F : Float) : Type 0 where
  take_profit stop_loss trailing_stop rug_detected : F.F64 → SellReason F
  mirror_sell : SellReason F

pub record SellOrder (F : Float) : Type 0 where
  pub mint : String
  pub amount : ℕ
  pub current_price : F.F64
  pub decimals : ℕ
  pub reason : SellReason F
  pub level_index : ℕ
  pub is_final : Bool
  pub dex : String
  pub amm_pool : Option String
  pub extra_pump_account : Option String
  pub pumpswap_accounts : Option (List String)

pub record Holding (F : Float) : Type 0 where
  pub amount : ℕ
  pub original_amount : ℕ
  pub buy_price : F.F64
  -- Seconds since the epoch.
  pub buy_time : ℕ
  pub high_watermark : Option F.F64
  pub entry_liquidity_sol : Option F.F64
  pub decimals : ℕ
  pub buy_cost_sol : Option F.F64
  pub triggered_tp_levels : List ℕ
  pub triggered_sl_levels : List ℕ
  pub migrated : Bool
  pub pending_sell : Bool
  pub dex : String
  pub amm_pool : Option String
  pub target_buy_tokens : Option ℕ
  pub extra_pump_account : Option String
  pub pumpswap_accounts : Option (List String)
  pub buy_signature : Option String

-- The shared state of a monitor. `file` is the content of `positions.json` after the last save,
-- which is taken to succeed.
pub record PositionMonitor (F : Float) : Type 0 where
  pub positions : Dict (Holding F)
  pub pending_buys : List String
  pub file : Dict (Holding F)
