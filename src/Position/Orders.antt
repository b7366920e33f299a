-- ===== src/Position/Orders.antt =====
-- The parts of the monitor's tick in src/position_monitor.rs: the price tests, the state that the
-- tick works on, the sending of an order, and the scan over the levels.

use girasolbot.Prelude.{
  ℕ, ◌+◌, ◌-◌, ◌^◌, Bool, false, not, ◌&&◌, ◌||◌, Option, none, some, List, [], ◌∷◌, ◌++◌, String,
  ltb, leb, ◌==◌, if◌then◌else◌, min, ℤ, pos, negsuc,
}
use girasolbot.Prelude.Texts.{contains}
use girasolbot.Prelude.Dict.{Dict}
use girasolbot.Float.{Float}
use girasolbot.Settings.{Level}
use girasolbot.Position.State.{SellReason, SellOrder, Holding}
use girasolbot.Position.Ops.{contains_index, set_pending_sell}

-- The error texts that mean that the bonding curve is gone.
unfoldable pub is_migration_signal : String → Bool
is_migration_signal err =
    contains err "complete"
    || contains err "migrated"
    || contains err "reserves"
    || contains err "not found"
    || contains err "no data"

-- `window_secs as i64` is negative from 2 ^ 63 on.
unfoldable pub within_rug_window : ℤ → ℕ → Bool
within_rug_window (pos age) window = leb age window && ltb window (2 ^ 63)
within_rug_window (negsuc n) window = false

module _ (F : Float) where
  open F use {F64, of_u64, to_u64, fadd, fsub, fmul, fdiv, fmax, fneg, flt, fle}

  unfoldable pub trailing_stop_triggered : F64 → F64 → F64 → ℕ → Bool
  trailing_stop_triggered high_watermark buy_price current_price bps =
      if bps == 0 || fle high_watermark buy_price || fle high_watermark (of_u64 0)
      then false
      else fle current_price
          (fmul high_watermark (fsub (of_u64 1) (fdiv (of_u64 bps) (of_u64 10000))))

  unfoldable pub drawdown_bps : F64 → F64 → F64
  drawdown_bps reference_price current_price =
      if fle reference_price (of_u64 0) || fle reference_price current_price
      then of_u64 0
      else fmul (fdiv (fsub reference_price current_price) reference_price) (of_u64 10000)

  pub data Price : Type 0 where
    ok : F64 → Price
    err : String → Price

  -- What a tick is told about one mint: `fetch_current_price`, the age of the position, and the
  -- real SOL reserves of its bonding curve, if they can be read.
  pub record Quote : Type 0 where
    pub price : Price
    pub age_secs : ℤ
    pub real_sol_reserves : Option ℕ

  -- The monitor's view of the shared state: the positions and the channel of sell orders, which is
  -- closed once the executor has gone.
  pub record World : Type 0 where
    pub positions : Dict (Holding F)
    pub queue : List (SellOrder F)
    pub is_open : Bool

  -- `sell_tx.send(order)`; on success the position is marked.
  unfoldable pub send_order : World → SellOrder F → World
  send_order w o =
      if w.is_open
      then record w { queue = w.queue ++ o ∷ []; positions = set_pending_sell F w.positions o.mint }
      else w

  unfoldable pub order_for : String → Holding F → F64 → ℕ → SellReason F → ℕ → Bool → SellOrder F
  order_for m h price n why i final = record {
    mint = m;
    amount = n;
    current_price = price;
    decimals = h.decimals;
    reason = why;
    level_index = i;
    is_final = final;
    dex = h.dex;
    amm_pool = h.amm_pool;
    extra_pump_account = h.extra_pump_account;
    pumpswap_accounts = h.pumpswap_accounts;
  }

  unfoldable pub level_amount : Holding F → Level F → ℕ
  level_amount h level =
      to_u64 (fmul (fdiv level.sell_percent (of_u64 100)) (of_u64 h.original_amount))

  -- The loop over the levels, up to its `break`: the first level from `i` on that has not fired
  -- before, is hit and sells something, with the amount to sell.
  unfoldable pub first_level :
      Holding F → List ℕ → (F64 → Bool) → ℕ → List (Level F) → Option (ℕ × ℕ)
  first_level h triggered hit i [] = none
  first_level h triggered hit i (level ∷ rest) =
      let later = first_level h triggered hit (i + 1) rest in
      if contains_index triggered i
      then later
      else if not (hit level.trigger_percent)
      then later
      else if level_amount h level == 0
      then later
      else some (i, min (level_amount h level) h.amount)

  unfoldable pub send_level :
      String → Holding F → F64 → SellReason F → Option (ℕ × ℕ) → World → World
  send_level mint h price why none w = w
  send_level mint h price why (some (i, n)) w =
      send_order w (order_for mint h price n why i (h.amount - n == 0))
