-- ===== src/Position/Tick.antt =====
-- One tick of `monitor_loop` in src/position_monitor.rs, for take-profit and stop-loss.
-- What the tick asks of other modules and services is in a `Quote`.
pub mod Sends
pub mod Selling
pub mod OneOrder
pub mod Unpriced
use mathlib.Core.Option
use girasolbot.Prelude.{ℕ, true, ◌&&◌, ◌||◌, Option, none, some, [], ◌∷◌, String, if◌then◌else◌}
use girasolbot.Prelude.Dict
use girasolbot.Prelude.Dict.{Dict}
use girasolbot.Float.{Float}
use girasolbot.Settings.{Settings}
use girasolbot.Position.State.{take_profit, stop_loss, trailing_stop, rug_detected, Holding}
use girasolbot.Position.Orders.{
  within_rug_window, is_migration_signal, Price, ok, err, Quote, World, trailing_stop_triggered,
  drawdown_bps, send_order, order_for, first_level, send_level,
}
use girasolbot.Position.Ops.{mark_migrated}

module _ (F : Float) where
  open F use {F64, of_u64, to_u64, fadd, fsub, fmul, fdiv, fmax, fneg, flt, fle}

  -- Take-profit and stop-loss, in this order; neither loop knows of the other.
  unfoldable pub check_levels : Settings F → String → Holding F → F64 → World F → World F
  check_levels s mint h price w =
      let pnl = fmul (fdiv (fsub price h.buy_price) h.buy_price) (of_u64 100) in
      let tp = first_level F h h.triggered_tp_levels (λ t. fle t pnl) 0 s.tp_levels in
      let sl = first_level F h h.triggered_sl_levels (λ t. fle pnl t) 0 s.sl_levels in
      send_level F mint h price (stop_loss pnl) sl
        (send_level F mint h price (take_profit pnl) tp w)

  record_entry : String → Option F64 → Option F64 → World F → World F
  record_entry mint (some entry) current w = w
  record_entry mint none none w = w
  record_entry mint none (some current) w = record w {
    positions = Dict.modify w.positions mint (λ h. record h { entry_liquidity_sol = some current });
  }

  or_else : Option F64 → Option F64 → Option F64
  or_else (some x) y = some x
  or_else none y = y

  liquidity_drop : Option F64 → Option F64 → F64
  liquidity_drop (some entry) (some current) = drawdown_bps F entry current
  liquidity_drop _ _ = of_u64 0

  value_or_zero : Option F64 → F64
  value_or_zero none = of_u64 0
  value_or_zero (some x) = x

  -- Lamports as SOL.
  liquidity_of : Option ℕ → Option F64
  liquidity_of = Option.map (λ r. fdiv (of_u64 r) (of_u64 1_000_000_000))

  -- Inside the observation window: whether the price or the liquidity has collapsed, and by how much.
  unfoldable pub rug_drop : Settings F → Holding F → Quote F → F64 → F64 → Option F64
  unfolding or_else liquidity_drop value_or_zero liquidity_of
  rug_drop s h q watermark price =
      let price_drop = drawdown_bps F (fmax watermark h.buy_price) price in
      let current = liquidity_of q.real_sol_reserves in
      let entry = or_else h.entry_liquidity_sol current in
      let drop = liquidity_drop entry current in
      let price_rug = fle (of_u64 s.rug_price_drop_bps) price_drop in
      let liquidity_rug =
        fle (of_u64 s.rug_liquidity_drop_bps) drop && flt (of_u64 0) (value_or_zero entry) in
      if price_rug || liquidity_rug
      then some (fdiv (fneg (fmax price_drop drop)) (of_u64 100))
      else none

  sell_if_rugged : Settings F → String → Holding F → F64 → Option F64 → World F → World F
  sell_if_rugged s mint h price none w = check_levels s mint h price w
  sell_if_rugged s mint h price (some drop) w =
      send_order F w (order_for F mint h price h.amount (rug_detected drop) 0 true)

  unfoldable pub check_rug :
      Settings F → String → Holding F → Quote F → F64 → F64 → World F → World F
  unfolding record_entry sell_if_rugged liquidity_of
  check_rug s mint h q watermark price w =
      if s.rug_detector_enabled && within_rug_window q.age_secs s.rug_window_secs
      then sell_if_rugged s mint h price (rug_drop s h q watermark price)
          (record_entry mint h.entry_liquidity_sol (liquidity_of q.real_sol_reserves) w)
      else check_levels s mint h price w

  watermark_of : Holding F → F64 → F64
  watermark_of h price = fmax (elim h.high_watermark [ none ↦ price | some x ↦ x ]) price

  set_watermark : String → F64 → World F → World F
  set_watermark mint mark w = record w {
    positions = Dict.modify w.positions mint (λ h. record h { high_watermark = some mark });
  }

  -- With the new high watermark: the trailing stop, and else the rug detector and the levels.
  check_stop : Settings F → String → Holding F → Quote F → F64 → F64 → World F → World F
  check_stop s mint h q mark price w =
      if trailing_stop_triggered F mark h.buy_price price s.trailing_stop_bps
      then send_order F w (
          order_for F mint h price h.amount
            (trailing_stop (fdiv (fneg (drawdown_bps F mark price)) (of_u64 100))) 0 true)
      else check_rug s mint h q mark price w

  -- From a positive price on.
  unfoldable pub check_price : Settings F → String → Holding F → Quote F → F64 → World F → World F
  unfolding watermark_of set_watermark check_stop
  check_price s mint h q price w =
      if fle h.buy_price (of_u64 0)
      then w
      else check_stop s mint h q (watermark_of h price) price
          (set_watermark mint (watermark_of h price) w)

  migrate : String → World F → World F
  migrate mint w = record w { positions = mark_migrated F w.positions mint }

  on_price : Settings F → String → Holding F → Quote F → Price F → World F → World F
  unfolding migrate
  on_price s mint h q (ok price) w =
      if fle price (of_u64 0) then migrate mint w else check_price s mint h q price w
  on_price s mint h q (err e) w = if is_migration_signal e then migrate mint w else w

  -- The body of the loop for one entry of the snapshot; the shared state may have moved on since.
  unfoldable pub check_position : Settings F → Quote F → String → Holding F → World F → World F
  unfolding on_price
  check_position s q mint h w =
      if h.migrated then w else if h.pending_sell then w else on_price s mint h q q.price w

  check_all : Settings F → (String → Quote F) → Dict (Holding F) → World F → World F
  check_all s quotes [] w = w
  check_all s quotes ((mint, h) ∷ rest) w =
      check_all s quotes rest (check_position s (quotes mint) mint h w)

  -- One tick: the snapshot is the positions at its start.
  unfoldable pub monitor_tick : Settings F → (String → Quote F) → World F → World F
  unfolding check_all
  monitor_tick s quotes w = check_all s quotes w.positions w
