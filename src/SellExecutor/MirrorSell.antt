-- ===== src/SellExecutor/MirrorSell.antt =====
-- src/main.rs: the order that mirrors a sell of the target.
use girasolbot.Prelude.{
  ℕ, ◌≤◌, ◌≡◌, refl, Option, none, some, String, leb, ltb, min, max, if◌then◌else◌, arith, not,
}
use girasolbot.Prelude.Dict
use girasolbot.Float.{Float}
use girasolbot.Position.State.{SellOrder, mirror_sell, Holding, PositionMonitor}
use girasolbot.Position.Ops.{has_position, update_after_sell}
use girasolbot.Position.Ops.Selling.{has_position-update_after_sell}

module _ (F : Float) where
  -- The amount of a mirror sell: the share that the target sold of what it bought, at least one unit
  -- and at most all.
  unfoldable pub mirror_amount : Option ℕ → Holding F → ℕ
  mirror_amount none h = h.amount
  mirror_amount (some target_sold) h = elim h.target_buy_tokens [
    | none ↦ h.amount
    | some target_bought ↦
        let ratio = F.fmin (F.fdiv (F.of_u64 target_sold) (F.of_u64 target_bought)) (F.of_u64 1) in
        let amount = F.to_u64 (F.fmul (F.of_u64 h.amount) ratio) in
        if ltb 0 target_bought then min (max amount 1) h.amount else h.amount
  ]

  mirror_order : String → Option ℕ → Holding F → SellOrder F
  unfolding mirror_amount
  mirror_order mint target_sold h =
      let sell_amount = mirror_amount target_sold h in
      record {
        mint = mint;
        amount = sell_amount;
        current_price = h.buy_price;
        decimals = h.decimals;
        reason = mirror_sell;
        level_index = 0;
        is_final = leb h.amount sell_amount;
        dex = h.dex;
        amm_pool = h.amm_pool;
        extra_pump_account = h.extra_pump_account;
        pumpswap_accounts = h.pumpswap_accounts;
      }

  -- The order that a detected sell of the target queues.
  unfoldable pub mirror_order_for : PositionMonitor F → String → Option ℕ → Option (SellOrder F)
  unfolding mirror_order
  mirror_order_for m mint target_sold = elim (Dict.get m.positions mint) [
    | none ↦ none
    | some h ↦ some (mirror_order mint target_sold h)
  ]

  mirror_amount-bounds :
      (target_sold : Option ℕ) (h : Holding F)
      → 1 ≤ h.amount
      → (1 ≤ mirror_amount target_sold h) × (mirror_amount target_sold h ≤ h.amount)
  unfolding mirror_amount
  mirror_amount-bounds none h held = omega (arith, held)
  mirror_amount-bounds (some n) h held = ground arith

  mirror_order_for-order :
      (m : PositionMonitor F) (mint : String) (target_sold : Option ℕ) (h : Holding F)
      → Dict.get m.positions mint ≡ some h
      → mirror_order_for m mint target_sold ≡ some (mirror_order mint target_sold h)
  unfolding mirror_order_for
  mirror_order_for-order m mint target_sold h e = grind arith

  -- For a position of one unit or more, a detected sell of the target queues an order for that mint of
  -- one unit at least and of no more than is held, whatever the amounts of the target; and it is
  -- marked as final exactly when the sale that it asks for removes the position.
  pub mirror_order_for-bounds :
      (m : PositionMonitor F) (mint : String) (target_sold : Option ℕ) (h : Holding F)
      → Dict.get m.positions mint ≡ some h
      → 1 ≤ h.amount
      → (o : SellOrder F) × (mirror_order_for m mint target_sold ≡ some o)
        × (o.mint ≡ mint)
        × (1 ≤ o.amount)
        × (o.amount ≤ h.amount)
        × (o.is_final
            ≡ not
                (has_position F (update_after_sell F m mint o.amount o.reason o.level_index) mint))
  unfolding mirror_order
  mirror_order_for-bounds m mint target_sold h e held =
      let o = mirror_order mint target_sold h in
      let (least, most) = mirror_amount-bounds target_sold h held in
      (
        o,
        mirror_order_for-order m mint target_sold h e,
        refl,
        least,
        most,
        ground (arith, has_position-update_after_sell F m mint o.amount o.reason o.level_index h e),
      )
