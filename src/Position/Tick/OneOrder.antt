-- ===== src/Position/Tick/OneOrder.antt =====
-- With validated settings, take-profit and stop-loss exclude each other.
use girasolbot.Prelude.{
  ℕ, ◌+◌, ◌≤◌, ◌≡◌, refl, inl, inr, Bool, true, false, Option, none, some, List, [], ◌∷◌, String,
  arith, length, length-append, All, All-map, Bool-cases, if◌then◌else◌,
}
use girasolbot.Float.{Float, IsOrdered}
use girasolbot.Settings.{Settings, Level, bad_tp, bad_sl, validate}
use girasolbot.Settings.Validated.{IsGood, validate-IsValidated}
use girasolbot.Position.State.{SellReason, SellOrder, Holding}
use girasolbot.Position.Orders.{
  Price, ok, err, Quote, World, send_order, is_migration_signal, first_level, send_level,
}
use girasolbot.Position.Tick.{
  check_levels, record_entry, sell_if_rugged, check_rug, check_stop, set_watermark, check_price,
  migrate, on_price, check_position, rug_drop, liquidity_of, watermark_of,
}

module _ (F : Float) where
  abbrev Misses : (F.F64 → Bool) → Level F → Type 0
  Misses hit l = hit l.trigger_percent ≡ false

  first_level-none :
      (h : Holding F) (triggered : List ℕ) (hit : F.F64 → Bool) (i : ℕ) (levels : List (Level F))
      → All (Misses hit) levels
      → first_level F h triggered hit i levels ≡ none
  unfolding first_level
  first_level-none h triggered hit i [] m = refl
  first_level-none h triggered hit i (l ∷ rest) m =
      ground (arith, first_level-none h triggered hit (i + 1) rest m.1)

  module _ (o : IsOrdered F) (pnl : F.F64) where
    sl-Misses :
        (l : Level F)
        → F.fle (F.of_u64 0) pnl ≡ true
        → IsGood F (bad_sl F) l
        → Misses (λ t. F.fle pnl t) l
    sl-Misses l p g = elim (Bool-cases (F.fle pnl l.trigger_percent)) [
      | inr e ↦ e
      | inl e ↦ cc (g.0, o.le_trans (F.of_u64 0) pnl l.trigger_percent p e)
    ]

    tp-Misses :
        (l : Level F)
        → F.fle (F.of_u64 0) pnl ≡ false
        → IsGood F (bad_tp F) l
        → Misses (λ t. F.fle t pnl) l
    tp-Misses l p g = elim (Bool-cases (F.fle l.trigger_percent pnl)) [
      | inr e ↦ e
      | inl e ↦
          elim (o.le_total (F.of_u64 0) l.trigger_percent (o.of_u64_self 0)
            (o.le_self l.trigger_percent pnl e).0) [
              | inl a ↦ cc (p, o.le_trans (F.of_u64 0) l.trigger_percent pnl a e)
              | inr a ↦ cc (g.0, a)
            ]
    ]

  -- At most one order more.
  abbrev AddsOne : World F → World F → Type 0
  AddsOne w w' = length w'.queue ≤ length w.queue + 1

  AddsOne-if :
      (b : Bool) (w x y : World F) → AddsOne w x → AddsOne w y → AddsOne w (if b then x else y)
  AddsOne-if true w x y p q = p
  AddsOne-if false w x y p q = q

  send_order-AddsOne : (w : World F) (o : SellOrder F) → AddsOne w (send_order F w o)
  unfolding send_order
  send_order-AddsOne w o = ground (arith, length-append w.queue (o ∷ []))

  send_level-AddsOne :
      (mint : String) (h : Holding F) (price : F.F64) (why : SellReason F) (found : Option (ℕ × ℕ))
      (w : World F)
      → AddsOne w (send_level F mint h price why found w)
  unfolding send_level
  send_level-AddsOne mint h price why none w = omega arith
  send_level-AddsOne mint h price why (some (i, n)) w = send_order-AddsOne w _

  module _ (s : Settings F) (o : IsOrdered F) (valid : validate F s true true true ≡ none) where
    levels-AddsOne :
        (mint : String) (h : Holding F) (price : F.F64) (w : World F)
        → AddsOne w (check_levels F s mint h price w)
    unfolding check_levels send_level
    levels-AddsOne mint h price w =
        let pnl = F.fmul (F.fdiv (F.fsub price h.buy_price) h.buy_price) (F.of_u64 100) in
        let v = validate-IsValidated F s true true true valid in
        elim (Bool-cases (F.fle (F.of_u64 0) pnl)) [
          | inl p ↦
              rw
                (first_level-none h h.triggered_sl_levels (λ t. F.fle pnl t) 0 s.sl_levels
                  (All-map s.sl_levels (λ l g. sl-Misses o pnl l p g) v.sl))
                (send_level-AddsOne mint h price _ _ w)
          | inr p ↦
              rw
                (first_level-none h h.triggered_tp_levels (λ t. F.fle t pnl) 0 s.tp_levels
                  (All-map s.tp_levels (λ l g. tp-Misses o pnl l p g) v.tp))
                (send_level-AddsOne mint h price _ _ w)
        ]

    record_entry-queue :
        (mint : String) (entry current : Option F.F64) (w : World F)
        → (record_entry F mint entry current w).queue ≡ w.queue
    unfolding record_entry
    record_entry-queue mint (some e) current w = refl
    record_entry-queue mint none none w = refl
    record_entry-queue mint none (some c) w = refl

    rugged-AddsOne :
        (mint : String) (h : Holding F) (price : F.F64) (drop : Option F.F64) (w : World F)
        → AddsOne w (sell_if_rugged F s mint h price drop w)
    unfolding sell_if_rugged
    rugged-AddsOne mint h price none w = levels-AddsOne mint h price w
    rugged-AddsOne mint h price (some d) w = send_order-AddsOne w _

    check_rug-AddsOne :
        (mint : String) (h : Holding F) (q : Quote F) (mark price : F.F64) (w : World F)
        → AddsOne w (check_rug F s mint h q mark price w)
    unfolding check_rug
    check_rug-AddsOne mint h q mark price w =
        let current = liquidity_of F q.real_sol_reserves in
        let w' = record_entry F mint h.entry_liquidity_sol current w in
        AddsOne-if _ w _ _
          (rw (record_entry-queue mint h.entry_liquidity_sol current w) at
            (rugged-AddsOne mint h price (rug_drop F s h q mark price) w'))
          (levels-AddsOne mint h price w)

    check_stop-AddsOne :
        (mint : String) (h : Holding F) (q : Quote F) (mark price : F.F64) (w : World F)
        → AddsOne w (check_stop F s mint h q mark price w)
    unfolding check_stop
    check_stop-AddsOne mint h q mark price w =
        AddsOne-if _ w _ _ (send_order-AddsOne w _) (check_rug-AddsOne mint h q mark price w)

    check_price-AddsOne :
        (mint : String) (h : Holding F) (q : Quote F) (price : F.F64) (w : World F)
        → AddsOne w (check_price F s mint h q price w)
    unfolding check_price set_watermark
    check_price-AddsOne mint h q price w =
        AddsOne-if (F.fle h.buy_price (F.of_u64 0)) w w _ (omega arith)
          (check_stop-AddsOne mint h q (watermark_of F h price) price _)

    on_price-AddsOne :
        (mint : String) (h : Holding F) (q : Quote F) (p : Price F) (w : World F)
        → AddsOne w (on_price F s mint h q p w)
    unfolding on_price migrate
    on_price-AddsOne mint h q (ok price) w =
        AddsOne-if (F.fle price (F.of_u64 0)) w _ _ (omega arith)
          (check_price-AddsOne mint h q price w)
    on_price-AddsOne mint h q (err e) w =
        AddsOne-if (is_migration_signal e) w _ _ (omega arith) (omega arith)

    -- If the settings pass `validate` and the floats are ordered as IEEE 754 says, a pass over a
    -- position queues at most one order: never a take-profit and a stop-loss together.
    pub check_position-AddsOne :
        (q : Quote F) (mint : String) (h : Holding F) (w : World F)
        → AddsOne w (check_position F s q mint h w)
    unfolding check_position
    check_position-AddsOne q mint h w =
        AddsOne-if h.migrated w w _ (omega arith)
          (AddsOne-if h.pending_sell w w _ (omega arith) (on_price-AddsOne mint h q q.price w))
