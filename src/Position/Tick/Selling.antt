-- ===== src/Position/Tick/Selling.antt =====
-- What one pass over a position may queue: proofs about `check_position`.
use mathlib.Core.List.{append-nil}
use girasolbot.Prelude.{
  ℕ, ◌≤◌, ◌≡◌, ◌≢◌, refl, ap, ◌∙◌, inl, inr, Bool, true, false, ◌&&◌, Option, none, some, List, [],
  ◌∷◌, ◌++◌, String, arith, ◌+◌,
}
use girasolbot.Prelude.Dict
use girasolbot.Prelude.Dict.{Dict, get-modify}
use girasolbot.Float.{Float}
use girasolbot.Settings.{Settings, Level}
use girasolbot.Position.State.{SellReason, trailing_stop, rug_detected, Holding}
use girasolbot.Position.Ops.{contains_index, mark_migrated}
use girasolbot.Position.Orders.{
  Price, ok, err, Quote, World, order_for, first_level, send_level, within_rug_window,
  is_migration_signal, trailing_stop_triggered,
}
use girasolbot.Position.Tick.{
  check_levels, record_entry, sell_if_rugged, check_rug, set_watermark, check_price, migrate,
  on_price, check_position, liquidity_of, rug_drop, check_stop, watermark_of,
}
use girasolbot.Position.Tick.Sends.{
  IsFresh, Sends, modify-IsMarked, Sends-none, Sends-trans, Sends-if, send_order-Sends,
  whole-IsSound,
}

module _ (F : Float) where
  -- What the scan over the levels finds.
  pub first_level_lem :
      (h : Holding F) (triggered : List ℕ) (hit : F.F64 → Bool) (i : ℕ) (levels : List (Level F))
      {j n : ℕ}
      → first_level F h triggered hit i levels ≡ some (j, n)
      → (contains_index triggered j ≡ false) × (n ≤ h.amount)
  unfolding first_level
  first_level_lem h triggered hit i [] e = cc
  first_level_lem h triggered hit i (level ∷ rest) {j} {n} e =
      ground (arith, first_level_lem h triggered hit (i + 1) rest {j = j} {n = n})

  send_level-Sends :
      (mint : String) (h : Holding F) (price : F.F64) (why : SellReason F) (w : World F)
      (found : Option (ℕ × ℕ))
      → ((j n : ℕ) → found ≡ some (j, n) → IsFresh F h why j × (n ≤ h.amount))
      → Sends F mint h w (send_level F mint h price why found w)
  unfolding send_level order_for
  send_level-Sends mint h price why w none facts = Sends-none F mint h w w refl (λ m. m)
  send_level-Sends mint h price why w (some (j, n)) good =
      let facts = good j n refl in
      send_order-Sends F mint h w _ (record {
        same_mint = refl;
        within = facts.1;
        final = ground arith;
        fresh = facts.0;
        same_dex = refl;
        same_pool = refl;
        same_accounts = refl;
      })

  levels-Sends :
      (s : Settings F) (mint : String) (h : Holding F) (price : F.F64) (w : World F)
      → Sends F mint h w (check_levels F s mint h price w)
  unfolding check_levels
  levels-Sends s mint h price w =
      Sends-trans F
        (send_level-Sends mint h price _ w _
          (λ j n e. first_level_lem h h.triggered_tp_levels _ 0 s.tp_levels e))
        (send_level-Sends mint h price _ _ _
          (λ j n e. first_level_lem h h.triggered_sl_levels _ 0 s.sl_levels e))

  record_entry-Sends :
      (mint : String) (h : Holding F) (entry current : Option F.F64) (w : World F)
      → Sends F mint h w (record_entry F mint entry current w)
  unfolding record_entry
  record_entry-Sends mint h (some e) current w = Sends-none F mint h w w refl (λ m. m)
  record_entry-Sends mint h none none w = Sends-none F mint h w w refl (λ m. m)
  record_entry-Sends mint h none (some c) w =
      Sends-none F mint h w _ refl (modify-IsMarked F w.positions mint _ (λ h. refl))

  rugged-Sends :
      (s : Settings F) (mint : String) (h : Holding F) (price : F.F64) (drop : Option F.F64)
      (w : World F)
      → Sends F mint h w (sell_if_rugged F s mint h price drop w)
  unfolding sell_if_rugged
  rugged-Sends s mint h price none w = levels-Sends s mint h price w
  rugged-Sends s mint h price (some d) w =
      send_order-Sends F mint h w _ (whole-IsSound F mint h price (rug_detected d) tt)

  check_rug-Sends :
      (s : Settings F) (mint : String) (h : Holding F) (q : Quote F) (mark price : F.F64)
      (w : World F)
      → Sends F mint h w (check_rug F s mint h q mark price w)
  unfolding check_rug
  check_rug-Sends s mint h q mark price w =
      Sends-if F (s.rug_detector_enabled && within_rug_window q.age_secs s.rug_window_secs)
        (λ _.
          Sends-trans F
            (record_entry-Sends mint h h.entry_liquidity_sol (liquidity_of F q.real_sol_reserves) w)
            (rugged-Sends s mint h price (rug_drop F s h q mark price) _))
        (λ _. levels-Sends s mint h price w)

  set_watermark-Sends :
      (mint : String) (h : Holding F) (mark : F.F64) (w : World F)
      → Sends F mint h w (set_watermark F mint mark w)
  unfolding set_watermark
  set_watermark-Sends mint h mark w =
      Sends-none F mint h w _ refl (modify-IsMarked F w.positions mint _ (λ h. refl))

  check_stop-Sends :
      (s : Settings F) (mint : String) (h : Holding F) (q : Quote F) (mark price : F.F64)
      (w : World F)
      → Sends F mint h w (check_stop F s mint h q mark price w)
  unfolding check_stop
  check_stop-Sends s mint h q mark price w =
      Sends-if F (trailing_stop_triggered F mark h.buy_price price s.trailing_stop_bps)
        (λ _. send_order-Sends F mint h w _ (whole-IsSound F mint h price (trailing_stop _) tt))
        (λ _. check_rug-Sends s mint h q mark price w)

  check_price-Sends :
      (s : Settings F) (mint : String) (h : Holding F) (q : Quote F) (price : F.F64) (w : World F)
      → Sends F mint h w (check_price F s mint h q price w)
  unfolding check_price
  check_price-Sends s mint h q price w =
      Sends-if F (F.fle h.buy_price (F.of_u64 0)) (λ _. Sends-none F mint h w w refl (λ m. m))
        (λ _.
          Sends-trans F (set_watermark-Sends mint h (watermark_of F h price) w)
            (check_stop-Sends s mint h q (watermark_of F h price) price _))

  migrate-Sends :
      (mint : String) (h : Holding F) (w : World F) → Sends F mint h w (migrate F mint w)
  unfolding migrate mark_migrated
  migrate-Sends mint h w =
      Sends-none F mint h w _ refl (modify-IsMarked F w.positions mint _ (λ h. ground arith))

  on_price-Sends :
      (s : Settings F) (mint : String) (h : Holding F) (q : Quote F) (p : Price F) (w : World F)
      → Sends F mint h w (on_price F s mint h q p w)
  unfolding on_price
  on_price-Sends s mint h q (ok price) w =
      Sends-if F (F.fle price (F.of_u64 0)) (λ _. migrate-Sends mint h w)
        (λ _. check_price-Sends s mint h q price w)
  on_price-Sends s mint h q (err e) w =
      Sends-if F (is_migration_signal e) (λ _. migrate-Sends mint h w)
        (λ _. Sends-none F mint h w w refl (λ m. m))

  -- Whatever the quote and the shared state, a pass over a position only appends orders to the
  -- queue. Each order sells at most the snapshot's amount, is final exactly when it sells all of
  -- it, is for a level that has not fired, and names the position's pool and accounts. If an order
  -- was queued and the mint still has a position, a sell of it is marked as pending.
  pub check_position-Sends :
      (s : Settings F) (q : Quote F) (mint : String) (h : Holding F) (w : World F)
      → Sends F mint h w (check_position F s q mint h w)
  unfolding check_position
  check_position-Sends s q mint h w =
      Sends-if F h.migrated (λ _. Sends-none F mint h w w refl (λ m. m))
        (λ _.
          Sends-if F h.pending_sell (λ _. Sends-none F mint h w w refl (λ m. m))
            (λ _. on_price-Sends s mint h q q.price w))

  -- After a pass of the monitor that queued an order for a position, the next pass over the position,
  -- if it is still there and was not changed in between, changes nothing, at any quote. Mirror sells,
  -- which neither look at the mark of a pending sell nor set it, are not a part of this.
  pub check_position_twice :
      (s : Settings F) (q q' : Quote F) (mint : String) (h h' : Holding F) (w : World F)
      → (check_position F s q mint h w).queue ≢ w.queue
      → Dict.get (check_position F s q mint h w).positions mint ≡ some h'
      → check_position F s q' mint h' (check_position F s q mint h w)
        ≡ check_position F s q mint h w
  check_position_twice s q q' mint h h' w sent e =
      let first = check_position-Sends s q mint h w in
      let pending : h'.pending_sell ≡ true = elim first.marked [
        | inl none_sent ↦
            absurd (sent (first.queued ∙ ap (◌++◌ w.queue) none_sent ∙ append-nil w.queue))
        | inr m ↦ m h' e
      ] in
      unfold check_position in ground (arith, pending)
