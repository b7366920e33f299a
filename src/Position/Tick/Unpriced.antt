-- ===== src/Position/Tick/Unpriced.antt =====
-- src/position_monitor.rs: a position that has no price.
use girasolbot.Prelude.{◌≡◌, refl, true, String, Bool-cases, inl, inr}
use girasolbot.Float.{Float}
use girasolbot.Settings.{Settings}
use girasolbot.Position.State.{Holding}
use girasolbot.Position.Orders.{Quote, World, Price, ok, err, is_migration_signal}
use girasolbot.Position.Tick.{check_position, check_price, on_price}

module _ (F : Float) where
  open F use {of_u64, fle}

  on_price-unpriced :
      (s : Settings F) (mint : String) (h : Holding F) (q : Quote F) (price : Price F) (w : World F)
      → fle h.buy_price (of_u64 0) ≡ true
      → (on_price F s mint h q price w).queue ≡ w.queue
  unfolding on_price check_price
  on_price-unpriced s mint h q (ok price) w free = elim (Bool-cases (fle price (of_u64 0))) [
    | inl gone ↦ rw gone refl
    | inr positive ↦ rw (positive, free) refl
  ]
  on_price-unpriced s mint h q (err e) w free = elim (Bool-cases (is_migration_signal e)) [
    | inl gone ↦ rw gone refl
    | inr other ↦ rw other refl
  ]

  pub check_position-unpriced :
      (s : Settings F) (q : Quote F) (mint : String) (h : Holding F) (w : World F)
      → fle h.buy_price (of_u64 0) ≡ true
      → (check_position F s q mint h w).queue ≡ w.queue
  unfolding check_position
  check_position-unpriced s q mint h w free = elim (Bool-cases h.migrated) [
    | inl gone ↦ rw gone refl
    | inr here ↦ elim (Bool-cases h.pending_sell) [
      | inl selling ↦ rw (here, selling) refl
      | inr idle ↦ simp (here, idle) (on_price-unpriced s mint h q q.price w free)
    ]
  ]
