-- ===== src/Position/Buying.antt =====
-- The buy tasks of src/main.rs against the guard of src/position_monitor.rs, as interleaved steps.
-- Without `allow_accumulate`: a task reserves its mint, checks the number of positions, buys and adds
-- the position, and releases the mint on every way out.
pub mod Exclusion
use girasolbot.Prelude.{
  ℕ, ◌≤◌, ◌<◌, ◌≡◌, Bool, true, false, Option, none, some, List, String, ltb, ◌==◌, if◌then◌else◌,
}
use girasolbot.Float.{Float}
use girasolbot.Position.State.{
  AcquireResult, acquired, already_holding, busy, SellReason, Holding, PositionMonitor,
}
use girasolbot.Position.Ops.{
  add_position, remove_position, clear_pending_sell, update_after_sell, position_count,
  try_acquire_buy, release_buy,
}

-- Where a task stands in its buy.
pub data Task : Type 0 where
  idle : Task
  reserved checked registered : String → Task

module _ (F : Float) where
  pub record System : Type 0 where
    pub monitor : PositionMonitor F
    pub tasks : ℕ → Task

  abbrev pub assign : (ℕ → Task) → ℕ → Task → ℕ → Task
  assign tasks t v u = if t == u then v else tasks u

  abbrev pub set_task : System → ℕ → Task → PositionMonitor F → System
  set_task s t v m = record { monitor = m; tasks = assign s.tasks t v }

  -- One step of one task, or of the sell side, which never touches the reservations.
  pub data Step (max_holded_coins : ℕ) (s s' : System) : Type 0 where
    acquire :
        (t : ℕ) (mint : String) (m : PositionMonitor F)
        → s.tasks t ≡ idle
        → try_acquire_buy F s.monitor mint false ≡ (m, acquired)
        → s' ≡ set_task s t (reserved mint) m
        → Step max_holded_coins s s'
    check :
        (t : ℕ) (mint : String)
        → s.tasks t ≡ reserved mint
        → position_count F s.monitor < max_holded_coins
        → s' ≡ set_task s t (checked mint) s.monitor
        → Step max_holded_coins s s'
    add :
        (t : ℕ) (mint : String) (h : Holding F)
        → s.tasks t ≡ checked mint
        → s' ≡ set_task s t (registered mint) (add_position F s.monitor mint h)
        → Step max_holded_coins s s'
    give_up :
        (t : ℕ) (mint : String)
        → s.tasks t ≡ reserved mint
        → s' ≡ set_task s t idle (release_buy F s.monitor mint)
        → Step max_holded_coins s s'
    fail :
        (t : ℕ) (mint : String)
        → s.tasks t ≡ checked mint
        → s' ≡ set_task s t idle (release_buy F s.monitor mint)
        → Step max_holded_coins s s'
    finish :
        (t : ℕ) (mint : String)
        → s.tasks t ≡ registered mint
        → s' ≡ set_task s t idle (release_buy F s.monitor mint)
        → Step max_holded_coins s s'
    sell :
        (mint : String) (n : ℕ) (why : SellReason F) (level : ℕ)
        → s' ≡ record s { monitor = update_after_sell F s.monitor mint n why level }
        → Step max_holded_coins s s'
    close :
        (mint : String)
        → s' ≡ record s { monitor = remove_position F s.monitor mint }
        → Step max_holded_coins s s'
    retry :
        (mint : String)
        → s' ≡ record s { monitor = clear_pending_sell F s.monitor mint }
        → Step max_holded_coins s s'

  pub data Reach (max_holded_coins : ℕ) (s : System) : System → Type 0 where
    here : Reach max_holded_coins s s
    next :
        {t u : System}
        → Reach max_holded_coins s t
        → Step max_holded_coins t u
        → Reach max_holded_coins s u
