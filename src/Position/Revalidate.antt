-- ===== src/Position/Revalidate.antt =====
-- The checks of src/position_monitor.rs against the chain, at the start and every five minutes.
-- What the RPC node says of a mint is an `Answer`. Nothing else is taken to run between the steps
-- of a check.
pub mod Stale
use girasolbot.Prelude.{ℕ, Bool, true, false, List, [], ◌∷◌, String, if◌then◌else◌, ◌==◌}
use girasolbot.Prelude.Dict
use girasolbot.Prelude.Dict.{Dict}
use girasolbot.Float.{Float}
use girasolbot.Position.State.{Holding, PositionMonitor}
use girasolbot.Position.Ops.{persist}

-- No token account, its amount, or an error on the way, which includes a text that is no number.
pub data Answer : Type 0 where
  no_account unknown : Answer
  amount : ℕ → Answer

abbrev pub is_gone : Answer → Bool
is_gone no_account = true
is_gone unknown = false
is_gone (amount n) = n == 0

module _ (F : Float) where
  abbrev pub keys : Dict (Holding F) → List String
  keys [] = []
  keys ((mint, h) ∷ rest) = mint ∷ keys rest

  -- The mints of the entries with no sell in flight.
  abbrev pub idle_keys : Dict (Holding F) → List String
  idle_keys [] = []
  idle_keys ((mint, h) ∷ rest) =
      let others = idle_keys rest in if h.pending_sell then others else mint ∷ others

  -- The loop over a snapshot.
  unfoldable pub remove_stale :
      (String → Answer) → List String → Dict (Holding F) → Dict (Holding F)
  remove_stale answers [] ps = ps
  remove_stale answers (mint ∷ rest) ps =
      remove_stale answers rest (if is_gone (answers mint) then Dict.remove ps mint else ps)

  -- `later`, unless there is no position to check.
  unless_empty : Dict (Holding F) → PositionMonitor F → PositionMonitor F → PositionMonitor F
  unless_empty [] m later = m
  unless_empty (e ∷ rest) m later = later

  unfoldable pub validate_positions_on_startup :
      (String → Answer) → PositionMonitor F → PositionMonitor F
  unfolding unless_empty
  validate_positions_on_startup answers m =
      unless_empty m.positions m
        (persist F (record m { positions = remove_stale answers (keys m.positions) m.positions }))

  -- The tick of the revalidation, with a payer.
  unfoldable pub revalidate : (String → Answer) → PositionMonitor F → PositionMonitor F
  unfolding unless_empty
  revalidate answers m = unless_empty m.positions m (
      persist F (record m { positions = remove_stale answers (idle_keys m.positions) m.positions }))
