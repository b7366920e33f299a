-- ===== src/Position/Ops.antt =====
-- The methods of `PositionMonitor`. Each holds its lock from the first access to the last, so it
-- is one step on the shared state.
pub mod Selling
use mathlib.Core.Option
use girasolbot.Prelude.{
  ℕ, ◌+◌, ◌-◌, Bool, true, false, not, ◌&&◌, Option, none, some, List, [], ◌∷◌, ◌++◌, String,
  length, any, ltb, ◌==◌, str_eq, if◌then◌else◌, wrap64,
}
use girasolbot.Prelude.Dict
use girasolbot.Prelude.Dict.{Dict}
use girasolbot.Float.{Float}
use girasolbot.Position.State.{
  AcquireResult, already_holding, acquired, busy, SellReason, take_profit, stop_loss, trailing_stop,
  rug_detected, mirror_sell, Holding, PositionMonitor,
}

-- `HashSet<String>::contains`, `insert` and `remove`.
unfoldable pub member : String → List String → Bool
member k [] = false
member k (j ∷ xs) = if str_eq j k then true else member k xs

unfoldable pub discard : String → List String → List String
discard k [] = []
discard k (j ∷ xs) = let rest = discard k xs in if str_eq j k then rest else j ∷ rest

abbrev pub contains_index : List ℕ → ℕ → Bool
contains_index xs i = any (λ x. x == i) xs

module _ (F : Float) where
  open F use {F64, of_u64, fadd, fmul, fdiv}

  unfoldable pub persist : PositionMonitor F → PositionMonitor F
  persist m = record m { file = m.positions }

  unfoldable pub add_position : PositionMonitor F → String → Holding F → PositionMonitor F
  unfolding persist
  add_position m mint h = persist (record m { positions = Dict.insert m.positions mint h })

  unfoldable pub remove_position : PositionMonitor F → String → PositionMonitor F
  unfolding persist
  remove_position m mint =
      if Dict.contains_key m.positions mint
      then persist (record m { positions = Dict.remove m.positions mint })
      else m

  -- Not saved to the file.
  unfoldable pub clear_pending_sell : PositionMonitor F → String → PositionMonitor F
  clear_pending_sell m mint = record m {
    positions = Dict.modify m.positions mint (λ h. record h { pending_sell = false });
  }

  push_level : List ℕ → ℕ → List ℕ
  push_level levels i = if contains_index levels i then levels else levels ++ i ∷ []

  mark_level : SellReason F → ℕ → Holding F → Holding F
  unfolding push_level
  mark_level (take_profit _) i h = record h {
    triggered_tp_levels = push_level h.triggered_tp_levels i;
  }
  mark_level (stop_loss _) i h = record h {
    triggered_sl_levels = push_level h.triggered_sl_levels i;
  }
  mark_level (trailing_stop _) i h = h
  mark_level (rug_detected _) i h = h
  mark_level mirror_sell i h = h

  unfoldable pub sold : ℕ → SellReason F → ℕ → Holding F → Holding F
  unfolding mark_level
  sold sold_amount reason i h =
      mark_level reason i (record h { pending_sell = false; amount = h.amount - sold_amount })

  settle : Dict (Holding F) → String → Option (Holding F) → Dict (Holding F)
  settle ps mint none = ps
  settle ps mint (some h) = if h.amount == 0 then Dict.remove ps mint else Dict.insert ps mint h

  unfoldable pub update_after_sell :
      PositionMonitor F → String → ℕ → SellReason F → ℕ → PositionMonitor F
  unfolding sold settle persist
  update_after_sell m mint sold_amount reason i =
      let after = Option.map (sold sold_amount reason i) (Dict.get m.positions mint) in
      persist (record m { positions = settle m.positions mint after })

  abbrev pub has_position : PositionMonitor F → String → Bool
  has_position m mint = Dict.contains_key m.positions mint

  -- `amount` wraps as a u64 of a release build does.
  unfoldable pub accumulated : ℕ → F64 → Option F64 → Holding F → Holding F
  accumulated additional new_buy_price cost h =
      let old_total = fmul (of_u64 h.amount) h.buy_price in
      let new_total = fmul (of_u64 additional) new_buy_price in
      let combined = wrap64 (h.amount + additional) in
      record h {
        buy_price =
            if ltb 0 combined
            then fdiv (fadd old_total new_total) (of_u64 combined)
            else h.buy_price;
        amount = combined;
        original_amount = combined;
        buy_cost_sol = elim cost [
          | none ↦ h.buy_cost_sol
          | some c ↦ some (fadd (elim h.buy_cost_sol [ none ↦ of_u64 0 | some x ↦ x ]) c)
        ];
      }

  unfoldable pub accumulate_position :
      PositionMonitor F → String → ℕ → F64 → Option F64 → PositionMonitor F
  unfolding persist accumulated
  accumulate_position m mint additional price cost =
      persist
        (record m { positions = Dict.modify m.positions mint (accumulated additional price cost) })

  abbrev pub position_count : PositionMonitor F → ℕ
  position_count m = length m.positions

  unfoldable pub try_acquire_buy :
      PositionMonitor F → String → Bool → PositionMonitor F × AcquireResult
  unfolding member
  try_acquire_buy m mint allow_accumulate =
      if has_position m mint && not allow_accumulate
      then (m, already_holding)
      else if member mint m.pending_buys
      then (m, busy)
      else (record m { pending_buys = mint ∷ m.pending_buys }, acquired)

  unfoldable pub release_buy : PositionMonitor F → String → PositionMonitor F
  unfolding discard
  release_buy m mint = record m { pending_buys = discard mint m.pending_buys }

  unfoldable pub set_pending_sell : Dict (Holding F) → String → Dict (Holding F)
  set_pending_sell ps mint = Dict.modify ps mint (λ h. record h { pending_sell = true })

  unfoldable pub mark_migrated : Dict (Holding F) → String → Dict (Holding F)
  mark_migrated ps mint =
      Dict.modify ps mint (λ h. if h.migrated then h else record h { migrated = true })
