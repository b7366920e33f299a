-- ===== src/Tests/Positions.antt =====
-- Tests of the positions.
use girasolbot.Prelude.{
  ◌+◌, ◌≤◌, ◌≡◌, ◌≢◌, refl, ap, true, false, none, some, [], ◌∷◌, String, length, str_eq, ◌==◌,
  if◌then◌else◌, arith,
}
use girasolbot.Prelude.Dict
use girasolbot.Float.Fixed.{fixed, fixed-IsOrdered}
use girasolbot.Settings
use girasolbot.Settings.{validate}
use girasolbot.Settings.Validated.{IsValidated, validate-IsValidated}
use girasolbot.Position.State.{Holding, take_profit, stop_loss, acquired}
use girasolbot.Position.Ops.{update_after_sell, try_acquire_buy, member, set_pending_sell, sold}
use girasolbot.Position.Ops.Selling.{IsLeftOf, update_after_sell-IsSale}
use girasolbot.Position.Orders
use girasolbot.Position.Tick
use girasolbot.Position.Tick.{check_position}
use girasolbot.Position.Tick.Sends.{Sends}
use girasolbot.Position.Tick.Selling.{check_position-Sends, check_position_twice}
use girasolbot.Position.Tick.OneOrder.{check_position-AddsOne}
use girasolbot.Position.Buying.{System, here, next, acquire, set_task, reserved, idle}
use girasolbot.Position.Buying.Exclusion.{IsExclusive, Reach-IsExclusive}
use girasolbot.Position.Revalidate.{Answer, no_account, unknown, validate_positions_on_startup}
use girasolbot.Position.Revalidate.Stale.{get-validate_positions_on_startup}
use girasolbot.Tests.Data.{num, settings, holding, monitor, world, doubled}

valid : validate fixed settings true true true ≡ none
unfolding validate Settings.check_levels
valid = refl

validate-IsValidated_example : IsValidated fixed settings
validate-IsValidated_example = validate-IsValidated fixed settings true true true valid

check_position-Sends_example :
    Sends fixed "mint" holding world (check_position fixed settings doubled "mint" holding world)
check_position-Sends_example = check_position-Sends fixed settings doubled "mint" holding world

check_position-AddsOne_example :
    length (check_position fixed settings doubled "mint" holding world).queue
    ≤ length world.queue + 1
check_position-AddsOne_example =
    check_position-AddsOne fixed settings fixed-IsOrdered valid doubled "mint" holding world

-- The position once its take-profit is queued.
abbrev queued : Holding fixed
queued = record holding { pending_sell = true; high_watermark = some (num 4) }

one_order : length (check_position fixed settings doubled "mint" holding world).queue ≡ 1
unfolding check_position Tick.check_price Orders.trailing_stop_triggered Tick.check_rug
    Tick.check_levels Orders.send_level Orders.first_level Orders.level_amount Orders.send_order
one_order = refl

changed : (check_position fixed settings doubled "mint" holding world).queue ≢ world.queue
changed e = let same = ap length e in omega (arith, one_order, same)

marked :
    Dict.get (check_position fixed settings doubled "mint" holding world).positions "mint"
    ≡ some queued
unfolding check_position Tick.check_price Orders.trailing_stop_triggered Tick.check_rug
    Tick.check_levels Orders.send_level Orders.first_level Orders.level_amount Orders.send_order
    Dict.get Dict.modify set_pending_sell Orders.order_for
marked = refl

check_position_twice_example :
    check_position fixed settings doubled "mint" queued
      (check_position fixed settings doubled "mint" holding world)
    ≡ check_position fixed settings doubled "mint" holding world
check_position_twice_example =
    check_position_twice fixed settings doubled doubled "mint" holding queued world changed marked

update_after_sell-IsSale_example :
    let after = update_after_sell fixed monitor "mint" 600 (take_profit (num 100)) 0 in
    IsLeftOf fixed 600
      (take_profit (num 100))
      0
      (Dict.get monitor.positions "mint")
      (Dict.get after.positions "mint")
    × (Dict.get after.positions "other" ≡ (
        if str_eq "mint" "other"
        then Dict.get after.positions "mint"
        else Dict.get monitor.positions "other"))
    × (after.file ≡ after.positions)
update_after_sell-IsSale_example =
    update_after_sell-IsSale fixed monitor "mint" 600 (take_profit (num 100)) 0 "other"

abbrev after_profit : Holding fixed
after_profit = record holding { amount = 400; triggered_tp_levels = 0 ∷ [] }

abbrev after_loss : Holding fixed
after_loss = record holding { amount = 400; triggered_sl_levels = 0 ∷ [] }

profit_taken :
    Dict.get (update_after_sell fixed monitor "mint" 600 (take_profit (num 100)) 0).positions "mint"
    ≡ some after_profit
unfolding update_after_sell sold Dict.get Dict.insert
profit_taken = refl

loss_taken :
    Dict.get (update_after_sell fixed monitor "mint" 600 (stop_loss (num 100)) 0).positions "mint"
    ≡ some after_loss
unfolding update_after_sell sold Dict.get Dict.insert
loss_taken = refl

abbrev quiet : System fixed
quiet = record { monitor = monitor; tasks = λ t. idle }

abbrev reserving : System fixed
reserving = set_task fixed quiet 0 (reserved "new") (record monitor { pending_buys = "new" ∷ [] })

quiet-IsExclusive : IsExclusive fixed quiet
quiet-IsExclusive = record {
  unique = λ t u m e f. ground arith;
  pending = λ t m e. ground arith;
  absent = λ t m e. ground arith;
}

reserved_new :
    try_acquire_buy fixed monitor "new" false
    ≡ (record monitor { pending_buys = "new" ∷ [] }, acquired)
unfolding try_acquire_buy member Dict.get
reserved_new = refl

Reach-IsExclusive_example : IsExclusive fixed reserving
Reach-IsExclusive_example = Reach-IsExclusive fixed 3 quiet reserving quiet-IsExclusive (
    next here
      (acquire 0 "new" (record monitor { pending_buys = "new" ∷ [] }) refl reserved_new refl))

abbrev answers : String → Answer
answers mint = if str_eq mint "mint" then no_account else unknown

get-validate_positions_on_startup_example :
    (Dict.get (validate_positions_on_startup fixed answers monitor).positions "mint"
      ≡ elim (answers "mint") [
        | no_account ↦ none
        | unknown ↦ Dict.get monitor.positions "mint"
        | Answer.amount n ↦ if n == 0 then none else Dict.get monitor.positions "mint"
      ])
    × ((validate_positions_on_startup fixed answers monitor).file
        ≡ (validate_positions_on_startup fixed answers monitor).positions)
get-validate_positions_on_startup_example =
    get-validate_positions_on_startup fixed answers monitor "mint" refl
