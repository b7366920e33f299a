-- ===== src/Position.antt =====
-- src/position_monitor.rs with `Holding` of src/models.rs: the open positions, the guard of pending
-- buys, and the loop that queues sell orders. `State` has the data, `Ops` the methods of
-- `PositionMonitor`, `Tick` one pass of the monitor loop, `Revalidate` the checks against the chain.
pub mod State
pub mod Ops
pub mod Orders
pub mod Tick
pub mod Revalidate
pub mod Buying
