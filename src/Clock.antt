-- ===== src/Clock.antt =====
-- clock.py: the clocks. `Waiter` is the heap of sleepers, `Sim` the state of SimClock and the
-- operations that register with it, `Due` the choice of the next sleeper, `Advance` the driver's
-- loop, `Every` the periodic ticks of SimClock, and `Wall` is WallClock.
pub mod Waiter
pub mod Sim
pub mod Due
pub mod Advance
pub mod Order
pub mod Counting
pub mod Termination
pub mod Size
pub mod Numbering
pub mod Gather
pub mod Service
pub mod Resting
pub mod Rule
pub mod Timing
pub mod Conserved
pub mod Every
pub mod Wall
