-- ===== src/Tests.antt =====
-- Concrete inputs: tests of the definitions, and the theorems at inputs that meet their hypotheses.
mod Ticks
mod ClockTests
mod WallClockTests
mod SupervisorTests
mod TaskTests
mod ChannelTests
mod TrafficTests
mod StateTests
mod ZmqTests
mod LinkTests
mod RoutingTests
mod PoolTests
mod MergeTests
mod HostingTests
mod CoordinationTests
