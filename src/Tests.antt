-- ===== src/Tests.antt =====
-- Runs of the modelled code on concrete input, and each theorem at an input that meets its
-- hypotheses.
mod PositionTests
mod MessageTests
mod PacketTests
mod OtbTests
mod NamesTests
mod BanTests
mod ChatTests
mod WaitlistTests
mod LevelsTests
mod SchedulerTests
mod PartyTests
mod PathsTests
mod TilesTests
mod ContainersTests
mod AttributesTests
