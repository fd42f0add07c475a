-- ===== src/Tests.antt =====
-- Runs of the models at the inputs of the source's own tests, and the theorems at concrete inputs.
mod DurationTests
mod AddressTests
mod BufferTests
mod CursorTests
mod HashTests
mod SyncTests
mod ProvidedTests
