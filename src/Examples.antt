-- ===== src/Examples.antt =====
-- Concrete third-party parts, under which the theorems are applied to concrete inputs, and tests.
mod Parts
mod Wire
mod Serving
mod Calling
mod Generated
mod Joined
mod Typed
mod UnitTests
mod Bytes
