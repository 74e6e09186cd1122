-- ===== src/Examples.antt =====
-- Concrete runs of the program, and a concrete network for them: the data, and in the modules below
-- the witnesses of the theorems.
pub mod Net
pub mod Data
pub mod Rendering
pub mod Deltas
pub mod Collecting
pub mod Windows
pub mod Logins
pub mod Streams
pub mod Enforcing
pub mod Admitting
