-- ===== src/Setup.antt =====
-- The order in which a machine is set up (initMachine and its steps in src/vm.cpp).
mod Defs
mod Vcpus
mod Head
mod Swallow
mod Thrown
mod Layout
mod Errors
mod Ready
mod Trace
mod Protocol
mod Idle
mod Creation
mod Obeys
pub mod Examples
unfoldable pub use Defs.*
unfoldable pub use Vcpus.*
unfoldable pub use Head.*
unfoldable pub use Ready.*
unfoldable pub use Thrown.*
unfoldable pub use Errors.*
unfoldable pub use Trace.*
unfoldable pub use Protocol.*
unfoldable pub use Obeys.*
