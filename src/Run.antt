-- ===== src/Run.antt =====
-- The threads of `VM::Boot` of src/vm.cpp, one for each vCPU.
mod Defs
mod Rounds
mod Alone
mod Calls
mod Ends
mod Examples
unfoldable pub use Defs.*
pub use Rounds.{EventsInTable, stops, StopsAt}
pub use Ends.*
unfoldable pub use Alone.*
unfoldable pub use Calls.*
