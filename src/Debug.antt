-- ===== src/Debug.antt =====
-- The code under GUEST_DEBUG: `Vcpu::SetGuestDebug`, the first loop of `VM::Boot` and the part of
-- `Vcpu::RunLoop` that follows a debug exit (src/vcpu.cpp, src/vm.cpp).
mod Defs
mod Rounds
mod Steps
mod Outside
mod Build
mod Examples
unfoldable pub use Defs.*
unfoldable pub use Rounds.*
unfoldable pub use Steps.*
pub use Outside.*
unfoldable pub use Build.*
