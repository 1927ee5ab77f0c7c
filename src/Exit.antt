-- ===== src/Exit.antt =====
-- What the VMM does on an exit of the guest (`Vcpu::RunOnce` and `Vcpu::RunLoop` of src/vcpu.cpp).
mod Defs
mod Safety
mod Strings
mod Answer
mod Loop
mod Enter
mod Stale
mod Console
mod Accesses
mod Refines
pub mod Examples
unfoldable pub use Defs.*
unfoldable pub use Safety.*
unfoldable pub use Strings.*
unfoldable pub use Answer.*
unfoldable pub use Loop.*
unfoldable pub use Enter.*
unfoldable pub use Stale.*
unfoldable pub use Console.*
unfoldable pub use Refines.*
