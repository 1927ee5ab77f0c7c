-- ===== src/Vcpu.antt =====
-- The registers and the CPUID entries of a vCPU (include/vcpu.hpp, src/vcpu.cpp).
mod Constants
mod Defs
mod Flat
mod Long
mod Cpuid
mod Supported
mod Stream
mod DumpRegs
mod DumpSregs
mod Shown
mod Iopl
mod Examples
unfoldable pub use Constants.*
unfoldable pub use Defs.*
unfoldable pub use Flat.*
unfoldable pub use Cpuid.*
