-- ===== src/Cpufeat.antt =====
-- `cpuSupportsVM` of include/cpufeat.hpp, over what the CPUID instruction answers.
mod Defs
mod Vendor
mod Examples
unfoldable pub use Defs.*
