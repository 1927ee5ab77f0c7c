-- ===== src/Mp.antt =====
-- The MultiProcessor tables of the extended BIOS data area (include/boot.hpp, src/boot.cpp).
mod Structs
mod Defs
mod Layout
mod Checksum
mod Processors
mod Examples
unfoldable pub use Structs.*
unfoldable pub use Defs.*
unfoldable pub use Layout.*
unfoldable pub use Checksum.*
unfoldable pub use Processors.*
