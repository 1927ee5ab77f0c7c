-- ===== src/Pci.antt =====
-- The PCI host bridge's address register (include/pci.hpp, src/pci.cpp). `device` is left out:
-- no code that is compiled reads or writes it.
mod Defs
mod Fields
mod Examples
unfoldable pub use Defs.*
unfoldable pub use Fields.*
