-- ===== src/Kvm.antt =====
-- The capabilities of KVM and the making of a machine (include/kvm.hpp, src/kvm.cpp).
mod Defs
mod Limits
mod Examples
unfoldable pub use Defs.*
