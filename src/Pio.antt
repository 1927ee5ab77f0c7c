-- ===== src/Pio.antt =====
-- Port I/O: the handlers (include/pio.hpp, src/pio.cpp, src/post.cpp), the handler table of
-- src/vm.cpp
-- and the call that a guest's port access makes (src/vcpu.cpp).
mod Constants
mod Defs
mod Register
mod Ports
unfoldable pub use Constants.*
unfoldable pub use Defs.*
unfoldable pub use Register.*
unfoldable pub use Ports.*
