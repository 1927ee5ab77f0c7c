-- ===== src/Com1.antt =====
-- The serial port (include/com1.hpp, src/com1.cpp), ports 0x3F8 to 0x3FF.
mod Constants
mod Defs
mod Loop
mod Queue
mod Status
mod Threads
mod Wakeup
pub mod Terminal
mod Vcpus
mod Order
mod Solo
mod VcpuExamples
mod Examples
unfoldable pub use Constants.*
unfoldable pub use Defs.*
unfoldable pub use Loop.*
unfoldable pub use Queue.*
unfoldable pub use Status.*
unfoldable pub use Threads.*
unfoldable pub use Wakeup.*
