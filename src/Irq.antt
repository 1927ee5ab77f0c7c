-- ===== src/Irq.antt =====
-- The interrupt lines (`VM::irqLine` and `VM::flapIRQLine` of src/vm.cpp). What the calls do
-- outside
-- the program is recorded in `Host`; whether they succeed is an argument.
mod Defs
mod Flap
unfoldable pub use Defs.*
unfoldable pub use Flap.*
