-- ===== src/Program.antt =====
-- The program from `main` of src/main.cpp to the call of `VM::Boot`.
mod Defs
mod Steps
mod Start
mod Main
mod Inversion
mod Reaches
mod Endings
mod Errors
mod Calls
mod Examples
unfoldable pub use Defs.*
unfoldable pub use Steps.*
