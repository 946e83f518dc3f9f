-- ===== src/Python.antt =====
-- The Python runtime that the source stands on: exceptions, dynamic values, methods that mutate an
-- object and may raise, and floating-point arithmetic as an interface.
mod Values
mod Outcome
mod Builtins
pub mod Relations
pub mod Checks
pub mod Mappings
pub mod Platform
pub use Values.*
unfoldable pub use Outcome.*
unfoldable pub use Builtins.*
