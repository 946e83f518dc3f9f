-- ===== src/Mission/Motion.antt =====
-- mission.py: the motion primitives `_navigate`, `_move_relative` and `_turn_relative`, and the
-- arithmetic that they share.
mod Arithmetic
mod Navigate
mod Relative
unfoldable pub use Arithmetic.*
unfoldable pub use Navigate.*
unfoldable pub use Relative.*
