-- ===== src/Mission/Controller.antt =====
-- mission.py: the controller's state, its event log, and the transitions that every handler uses.
mod State
mod Transitions
mod Decisions
unfoldable pub use State.*
unfoldable pub use Transitions.*
unfoldable pub use Decisions.*
