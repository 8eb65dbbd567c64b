-- ===== src/Control.antt =====
-- internal/control: the manager's side of the control plane. `Hub` fans events out to subscribers
-- and keeps a bounded replay; `Service` keeps a log of commands for each run's target.
pub mod Types
pub mod Validate
pub mod Hub
pub mod Service
