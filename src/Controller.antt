-- ===== src/Controller.antt =====
-- internal/controller: of events.go what the manager writes into the status of runs and machines
-- when events arrive from the control plane; of helpers.go which sources a run of a machine has, and
-- where their data goes; of reconcilers.go the lease that guards a machine.
pub mod Clock
pub mod Conditions
pub mod Transfers
pub mod Runs
pub mod Restores
pub mod Machines
pub mod Refs
pub mod Destinations
pub mod RunSet
pub mod Guard
pub mod History
pub mod Snapshots
pub mod Labels
pub mod Schedule
pub mod JobTransfers
