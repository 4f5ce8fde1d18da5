-- ===== src/Transitioner.antt =====
-- pkg/workflow/transitioner.go: one transition of a workflow towards its completion. `State` holds the
-- constants and what is shared with the informer's store, `Status` the update of the workflow on the
-- server, `Steps` the processing of the steps and `Process` the transition.
pub mod State
pub mod Status
pub mod Steps
pub mod Process
