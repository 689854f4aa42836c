-- ===== src/Controller.antt =====
-- cmd/cli/controller: the state behind the terminal interface. Requests to redraw are left out, and a
-- function that the code dispatches to the interface's loop is one step.
pub mod View
pub mod State
pub mod Approvals
pub mod Queue
pub mod Answers
pub mod History
pub mod Runs
pub mod Events
pub mod Visits
pub mod Life
pub mod Cancel
pub mod Kept
pub mod Reached
pub mod Decisions
mod Examples
