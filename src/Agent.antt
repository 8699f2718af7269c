-- ===== src/Agent.antt =====
-- agent/internal: the budget that admits work on an agent (sessionlimit/budget.go) and the upload
-- area that runs under it (dropzone/dropzone.go). A method that holds its mutex is one step.
pub mod Budget
pub mod Dropzone
mod Examples
