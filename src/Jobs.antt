-- ===== src/Jobs.antt =====
-- config-server/application/jobs.py: the engine that runs a registered job to its end.
--
-- `Types` has the modes, kinds, phases and exceptions; `Plan` the list of steps of each kind of
-- job; `Execute` one step under the retry policy; `Loop` the steps of a job with rewinding;
-- `Finish` the result of a job, its compensation and `_run_job`.
pub mod Types
pub mod Plan
pub mod Execute
pub mod Loop
pub mod Finish
mod Tests
