-- ===== src/Reports.antt =====
-- services/report-service: the schedules of reports, the queue of their jobs, and the worker.
pub mod Queue
pub mod Schedules
pub mod Due
pub mod Mirror
pub mod Loading
pub mod Worker
pub mod Ended
