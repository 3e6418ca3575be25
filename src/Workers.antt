-- ===== src/Workers.antt =====
-- app/workers/queue.py: the task queues that run sync jobs in the background.
pub mod Task
pub mod Memory
pub mod Redis
mod Tests
