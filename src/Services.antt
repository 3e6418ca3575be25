-- ===== src/Services.antt =====
-- app/services: the partitions of the large tables.
pub mod Partitions
mod Tests
