-- ===== src/Db.antt =====
-- internal/db: the queries on the two keyspaces. A statement is sent with its bound values; timeouts
-- of its context are among the errors that it is answered with. Spans and logging are left out.
pub mod Rows
pub mod Fields
pub mod Sensors
pub mod Readings
