-- ===== src/Taxi.antt =====
-- finalTask2/taxi.c: a dispatcher, which keeps a table of drivers, and one process per driver, to
-- which it talks through two pipes. Times are seconds as `time` gives them.
pub mod Table
pub mod Status
pub mod Driver
pub mod Wait
pub mod Dispatcher
mod Tests
