-- ===== src/Csv.antt =====
-- lib/csv: the cells of comma-separated values, read and written.
pub mod Parse
pub mod Escape
pub mod RoundTrip
pub mod Tests
