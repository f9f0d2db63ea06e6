-- ===== src/Csv.antt =====
-- frontend/js/csv.js: reading and writing of ISE-compatible CSV files.
pub mod Row
pub mod Mac
pub mod Template
pub mod Import
pub mod Export
mod Tests
