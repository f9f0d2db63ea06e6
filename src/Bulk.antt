-- ===== src/Bulk.antt =====
-- frontend/js/views/browse-bulk.js: the actions on the selected endpoints of the list.
pub mod Rows
pub mod Calls
pub mod Edit
pub mod Radius
pub mod Nmap
mod Tests
