-- ===== src/Browse.antt =====
-- The page that lists the endpoints: its helpers (frontend/js/views/browse-utils.js) and its filters
-- (frontend/js/views/browse-filter.js).
pub mod Texts
pub mod Columns
pub mod Filter
mod Tests
