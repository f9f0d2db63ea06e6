-- ===== src/Register.antt =====
-- frontend/js/views/register.js: the page on which an endpoint is registered, also while there is no
-- connection.
pub mod Mac
pub mod Context
pub mod Form
pub mod Page
pub mod Vendor
pub mod Mine
mod Tests
