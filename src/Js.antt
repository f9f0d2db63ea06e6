-- ===== src/Js.antt =====
-- What the frontend uses of JavaScript's standard library: texts and their methods.
pub mod Text
pub mod Storage
pub mod Dict
