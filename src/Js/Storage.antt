-- ===== src/Js/Storage.antt =====
-- localStorage: what is read under a key. JSON `null` counts as absent.
use ise_endpoint_portal.Prelude.{Option, none, some}

-- What localStorage holds under a key.
pub data Entry (A : Type 0) : Type 0 where
  absent unreadable : Entry A
  value : A → Entry A

-- `raw ? JSON.parse(raw) : null`, and `null` for a text that does not parse
abbrev pub read : {A : Type 0} → Entry A → Option A
read absent = none
read unreadable = none
read (value a) = some a
