-- ===== src/Browse/Texts.antt =====
-- frontend/js/views/browse-utils.js: addresses, escaped text, paths of groups, and ages.
pub mod Laws
use ise_endpoint_portal.Prelude.{
  ℕ, ◌+◌, ◌-◌, ◌*◌, ◌/◌, Bool, true, false, List, [], ◌∷◌, ◌++◌, Option, none, some, if◌then◌else◌,
  filter, drop, length, ◌==◌, ltb,
}
use ise_endpoint_portal.Js.Text.{
  Text, codes, truthy, or_empty, trim, to_upper_case, starts_with, split_on, replace_all, join,
}

-- `normalizeMac`
unfoldable pub normalize_mac : Option Text → Text
unfolding replace_all trim to_upper_case
normalize_mac s = to_upper_case (trim (replace_all b'-' (b':' ∷ []) (or_empty s)))

-- the replacement of one unit in `esc`
unfoldable pub esc_unit : ℕ → Text
esc_unit c =
    if c == b'&'
    then codes "&amp;"
    else if c == b'<'
    then codes "&lt;"
    else if c == b'>'
    then codes "&gt;"
    else if c == b'"'
    then codes "&quot;"
    else if c == b'\''
    then codes "&#39;"
    else c ∷ []

abbrev pub esc_units : Text → Text
esc_units [] = []
esc_units (c ∷ s) = esc_unit c ++ esc_units s

-- `esc`
unfoldable pub esc : Option Text → Text
esc s = esc_units (or_empty s)

abbrev pub eig_prefix : Text
eig_prefix = codes "Endpoint Identity Groups:"

-- the name of a group without the prefix
abbrev pub group_rest : Text → Text
group_rest name = if starts_with name eig_prefix then drop (length eig_prefix) name else name

-- `groupPathParts`; the test of an empty name is not needed, as it has no parts
unfoldable pub group_path_parts : Option Text → List Text
unfolding split_on starts_with
group_path_parts none = []
group_path_parts (some []) = []
group_path_parts (some (c ∷ s)) = filter truthy (split_on b':' (group_rest (c ∷ s)))

-- `_label` of a group in `groupHierarchyOptionsHtml`
unfoldable pub group_label : Text → Text
unfolding split_on starts_with join
group_label name = join (codes " / ") (split_on b':' (group_rest name))

-- What `fmtRelativeAge` shows: a word, or a number with its unit. Times are milliseconds.
pub data Age : Type 0 where
  nothing unread today yesterday : Age
  days months years : ℕ → Age

-- What `new Date(isoStr)` reads.
pub data Date : Type 0 where
  missing invalid : Date
  at : ℕ → Date

abbrev pub age_of_days : ℕ → Age
age_of_days n =
    if ltb n 1
    then today
    else if n == 1
    then yesterday
    else if ltb n 30
    then days n
    else if ltb n 365
    then months (n / 30)
    else years (n / 365)

-- `fmtRelativeAge`; a date in the future has a negative age, which is below 1 as 0 is
unfoldable pub fmt_relative_age : ℕ → Date → Age
fmt_relative_age now missing = nothing
fmt_relative_age now invalid = unread
fmt_relative_age now (at t) = age_of_days ((now - t) / 86400000)

-- What `fmtAgo` shows: a number of seconds, minutes or hours. `ts` is in seconds.
pub data Ago : Type 0 where
  seconds minutes hours : ℕ → Ago

abbrev pub ago_of_seconds : ℕ → Ago
ago_of_seconds s =
    if ltb s 60 then seconds s else if ltb s 3600 then minutes (s / 60) else hours (s / 3600)

-- `fmtAgo` for a whole number of seconds; 0 counts as missing
unfoldable pub fmt_ago : ℕ → Option ℕ → Option Ago
fmt_ago now none = none
fmt_ago now (some ts) = if ts == 0 then none else some (ago_of_seconds (now / 1000 - ts))
