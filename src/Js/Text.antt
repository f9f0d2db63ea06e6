-- ===== src/Js/Text.antt =====
-- JavaScript strings as lists of UTF-16 code units, and the methods that the frontend calls.
-- `to_lower_case` and `to_upper_case` map the ASCII letters and leave other units as they are.
pub mod Laws
pub mod Trim
pub mod Split
pub mod Count
use Prim.Native.Char.{code}
use Prim.Native.String.{String}
use ise_endpoint_portal.Prelude.{
  ℕ, zero, suc, ◌+◌, ◌-◌, Bool, true, false, ◌&&◌, ◌||◌, Option, none, some, List, [], ◌∷◌, ◌++◌,
  map, length, ◌==◌, leb, if◌then◌else◌, any,
}

abbrev pub Text : Type 0
Text = List ℕ

-- The code units of an ASCII literal. `String` has its own `[]` and `∷`.
abbrev pub codes : String → Text
codes String.[] = []
codes (String.◌∷◌ c s) = code c ∷ codes s

infix 50 ◌===◌
-- `a === b` on strings
unfoldable pub ◌===◌ : Text → Text → Bool
[] === [] = true
[] === (y ∷ ys) = false
(x ∷ xs) === [] = false
(x ∷ xs) === (y ∷ ys) = x == y && xs === ys

-- truthiness of a string
abbrev pub truthy : Text → Bool
truthy [] = false
truthy (c ∷ s) = true

-- `x || ""` where `x` is a string, `null` or `undefined`
abbrev pub or_empty : Option Text → Text
or_empty none = []
or_empty (some s) = s

-- `a || b` on strings that may be missing
abbrev pub or_text : Option Text → Option Text → Option Text
or_text none b = b
or_text (some []) b = b
or_text (some (c ∷ s)) b = some (c ∷ s)

-- the white space and line terminators that `trim` removes
unfoldable pub is_space : ℕ → Bool
is_space c =
    (leb 9 c && leb c 13)
    || c == 32
    || c == 160
    || c == 0x1680
    || (leb 0x2000 c && leb c 0x200a)
    || c == 0x2028
    || c == 0x2029
    || c == 0x202f
    || c == 0x205f
    || c == 0x3000
    || c == 0xfeff

pub trim_start : Text → Text
trim_start [] = []
trim_start (c ∷ s) = let rest = trim_start s in if is_space c then rest else c ∷ s

-- a unit before an already trimmed end
pub trim_cons : ℕ → Text → Text
trim_cons c [] = if is_space c then [] else c ∷ []
trim_cons c (d ∷ s) = c ∷ d ∷ s

pub trim_end : Text → Text
unfolding trim_cons
trim_end [] = []
trim_end (c ∷ s) = trim_cons c (trim_end s)

-- `s.trim()`
unfoldable pub trim : Text → Text
unfolding trim_start trim_end is_space
trim s = trim_end (trim_start s)

unfoldable pub lower : ℕ → ℕ
lower c = if leb b'A' c && leb c b'Z' then c + 32 else c

unfoldable pub upper : ℕ → ℕ
upper c = if leb b'a' c && leb c b'z' then c - 32 else c

unfoldable pub to_lower_case : Text → Text
unfolding lower
to_lower_case = map lower

unfoldable pub to_upper_case : Text → Text
unfolding upper
to_upper_case = map upper

-- `s.startsWith(p)`
unfoldable pub starts_with : Text → Text → Bool
starts_with s [] = true
starts_with [] (d ∷ p) = false
starts_with (c ∷ s) (d ∷ p) = c == d && starts_with s p

-- `s.includes(c)` for a single unit
unfoldable pub has_unit : ℕ → Text → Bool
has_unit c [] = false
has_unit c (d ∷ s) = d == c || has_unit c s

-- `s.includes(p)`
unfoldable pub includes : Text → Text → Bool
unfolding starts_with
includes [] p = starts_with [] p
includes (c ∷ s) p = starts_with (c ∷ s) p || includes s p

-- `xs.includes(x)` on an array of strings
unfoldable pub includes_text : List Text → Text → Bool
includes_text xs x = any (λ y. y === x) xs

-- `xs.join(sep)`
unfoldable pub join : Text → List Text → Text
join sep [] = []
join sep (x ∷ []) = x
join sep (x ∷ y ∷ xs) = x ++ (sep ++ join sep (y ∷ xs))

-- a unit in front of the first piece
abbrev pub prepend : ℕ → List Text → List Text
prepend c [] = (c ∷ []) ∷ []
prepend c (p ∷ ps) = (c ∷ p) ∷ ps

-- `s.split(c)` at a single unit
unfoldable pub split_on : ℕ → Text → List Text
split_on sep [] = [] ∷ []
split_on sep (c ∷ s) = let rest = split_on sep s in if c == sep then [] ∷ rest else prepend c rest

-- `s.replace(/c/g, d)`: one unit by another text, everywhere
unfoldable pub replace_all : ℕ → Text → Text → Text
replace_all c d [] = []
replace_all c d (x ∷ s) = let rest = replace_all c d s in if x == c then d ++ rest else x ∷ rest

-- the index of the last element equal to `x`, as `{ [x]: i }` keeps it when built in order
unfoldable pub last_index : Text → List Text → Option ℕ
last_index x [] = none
last_index x (y ∷ ys) = elim (last_index x ys) [
  | some i ↦ some (suc i)
  | none ↦ if y === x then some 0 else none
]
