-- ===== src/Browse/Filter/Times.antt =====
-- The first-seen range survives being stored and put back.
use ise_endpoint_portal.Prelude.{
  ℕ, ◌+◌, ◌-◌, ◌/◌, ◌%◌, ◌≤◌, ◌<◌, ◌≡◌, refl, ap, ◌∙◌, Bool, true, false, [], ◌∷◌, ◌++◌,
  if◌then◌else◌, ◌==◌, arith, All,
}
use ise_endpoint_portal.Js.Text.{Text, trim, is_space, has_unit, split_on}
use ise_endpoint_portal.Js.Text.Trim.{trim-of_visible}
use ise_endpoint_portal.Js.Text.Split.{split_on-part, split_on-last}
use ise_endpoint_portal.Browse.Filter.{
  is_digit, pad, min, clock, two_digits, time_or, date_time, midnight, last_minute, piece,
}

abbrev time_text : ℕ → ℕ → Text
time_text h m = pad h ++ b':' ∷ pad m

-- a time of day as the page writes it
pub record IsTime (t : Text) : Type 0 where
  pub h : ℕ
  pub m : ℕ
  pub h_bound : h < 24
  pub m_bound : m < 60
  pub shape : t ≡ time_text h m

digit-visible : (n : ℕ) → n < 10 → is_space (b'0' + n) ≡ false
unfolding is_space
digit-visible n h = ground arith

time_text-visible : (h m : ℕ) → h < 24 → m < 60 → All (λ c. is_space c ≡ false) (time_text h m)
time_text-visible h m i j = (
  digit-visible (h / 10) (omega arith),
  (
    digit-visible (h % 10) (omega arith),
    (
      unfold is_space in refl,
      (digit-visible (m / 10) (omega arith), (digit-visible (m % 10) (omega arith), tt)),
    ),
  ),
)

clock-IsTime : (h m : ℕ) → IsTime (clock h m)
clock-IsTime h m = record {
  h = min 23 h;
  m = min 59 m;
  h_bound = ground arith;
  m_bound = ground arith;
  shape = refl;
}

if-IsTime : (b : Bool) (h m : ℕ) (d : Text) → IsTime d → IsTime (if b then clock h m else d)
if-IsTime true h m d i = clock-IsTime h m
if-IsTime false h m d i = i

time_or-IsTime : (d t : Text) → IsTime d → IsTime (time_or d t)
time_or-IsTime d [] i = i
time_or-IsTime d (a ∷ []) i = i
time_or-IsTime d (a ∷ b ∷ []) i = i
time_or-IsTime d (a ∷ b ∷ c ∷ []) i = i
time_or-IsTime d (a ∷ s ∷ m ∷ n ∷ []) i = if-IsTime _ (a - b'0') (two_digits m n) d i
time_or-IsTime d (a ∷ b ∷ s ∷ m ∷ n ∷ []) i = if-IsTime _ (two_digits a b) (two_digits m n) d i
time_or-IsTime d (a ∷ b ∷ s ∷ m ∷ n ∷ x ∷ y) i = i

digit-is_digit : (n : ℕ) → n < 10 → is_digit (b'0' + n) ≡ true
digit-is_digit n h = ground arith

two_digits-pad : (n : ℕ) → n < 60 → two_digits (b'0' + n / 10) (b'0' + n % 10) ≡ n
two_digits-pad n h = omega arith

clock-of_bounds : (h m : ℕ) → h < 24 → m < 60 → clock h m ≡ time_text h m
clock-of_bounds h m i j = rw (min-of_le 23 h (omega arith), min-of_le 59 m (omega arith))
  where
    min-of_le : (a b : ℕ) → b ≤ a → min a b ≡ b
    min-of_le a b k = ground arith

time_or-time_text :
    (d : Text) (h m : ℕ) → h < 24 → m < 60 → time_or d (time_text h m) ≡ time_text h m
time_or-time_text d h m i j =
    rw
      (
        digit-is_digit (h / 10) (omega arith),
        digit-is_digit (h % 10) (omega arith),
        digit-is_digit (m / 10) (omega arith),
        digit-is_digit (m % 10) (omega arith),
        two_digits-pad h (omega arith),
        two_digits-pad m j,
      )
      (clock-of_bounds h m i j)

-- A time that the page wrote is read as it is.
time_or-trim : (d t : Text) → IsTime t → time_or d (trim t) ≡ t
time_or-trim d t i =
    rw
      (i.shape, trim-of_visible (time_text i.h i.m) (time_text-visible i.h i.m i.h_bound i.m_bound))
      (time_or-time_text d i.h i.m i.h_bound i.m_bound)

has_T-of_digit : (n : ℕ) → n < 10 → (b'0' + n == b'T') ≡ false
has_T-of_digit n h = ground arith

time_text-has_no_T : (h m : ℕ) → h < 24 → m < 60 → has_unit b'T' (time_text h m) ≡ false
unfolding has_unit
time_text-has_no_T h m i j = rw (
  has_T-of_digit (h / 10) (omega arith),
  has_T-of_digit (h % 10) (omega arith),
  has_T-of_digit (m / 10) (omega arith),
  has_T-of_digit (m % 10) (omega arith),
)

pub midnight-IsTime : IsTime midnight
midnight-IsTime = record {
  h = 0;
  m = 0;
  h_bound = omega arith;
  m_bound = omega arith;
  shape = refl;
}

pub last_minute-IsTime : IsTime last_minute
last_minute-IsTime = record {
  h = 23;
  m = 59;
  h_bound = omega arith;
  m_bound = omega arith;
  shape = refl;
}

split_on-time :
    (d t : Text) → has_unit b'T' d ≡ false → IsTime t → split_on b'T' (d ++ b'T' ∷ t) ≡ d ∷ t ∷ []
split_on-time d t h i =
    split_on-part b'T' d t h
    ∙ ap (◌∷◌ d)
        (split_on-last b'T' t (rw i.shape (time_text-has_no_T i.h i.m i.h_bound i.m_bound)))

date_time-cons :
    (c : ℕ) (date time d : Text)
    → date_time (c ∷ date) time d ≡ (c ∷ date) ++ b'T' ∷ time_or d (trim time)
unfolding date_time
date_time-cons c date time d = refl

-- A date and time that is put back into its two inputs is read as before.
pub date_time-pieces :
    (date time d : Text)
    → has_unit b'T' date ≡ false
    → IsTime d
    → date_time (piece 0 (date_time date time d)) (piece 1 (date_time date time d)) d
      ≡ date_time date time d
date_time-pieces [] time d h i = unfold date_time split_on in refl
date_time-pieces (c ∷ date) time d h i = rw (
  date_time-cons c date time d,
  split_on-time (c ∷ date) (time_or d (trim time)) h (time_or-IsTime d (trim time) i),
  date_time-cons c date (time_or d (trim time)) d,
  time_or-trim d (time_or d (trim time)) (time_or-IsTime d (trim time) i),
)
