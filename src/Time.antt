-- ===== src/Time.antt =====
-- What the scripts use of Python's `datetime`: a point of time is the number of microseconds
-- since the first of January of the year 1, and a `timedelta` a signed number of microseconds.
use frugal_leader_election.Base.{
  ℕ, zero, suc, ◌≡◌, arith, ◌+◌, ◌-◌, ◌*◌, ◌/◌, ◌%◌, ◌^◌, Bool, ◌&&◌, ◌||◌, not, Option, none, some,
  ltb, leb, ◌==◌, if◌then◌else◌, Text, length, take, drop,
}
use frugal_leader_election.Base.Int.{ℤ, pos, negsuc, sub_ℕ, ◌+ℤ◌, ◌-ℤ◌, ◌*ℤ◌}
use frugal_leader_election.Base.Result.{Result, ok, err, overflow_error}
use frugal_leader_election.Text.{int}

abbrev pub Datetime : Type 0
Datetime = ℕ

-- Microseconds.
abbrev pub Timedelta : Type 0
Timedelta = ℤ

abbrev pub microseconds_per_second : ℕ
microseconds_per_second = 1000000

is_leap : ℕ → Bool
is_leap y = y % 4 == 0 && (not (y % 100 == 0) || y % 400 == 0)

days_in_month : ℕ → ℕ → ℕ
days_in_month y m =
    if m == 2
    then (if is_leap y then 29 else 28)
    else if m == 4 || m == 6 || m == 9 || m == 11
    then 30
    else 31

days_before_month : ℕ → ℕ → ℕ
days_before_month y zero = 0
days_before_month y (suc m) = days_before_month y m + (if m == 0 then 0 else days_in_month y m)

-- Days before the first of January of the year `y`.
days_before_year : ℕ → ℕ
days_before_year y = let n = y - 1 in n * 365 + n / 4 - n / 100 + n / 400

-- The number of days up to the end of the year 9999.
abbrev pub max_datetime : ℕ
max_datetime = 3652059 * 86400 * 1000000

-- `%f` takes one to six digits, and fills up with zeros on the right.
fraction : Text → ℕ
fraction s = int s * 10 ^ (6 - length s)

-- `datetime.strptime(s, "%Y%m%d %H:%M:%S.%f")` of a text of the shape that the patterns of the
-- scripts capture: eight digits, a blank, three times two digits with colons, a dot, and digits.
-- `none` is a `ValueError`: a field out of range, or more than six digits at the end.
unfoldable pub strptime : Text → Option Datetime
unfolding is_leap days_in_month days_before_month days_before_year fraction
strptime s =
    let year = int (take 4 s) in
    let month = int (take 2 (drop 4 s)) in
    let day = int (take 2 (drop 6 s)) in
    let hour = int (take 2 (drop 9 s)) in
    let minute = int (take 2 (drop 12 s)) in
    let second = int (take 2 (drop 15 s)) in
    let micros = drop 18 s in
    let days = days_before_year year + days_before_month year month + (day - 1) in
    if leb 1 year
      && (leb 1 month && leb month 12)
      && (leb 1 day && leb day (days_in_month year month))
      && leb hour 23
      && leb minute 59
      && leb second 59
      && (leb 1 (length micros) && leb (length micros) 6)
    then some ((((days * 24 + hour) * 60 + minute) * 60 + second) * 1000000 + fraction micros)
    else none

-- `a - b`
abbrev pub minus : Datetime → Datetime → Timedelta
minus a b = sub_ℕ a b

-- `timedelta(seconds=n)`
abbrev pub seconds : ℤ → Timedelta
seconds n = n *ℤ microseconds_per_second

-- A point of time, if it lies in the years 1 to 9999.
abbrev in_range : ℤ → Result Datetime
in_range (pos n) = if ltb n max_datetime then ok n else err overflow_error
in_range (negsuc n) = err overflow_error

-- `t + d` and `t - d`
unfoldable pub plus : Datetime → Timedelta → Result Datetime
plus t d = in_range (pos t +ℤ d)

unfoldable pub less : Datetime → Timedelta → Result Datetime
less t d = in_range (pos t -ℤ d)

in_range_lem : (n : ℤ) {t : Datetime} → in_range n ≡ ok t → pos t ≡ n
in_range_lem (pos n) h = ground arith
in_range_lem (negsuc n) h = cc

pub plus_lem : (t : Datetime) (d : Timedelta) {u : Datetime} → plus t d ≡ ok u → pos u ≡ pos t +ℤ d
unfolding plus
plus_lem t d h = in_range_lem (pos t +ℤ d) h

pub less_lem : (t : Datetime) (d : Timedelta) {u : Datetime} → less t d ≡ ok u → pos u ≡ pos t -ℤ d
unfolding less
less_lem t d h = in_range_lem (pos t -ℤ d) h

-- `t.replace(microsecond=0)`
abbrev pub whole_second : Datetime → Datetime
whole_second t = t - t % microseconds_per_second
