-- ===== src/Time.antt =====
-- Go's time.Time as an instant: nanoseconds since Go's zero time, 1 January of year 1, UTC. `UTC()`
-- changes the location and not the instant. time.Duration is a number of nanoseconds.
use statlite.Prelude.{ℕ, zero, suc, ◌+◌, ◌-◌, ◌*◌, ◌%◌, ◌≤◌, ◌<◌, ◌≡◌, Bool, arith, ltb}

abbrev pub Time : Type 0
Time = ℕ

abbrev pub Duration : Type 0
Duration = ℕ

abbrev pub second : Duration
second = 1_000_000_000

abbrev pub minute : Duration
minute = 60 * second

abbrev pub hour : Duration
hour = 60 * minute

-- t.Before(u), t.After(u)
abbrev pub before : Time → Time → Bool
before t u = ltb t u

abbrev pub after : Time → Time → Bool
after t u = ltb u t

-- t.Truncate(d): rounds down to a multiple of d since the zero time; t itself for d <= 0.
unfoldable pub truncate : Time → Duration → Time
truncate t zero = t
truncate t (suc d) = t - t % suc d

pub truncate-le : (t : Time) (d : Duration) → truncate t d ≤ t
unfolding truncate
truncate-le t zero = omega arith
truncate-le t (suc d) = omega arith

-- The bucket of `t` starts less than a duration before it.
pub lt-truncate-add : (t d : ℕ) → 0 < d → t < truncate t d + d
unfolding truncate
lt-truncate-add t zero h = elim h [ ]
lt-truncate-add t (suc d) h = omega arith

pub truncate_aligned : (t d : ℕ) → 0 < d → truncate t d % d ≡ 0
unfolding truncate
truncate_aligned t zero h = elim h [ ]
truncate_aligned t (suc d) h = grind arith

pub truncate_mono : (t u d : ℕ) → t ≤ u → truncate t d ≤ truncate u d
unfolding truncate
truncate_mono t u zero h = h
truncate_mono t u (suc d) h = grind arith
