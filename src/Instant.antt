-- ===== src/Instant.antt =====
-- Go's time.Time and time.Duration, as far as the program uses them. An instant is the number of
-- nanoseconds since 00:00 UTC one day before the year 0, so that every time of day that an
-- RFC 3339 text can name, in whatever zone, is a natural number.
use s3_registry.Prelude.{ℕ, ◌-◌, ◌+◌, ◌*◌, ◌/◌, ◌^◌, Bool, ltb, eqb, if◌then◌else◌}
use s3_registry.Prelude.Int.{ℤ, pos, negsuc, sub_ℕ, ltb_ℤ}

abbrev pub Instant : Type 0
Instant = ℕ

-- A duration in nanoseconds, an int64.
abbrev pub Duration : Type 0
Duration = ℤ

-- The zero time.Time is the first of January of the year 1; the year 0 has 366 days.
unfoldable pub zero_time : Instant
zero_time = 367 * 86400 * 10 ^ 9

-- t.IsZero()
unfoldable pub is_zero : Instant → Bool
is_zero t = eqb t zero_time

-- t.Before(u)
abbrev pub before : Instant → Instant → Bool
before t u = ltb t u

-- t.Sub(u), which stops at the ends of int64.
unfoldable pub sub : Instant → Instant → Duration
sub t u =
    if ltb_ℤ (pos (2 ^ 63 - 1)) (sub_ℕ t u)
    then pos (2 ^ 63 - 1)
    else if ltb_ℤ (sub_ℕ t u) (negsuc (2 ^ 63 - 1))
    then negsuc (2 ^ 63 - 1)
    else sub_ℕ t u

-- d.Milliseconds(), which rounds towards zero
unfoldable pub milliseconds : Duration → ℤ
milliseconds (pos n) = pos (n / 10 ^ 6)
milliseconds (negsuc n) = let q = (n + 1) / 10 ^ 6 in if eqb q 0 then pos 0 else negsuc (q - 1)
