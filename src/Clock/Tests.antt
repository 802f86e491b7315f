-- ===== src/Clock/Tests.antt =====
-- Dates of src/exom.rs, and the theorem applied to one.
use ray_exomem.Prelude.{◌≡◌, refl, ℕ, ◌+◌, ◌*◌, ◌<◌, some, arith}
use ray_exomem.Clock.{is_leap, year_loop, month_loop, Time, days_to_ymd, epoch_to_ymdhms}
use ray_exomem.Clock.Gregorian.{IsDate, epoch_to_ymdhms-IsDate}

-- 2024-02-29T12:34:56Z
leap_day :
    epoch_to_ymdhms 1709210096
    ≡ some (record {
      date = record { year = 2024; month = 2; day = 29 };
      hour = 12;
      minute = 34;
      second = 56;
    })
unfolding epoch_to_ymdhms days_to_ymd year_loop month_loop is_leap
leap_day = refl

epoch_to_ymdhms-IsDate_example :
    (t : Time) × (epoch_to_ymdhms 1709210096 ≡ some t)
    × (t.hour < 24)
    × (t.minute < 60)
    × (t.second < 60)
    × ((days : ℕ) × IsDate days t.date
        × (days * 86400 + t.hour * 3600 + t.minute * 60 + t.second ≡ 1709210096))
epoch_to_ymdhms-IsDate_example = epoch_to_ymdhms-IsDate 1709210096 (omega arith)
