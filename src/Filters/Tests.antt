-- ===== src/Filters/Tests.antt =====
-- The theorems on filters at concrete filters.
use navigation_server.Base.{◌≡◌, arith, replicate}
use navigation_server.Filters.{TimeFilter}
use navigation_server.Filters.Rate.{checks, checks_burst}

abbrev every_second : TimeFilter
every_second = record { period = 1000; tick_time = 500 }

-- Three of five messages that come together.
checks_burst_example : (checks every_second (replicate 5 4000)).0 ≡ 3
checks_burst_example = checks_burst every_second 5 4000 (omega arith)
