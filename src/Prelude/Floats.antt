-- ===== src/Prelude/Floats.antt =====
-- Go's `float64`, of which the program uses a parser and conversions: a parameter of the models
-- that read numbers with a fraction.
use mathlib.Core.Bool.{Bool}
use mathlib.Core.Option.{Option}
use jobs_scraper.Prelude.Int.{ℤ}
use jobs_scraper.Prelude.Text.{Text}

pub record Floats : Type 1 where
  pub Float : Type 0
  -- `strconv.ParseFloat(s, 64)`, `none` where it returns an error.
  pub parse_float : Text → Option Float
  -- `x > 0`
  pub is_positive : Float → Bool
  -- `time.Duration(x * float64(time.Second))`, in nanoseconds.
  pub seconds : Float → ℤ
