-- ===== src/Postings/Salary.antt =====
-- Yearly salaries (backend/jobs/salary.go: normalizePeriod, yearly, YearlySalary) and the reading of
-- a posting's amount (backend/crawler/extract.go: objects, number, yearlySalary).
use jobs_scraper.Prelude.{
  ℕ, not, ◌&&◌, ◌||◌, Option, none, some, List, [], ◌∷◌, keep, if◌then◌else◌, ◌==◌ as nat_beq,
}
use jobs_scraper.Prelude.Int.{ℤ}
use jobs_scraper.Prelude.Keys.{◌==◌, nat_eq, list_eq}
use jobs_scraper.Prelude.Text.{Text, Unicode, codes, trim_space, to_lower, to_upper, contains}
use jobs_scraper.Jobs.{min_salary}
use jobs_scraper.Postings.{
  Numbers, Value, null, boolean, number, string, array, object, Items, no_items, item, Fields,
  no_fields, get, text_at,
}

pub data Period : Type 0 where
  year month week day hour : Period

abbrev pub periods_per_year : Period → ℕ
periods_per_year year = 1
periods_per_year month = 12
periods_per_year week = 52
periods_per_year day = 260
periods_per_year hour = 2080

abbrev pub period_of : Text → Option Period
period_of p =
    if p == []
    then some year
    else if contains p (codes "hour") || p == codes "hr"
    then some hour
    else if contains p (codes "day") || p == codes "daily"
    then some day
    else if contains p (codes "week") || p == codes "wk"
    then some week
    else if contains p (codes "month") || p == codes "mo"
    then some month
    else if contains p (codes "year") || (contains p (codes "annu") || p == codes "yr")
    then some year
    else none

unfoldable pub normalize_period : Unicode → Text → Option Period
normalize_period u period = period_of (to_lower u (trim_space period))

-- `math.MaxInt32`
abbrev pub max_int_32 : ℕ
max_int_32 = 2_147_483_647

module _ (n : Numbers) where
  unfoldable pub yearly : n.Float → Option ℤ
  yearly amount =
      if n.below amount min_salary || n.above amount max_int_32 then none else some (n.round amount)

  abbrev pub yearly_at : n.Float → n.Float → Option Period → Option ℤ × Option ℤ
  yearly_at low high none = (none, none)
  yearly_at low high (some unit) =
      (yearly (n.times low (periods_per_year unit)), yearly (n.times high (periods_per_year unit)))

  unfoldable pub salary_per_year : Unicode → n.Float → n.Float → Text → Text → Option ℤ × Option ℤ
  salary_per_year u low high period currency =
      let c = to_upper u (trim_space currency) in
      if not (c == []) && not (c == codes "USD")
      then (none, none)
      else yearly_at low high (normalize_period u period)

  -- The objects of a list. `null` decodes as an object without fields.
  abbrev pub object_items : Items n → List (Fields n)
  object_items no_items = []
  object_items (item (object fields) rest) = fields ∷ object_items rest
  object_items (item null rest) = no_fields ∷ object_items rest
  object_items (item (boolean b) rest) = object_items rest
  object_items (item (number x) rest) = object_items rest
  object_items (item (string s) rest) = object_items rest
  object_items (item (array items) rest) = object_items rest

  abbrev pub objects_of : Value n → List (Fields n)
  objects_of (object fields) = fields ∷ []
  objects_of (array items) = object_items items
  objects_of null = []
  objects_of (boolean b) = []
  objects_of (number x) = []
  objects_of (string s) = []

  unfoldable pub objects : Option (Value n) → List (Fields n)
  objects none = []
  objects (some v) = objects_of v

  abbrev pub cleaned : Text → Text
  cleaned = keep (λ c. not (nat_beq c b',' || (nat_beq c b'$' || nat_beq c b' ')))

  -- `number`; `null` decodes as 0.
  unfoldable pub number_at : Option (Value n) → Option n.Float
  number_at none = none
  number_at (some null) = some n.nought
  number_at (some (boolean b)) = none
  number_at (some (number x)) = some x
  number_at (some (string s)) = n.parse (cleaned s)
  number_at (some (array items)) = none
  number_at (some (object _)) = none

  abbrev pub float_or : n.Float → Option n.Float → n.Float
  float_or x none = x
  float_or x (some y) = y

  abbrev pub unit_or : Text → Text → Text
  unit_or unit u = if u == [] then unit else u

  -- The range and its unit that an amount's value gives.
  abbrev pub quantity_range : Text → List (Fields n) → n.Float × n.Float × Text
  quantity_range unit [] = (n.nought, n.nought, unit)
  quantity_range unit (quantity ∷ rest) =
      let single = float_or n.nought (number_at (get n (codes "value") quantity)) in
      (
        float_or single (number_at (get n (codes "minValue") quantity)),
        float_or single (number_at (get n (codes "maxValue") quantity)),
        unit_or unit (text_at n (get n (codes "unitText") quantity)),
      )

  abbrev pub value_range : Text → Option (Value n) → Option n.Float → n.Float × n.Float × Text
  value_range unit value (some x) = (x, x, unit)
  value_range unit value none = quantity_range unit (objects value)

  abbrev pub range_per_year : Unicode → Text → n.Float × n.Float × Text → Option ℤ × Option ℤ
  range_per_year u currency (low, high, unit) = salary_per_year u low high unit currency

  abbrev pub salary_of : Unicode → List (Fields n) → Option ℤ × Option ℤ
  salary_of u [] = (none, none)
  salary_of u (amount ∷ rest) =
      let value = get n (codes "value") amount in
      range_per_year u (text_at n (get n (codes "currency") amount))
        (value_range (text_at n (get n (codes "unitText") amount)) value (number_at value))

  unfoldable pub yearly_salary : Unicode → Option (Value n) → Option ℤ × Option ℤ
  yearly_salary u base = salary_of u (objects base)
