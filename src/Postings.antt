-- ===== src/Postings.antt =====
-- The job postings in a page's JSON-LD (backend/crawler/extract.go): JSON values and their readers.
-- A value is what the decoder makes of a text; an object's later fields replace earlier ones of the
-- same key.
pub mod Salary
pub mod Places
pub mod Mapping
pub mod Found
pub mod Pages
pub mod Fit
mod Tests
use jobs_scraper.Prelude.{
  ℕ, ◌≡◌, Bool, true, false, not, ◌&&◌, ◌||◌, Option, none, some, List, [], ◌∷◌, ◌++◌, map, ltb,
  if◌then◌else◌, ◌==◌ as nat_beq,
}
use jobs_scraper.Prelude.Int.{ℤ}
use jobs_scraper.Prelude.Keys.{◌==◌, nat_eq, list_eq}
use jobs_scraper.Prelude.Text.{Text, Unicode, codes, trim_space, equal_fold, contains, has_prefix}

-- Go's `float64`: how the JSON encoder writes it, `strconv.ParseFloat`, and what salaries need.
pub record Numbers : Type 1 where
  pub Float : Type 0
  pub nought : Float
  pub show : Float → Text
  pub parse : Text → Option Float
  -- `x * n`, `x < n`, `x > n`
  pub times : Float → ℕ → Float
  pub below : Float → ℕ → Bool
  pub above : Float → ℕ → Bool
  -- `int(math.Round(x))`, and whether a value is a number at all, not NaN.
  pub round : Float → ℤ
  pub is_number : Float → Bool

module _ (n : Numbers) where
  mutual
    pub data Value : Type 0 where
      null : Value
      boolean : Bool → Value
      number : n.Float → Value
      string : Text → Value
      array : Items → Value
      object : Fields → Value

    pub data Items : Type 0 where
      no_items : Items
      item : Value → Items → Items

    pub data Fields : Type 0 where
      no_fields : Fields
      field : Text → Value → Fields → Fields

  abbrev pub or_later : Option Value → Option Value → Option Value
  or_later earlier none = earlier
  or_later earlier (some v) = some v

  -- `object[key]`
  abbrev pub get : Text → Fields → Option Value
  get key no_fields = none
  get key (field k v rest) = or_later (if k == key then some v else none) (get key rest)

  abbrev pub singleton : Text → List Text
  singleton s = if s == [] then [] else s ∷ []

  abbrev pub first_text : List Text → Text
  first_text [] = []
  first_text (s ∷ rest) = s

  abbrev pub text_of : Option (List Text) → Text
  text_of none = []
  text_of (some ss) = first_text ss

  abbrev pub or_else : Option (List Text) → Option (List Text) → Option (List Text)
  or_else earlier none = earlier
  or_else earlier (some ss) = some ss

  -- The first key of an object that has a text.
  abbrev pub name_or_value : Text → Text → List Text
  name_or_value name value = if name == [] then singleton value else name ∷ []

  unfoldable mutual
    pub texts : Value → List Text
    texts null = []
    texts (boolean b) = []
    texts (number x) = n.show x ∷ []
    texts (string s) = singleton (trim_space s)
    texts (array items) = item_texts items
    texts (object fields) =
        name_or_value (text_of (field_texts (codes "name") fields))
          (text_of (field_texts (codes "@value") fields))

    pub item_texts : Items → List Text
    item_texts no_items = []
    item_texts (item v rest) = texts v ++ item_texts rest

    -- `texts(object[key])`
    pub field_texts : Text → Fields → Option (List Text)
    field_texts key no_fields = none
    field_texts key (field k v rest) =
        or_else (if k == key then some (texts v) else none) (field_texts key rest)

  -- `text` and `texts` of a field that may be missing.
  unfoldable pub texts_at : Option Value → List Text
  texts_at none = []
  texts_at (some v) = texts v

  unfoldable pub text_at : Option Value → Text
  text_at o = first_text (texts_at o)

  -- `strings.HasSuffix(s, x)`
  abbrev pub has_suffix : Text → Text → Bool
  has_suffix [] x = x == []
  has_suffix (c ∷ s) x = (c ∷ s) == x || has_suffix s x

  abbrev pub is_posting_name : Text → Bool
  is_posting_name s = s == codes "JobPosting" || has_suffix s (codes "/JobPosting")

  unfoldable mutual
    pub is_job_posting : Value → Bool
    is_job_posting null = false
    is_job_posting (boolean b) = false
    is_job_posting (number x) = false
    is_job_posting (string s) = is_posting_name s
    is_job_posting (array items) = any_posting items
    is_job_posting (object _) = false

    pub any_posting : Items → Bool
    any_posting no_items = false
    any_posting (item v rest) = is_job_posting v || any_posting rest

  abbrev pub is_posting_type : Option Value → Bool
  is_posting_type none = false
  is_posting_type (some v) = is_job_posting v

  abbrev pub later_found : Option (List Fields) → Option (List Fields) → Option (List Fields)
  later_found earlier none = earlier
  later_found earlier (some found) = some found

  abbrev pub found_or_none : Option (List Fields) → List Fields
  found_or_none none = []
  found_or_none (some found) = found

  -- `walk`, and what it collects: the objects that are postings, each as its fields. `toPosting` cannot
  -- fail, since every field of a posting stays raw.
  unfoldable mutual
    pub walk : Value → List Fields
    walk null = []
    walk (boolean b) = []
    walk (number x) = []
    walk (string s) = []
    walk (array items) = walk_items items
    walk (object fields) =
        let graph = found_or_none (walk_field (codes "@graph") fields) in
        if is_posting_type (get (codes "@type") fields) then fields ∷ [] else graph

    pub walk_items : Items → List Fields
    walk_items no_items = []
    walk_items (item v rest) = walk v ++ walk_items rest

    -- `walk(v[key])`
    pub walk_field : Text → Fields → Option (List Fields)
    walk_field key no_fields = none
    walk_field key (field k v rest) =
        later_found (if k == key then some (walk v) else none) (walk_field key rest)

  abbrev pub spaced : Text → Text
  spaced = map (λ c. if nat_beq c 10 || (nat_beq c 13 || nat_beq c 9) then 32 else c)

  abbrev pub walk_root : Option Value → List Fields
  walk_root none = []
  walk_root (some root) = walk root

  abbrev pub parsed_or : Option Value → Option Value → Option Value
  parsed_or none again = again
  parsed_or (some root) again = some root

  -- `parse_json` is the decoder.
  unfoldable pub find_postings : (Text → Option Value) → Text → List Fields
  find_postings parse_json script =
      walk_root
        (parsed_or (parse_json (trim_space script)) (parse_json (spaced (trim_space script))))

  -- A text comes before another, or they are equal.
  abbrev pub sorts_before : Text → Text → Bool
  sorts_before [] t = true
  sorts_before (c ∷ s) [] = false
  sorts_before (c ∷ s) (d ∷ t) = ltb c d || (nat_beq c d && sorts_before s t)

  abbrev pub later_key : Option (Text × Value) → Text → Value → Option (Text × Value)
  later_key none k v = some (k, v)
  later_key (some (best, u)) k v = if sorts_before best k then some (k, v) else some (best, u)

  abbrev pub value_of : Option (Text × Value) → Option Value
  value_of none = none
  value_of (some (k, v)) = some v

  -- A field of a posting: keys match whatever their case, and `toPosting` reads them sorted.
  abbrev pub posting_field : Unicode → Text → Option (Text × Value) → Fields → Option Value
  posting_field u name best no_fields = value_of best
  posting_field u name best (field k v rest) =
      posting_field u name (if equal_fold u k name then later_key best k v else best) rest

  unfoldable pub field_of : Unicode → Text → Fields → Option Value
  field_of u name fields = posting_field u name none fields
