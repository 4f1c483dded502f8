-- ===== src/Postings/Places.antt =====
-- The places and tags of a posting (backend/crawler/extract.go: placesText, addressText,
-- employmentTags; backend/utils/strip_html.go: CleanTags).
use jobs_scraper.Prelude.{
  ℕ, not, ◌&&◌, Option, none, some, List, [], ◌∷◌, ◌++◌, length, ltb, if◌then◌else◌,
}
use jobs_scraper.Prelude.Keys.{◌==◌, nat_eq, list_eq, member, lookup}
use jobs_scraper.Prelude.Text.{Text, Unicode, codes, trim_space, to_upper, contains, split, join}
use jobs_scraper.Postings.{
  Numbers, Value, null, boolean, number, string, array, object, Fields, get, texts_at, text_at,
}
use jobs_scraper.Postings.Salary.{objects}

abbrev pub max_places : ℕ
max_places = 3

abbrev pub employment_names : List (Text × Text)
employment_names =
    (codes "FULL_TIME", codes "Full-time")
    ∷ (codes "PART_TIME", codes "Part-time")
    ∷ (codes "CONTRACTOR", codes "Contract")
    ∷ (codes "TEMPORARY", codes "Temporary")
    ∷ (codes "INTERN", codes "Internship")
    ∷ (codes "VOLUNTEER", codes "Volunteer")
    ∷ (codes "PER_DIEM", codes "Per diem")
    ∷ []

abbrev pub name_or : Text → Option Text → Text
name_or part none = part
name_or part (some name) = name

abbrev pub part_tags : Unicode → List Text → List Text
part_tags u [] = []
part_tags u (raw ∷ rest) =
    let more = part_tags u rest in
    let part = trim_space raw in
    let tag = name_or part (lookup (to_upper u part) employment_names) in
    if not (tag == []) && not (tag == codes "OTHER") then tag ∷ more else more

abbrev pub tags_from : Unicode → List Text → List Text
tags_from u [] = []
tags_from u (value ∷ rest) = part_tags u (split value b',') ++ tags_from u rest

-- `unescape` decodes the escapes and entities of a text.
unfoldable pub clean_tags : (Text → Text) → List Text → List Text
clean_tags unescape [] = []
clean_tags unescape (tag ∷ rest) =
    let more = clean_tags unescape rest in
    let clean = trim_space (unescape tag) in if clean == [] then more else clean ∷ more

module _ (n : Numbers) where
  abbrev pub address_parts : Text → Text → List Text
  address_parts locality region =
      (if locality == [] then [] else locality ∷ [])
      ++ (if not (region == []) && not (contains locality region) then region ∷ [] else [])

  abbrev pub joined_or : Text → List Text → Text
  joined_or country [] = country
  joined_or country (part ∷ parts) = join (part ∷ parts) (codes ", ")

  abbrev pub first_address : List (Fields n) → Text
  first_address [] = []
  first_address (address ∷ rest) = joined_or (text_at n (get n (codes "addressCountry") address)) (
      address_parts (text_at n (get n (codes "addressLocality") address))
        (text_at n (get n (codes "addressRegion") address)))

  -- A text, or `null`, is read as it is.
  unfoldable pub address_text : Option (Value n) → Text
  address_text none = []
  address_text (some null) = []
  address_text (some (string s)) = trim_space s
  address_text (some (boolean b)) = first_address (objects n (some (boolean b)))
  address_text (some (number x)) = first_address (objects n (some (number x)))
  address_text (some (array items)) = first_address (objects n (some (array items)))
  address_text (some (object fields)) = first_address (objects n (some (object fields)))

  abbrev pub address_or_name : Text → Fields n → Text
  address_or_name address place =
      if address == [] then text_at n (get n (codes "name") place) else address

  -- The names so far are those seen.
  unfoldable pub places_from : List Text → List (Fields n) → List Text
  places_from places [] = places
  places_from places (place ∷ rest) =
      let name = address_or_name (address_text (get n (codes "address") place)) place in
      places_from
        (if not (name == []) && (not (member name places) && ltb (length places) max_places)
          then places ++ name ∷ []
          else places)
        rest

  abbrev pub places_text : Option (Value n) → Text
  places_text location = join (places_from [] (objects n location)) (codes "; ")

  unfoldable pub employment_tags : Unicode → Option (Value n) → List Text
  employment_tags u employment = tags_from u (texts_at n employment)
