-- ===== src/Postings/Found.antt =====
-- Which objects of a JSON-LD block are found.
use jobs_scraper.Prelude.{
  ◌≡◌, ◌∙◌, refl, ap, ◌↔◌, ◌⊎◌, inl, inr, Bool, true, false, Bool-cases, Option, none, some,
  Option-cases, List, [], ◌∷◌, ◌++◌, if◌then◌else◌,
}
use jobs_scraper.Prelude.Keys.{◌==◌, nat_eq, list_eq}
use jobs_scraper.Prelude.Text.{Text, codes}
use jobs_scraper.Postings.{
  Numbers, Value, null, boolean, number, string, array, object, Items, no_items, item, Fields,
  no_fields, field, get, is_posting_type, later_found, found_or_none, walk, walk_items, walk_field,
}

module _ (n : Numbers) where
  abbrev pub is_posting : Fields n → Bool
  is_posting fields = is_posting_type n (get n (codes "@type") fields)

  -- A posting stands in a value: the value itself, in one of a list's items, or in the `@graph` of an
  -- object that is no posting.
  mutual
    pub data Stands (posting : Fields n) : Value n → Type 0 where
      itself :
          (fields : Fields n)
          → fields ≡ posting
          → is_posting fields ≡ true
          → Stands posting (object fields)
      listed : (items : Items n) → Among posting items → Stands posting (array items)
      in_graph :
          (fields : Fields n) (v : Value n)
          → is_posting fields ≡ false
          → get n (codes "@graph") fields ≡ some v
          → Stands posting v
          → Stands posting (object fields)

    pub data Among (posting : Fields n) : Items n → Type 0 where
      first : (v : Value n) (rest : Items n) → Stands posting v → Among posting (item v rest)
      later : (v : Value n) (rest : Items n) → Among posting rest → Among posting (item v rest)

  abbrev pub Has : Fields n → List (Fields n) → Type 0
  Has posting [] = ⊥
  Has posting (found ∷ rest) = (found ≡ posting) ⊎ Has posting rest

  Has-append_left :
      (posting : Fields n) (xs ys : List (Fields n)) → Has posting xs → Has posting (xs ++ ys)
  Has-append_left posting [] ys h = absurd h
  Has-append_left posting (x ∷ xs) ys (inl e) = inl e
  Has-append_left posting (x ∷ xs) ys (inr h) = inr (Has-append_left posting xs ys h)

  Has-append_right :
      (posting : Fields n) (xs ys : List (Fields n)) → Has posting ys → Has posting (xs ++ ys)
  Has-append_right posting [] ys h = h
  Has-append_right posting (x ∷ xs) ys h = inr (Has-append_right posting xs ys h)

  Has-append :
      (posting : Fields n) (xs ys : List (Fields n))
      → Has posting (xs ++ ys)
      → Has posting xs ⊎ Has posting ys
  Has-append posting [] ys h = inr h
  Has-append posting (x ∷ xs) ys (inl e) = inl (inl e)
  Has-append posting (x ∷ xs) ys (inr h) = elim (Has-append posting xs ys h) [
    | inl left ↦ inl (inr left)
    | inr right ↦ inr right
  ]

  abbrev walked : Option (Value n) → Option (List (Fields n))
  walked none = none
  walked (some v) = some (walk n v)

  walk_field-get :
      (key : Text) (fields : Fields n) → walk_field n key fields ≡ walked (get n key fields)
  unfolding walk
  walk_field-get key no_fields = refl
  walk_field-get key (field k v rest) = elim (Option-cases (get n key rest)) [
    | inr (u, there) ↦ rw there (
        ap (later_found n (if k == key then some (walk n v) else none)) (walk_field-get key rest)
        ∙ rw there refl)
    | inl missing ↦ rw missing (
        ap (later_found n (if k == key then some (walk n v) else none)) (walk_field-get key rest)
        ∙ rw missing
            (elim (k == key)
              as (λ b.
                (if b then some (walk n v) else none) ≡ walked (if b then some v else none)) [
                  | true ↦ refl
                  | false ↦ refl
                ]))
  ]

  -- What an object's field leads to.
  abbrev StandsAt : Fields n → Text → Fields n → Type 0
  StandsAt posting key fields = (v : Value n) × (get n key fields ≡ some v) × Stands posting v

  either_field :
      (posting : Fields n) (key k : Text) (v : Value n) (rest : Fields n)
      → (Has posting (found_or_none n (walk_field n key rest)) → StandsAt posting key rest)
      → (Has posting (walk n v) → Stands posting v)
      → Has posting (found_or_none n (walk_field n key (field k v rest)))
      → StandsAt posting key (field k v rest)
  unfolding walk
  either_field posting key k v rest later_ones this h = elim (Option-cases (get n key rest)) [
    | inr (u, there) ↦
        let walked_rest : walk_field n key rest ≡ some (walk n u) =
          walk_field-get key rest ∙ ap walked there in
        let found : Has posting (walk n u) = rw walked_rest at h in
        let (w, its, stands) = later_ones (rw walked_rest found) in (w, rw its refl, stands)
    | inl missing ↦
        let walked_rest : walk_field n key rest ≡ none =
          walk_field-get key rest ∙ ap walked missing in
        elim (Bool-cases (k == key)) [
          | inl same ↦
              let found : Has posting (walk n v) = rw (walked_rest, same) at h in
              (v, rw (missing, same) refl, this found)
          | inr differs ↦ let found : ⊥ = rw (walked_rest, differs) at h in absurd found
        ]
  ]

  mutual
    unfolding walk

    found-Stands : (posting : Fields n) (v : Value n) → Has posting (walk n v) → Stands posting v
    found-Stands posting null h = absurd h
    found-Stands posting (boolean b) h = absurd h
    found-Stands posting (number x) h = absurd h
    found-Stands posting (string s) h = absurd h
    found-Stands posting (array items) h = listed items (found-Among posting items h)
    found-Stands posting (object fields) h = elim (Bool-cases (is_posting fields)) [
      | inl its ↦
          let here : (fields ≡ posting) ⊎ ⊥ = rw its at h in
          elim here [ inl same ↦ itself fields same its | inr none_left ↦ absurd none_left ]
      | inr other ↦
          let graph : Has posting (found_or_none n (walk_field n (codes "@graph") fields)) =
            rw other at h in
          let (v, at_graph, stands) = found-StandsAt posting (codes "@graph") fields graph in
          in_graph fields v other at_graph stands
    ]

    found-Among :
        (posting : Fields n) (items : Items n)
        → Has posting (walk_items n items)
        → Among posting items
    found-Among posting no_items h = absurd h
    found-Among posting (item v rest) h =
        elim (Has-append posting (walk n v) (walk_items n rest) h) [
          | inl left ↦ first v rest (found-Stands posting v left)
          | inr right ↦ later v rest (found-Among posting rest right)
        ]

    found-StandsAt :
        (posting : Fields n) (key : Text) (fields : Fields n)
        → Has posting (found_or_none n (walk_field n key fields))
        → StandsAt posting key fields
    found-StandsAt posting key no_fields h = absurd h
    found-StandsAt posting key (field k v rest) h =
        either_field posting key k v rest (found-StandsAt posting key rest) (found-Stands posting v)
          h

  mutual
    unfolding walk

    Stands-found : (posting : Fields n) (v : Value n) → Stands posting v → Has posting (walk n v)
    Stands-found posting v (itself o same its) = rw its (inl same)
    Stands-found posting v (listed items among) = Among-found posting items among
    Stands-found posting v (in_graph fields u other at_graph stands) =
        rw (other, walk_field-get (codes "@graph") fields, at_graph) (Stands-found posting u stands)

    Among-found :
        (posting : Fields n) (items : Items n)
        → Among posting items
        → Has posting (walk_items n items)
    Among-found posting items (first v rest stands) =
        Has-append_left posting (walk n v) (walk_items n rest) (Stands-found posting v stands)
    Among-found posting items (later v rest among) =
        Has-append_right posting (walk n v) (walk_items n rest) (Among-found posting rest among)

  -- The walk over a decoded JSON-LD block finds exactly the postings that stand in it: objects whose
  -- type is that of a posting, reached from the root through items of lists and through the `@graph` of
  -- objects that are no postings.
  pub walk-iff-Stands :
      (posting : Fields n) (root : Value n) → Has posting (walk n root) ↔ Stands posting root
  walk-iff-Stands posting root = (found-Stands posting root, Stands-found posting root)
