-- ===== src/Resumes/Active.antt =====
-- The active resumes of a profile.
use jobs_scraper.Prelude.{
  ℕ, suc, ◌+◌, ◌≤◌, ◌<◌, ◌≡◌, ◌≢◌, refl, sym, subst, inl, inr, Bool, true, false, not, ◌&&◌,
  Bool-cases, List, [], ◌∷◌, ◌++◌, map, map-append, keep, All, All-append, All-imp, All-keep,
  if◌then◌else◌, ◌==◌ as nat_beq, arith,
}
use jobs_scraper.Prelude.Keys.{nat_eq, member, Distinct, Distinct-snoc}
use jobs_scraper.Prelude.Text.{Text, is_some}
use jobs_scraper.Rows.{Row, Rows, is_owned, first_row}
use jobs_scraper.Rows.Ids.{row_id, not_member-below, Distinct-keep}
use jobs_scraper.Resumes.{
  Resume, change_rows, activate_rows, has_rows, Shelf, new_resume, add_resume, set_active_resume,
  change_resume, replace_resume, rename_resume, delete_resume,
}

-- How many active resumes a profile has.
abbrev pub actives : ℕ → List (Row Resume) → ℕ
actives profile [] = 0
actives profile (row ∷ rows) =
    (if nat_beq row.owner profile && row.value.is_active then 1 else 0) + actives profile rows

actives-append :
    (profile : ℕ) (xs ys : List (Row Resume))
    → actives profile (xs ++ ys) ≡ actives profile xs + actives profile ys
actives-append profile [] ys = omega arith
actives-append profile (x ∷ xs) ys = omega (arith, actives-append profile xs ys)

actives-keep :
    (profile : ℕ) (p : Row Resume → Bool) (xs : List (Row Resume))
    → actives profile (keep p xs) ≤ actives profile xs
actives-keep profile p [] = omega arith
actives-keep profile p (x ∷ xs) = ground (arith, actives-keep profile p xs)

actives-none :
    (profile : ℕ) (xs : List (Row Resume)) → has_rows profile xs ≡ false → actives profile xs ≡ 0
actives-none profile [] h = refl
actives-none profile (x ∷ xs) h = elim (Bool-cases (nat_beq x.owner profile)) [
  | inl its ↦ absurd (ground arith)
  | inr other ↦ let rest = actives-none profile xs (rw other at h) in ground arith
]

-- A change that leaves the flag alone.
actives-change_rows :
    (profile : ℕ) (p : Row Resume → Bool) (f : Resume → Resume) (xs : List (Row Resume))
    → ((r : Resume) → (f r).is_active ≡ r.is_active)
    → actives profile (change_rows p f xs) ≡ actives profile xs
actives-change_rows profile p f [] same = refl
actives-change_rows profile p f (x ∷ xs) same =
    ground (arith, same x.value, actives-change_rows profile p f xs same)

change_rows-ids :
    (p : Row Resume → Bool) (f : Resume → Resume) (xs : List (Row Resume))
    → map row_id (change_rows p f xs) ≡ map row_id xs
change_rows-ids p f [] = refl
change_rows-ids p f (x ∷ xs) = ground (arith, change_rows-ids p f xs)

change_rows-below :
    (p : Row Resume → Bool) (f : Resume → Resume) (n : ℕ) (xs : List (Row Resume))
    → All (λ r. r.id < n) xs
    → All (λ r. r.id < n) (change_rows p f xs)
change_rows-below p f n [] h = tt
change_rows-below p f n (x ∷ xs) h = (ground arith, change_rows-below p f n xs h.1)

activate_rows-ids :
    (profile id : ℕ) (xs : List (Row Resume))
    → map row_id (activate_rows profile id xs) ≡ map row_id xs
activate_rows-ids profile id [] = refl
activate_rows-ids profile id (x ∷ xs) = ground (arith, activate_rows-ids profile id xs)

activate_rows-below :
    (profile id n : ℕ) (xs : List (Row Resume))
    → All (λ r. r.id < n) xs
    → All (λ r. r.id < n) (activate_rows profile id xs)
activate_rows-below profile id n [] h = tt
activate_rows-below profile id n (x ∷ xs) h =
    (ground arith, activate_rows-below profile id n xs h.1)

actives-activate_others :
    (profile id other : ℕ) (xs : List (Row Resume))
    → other ≢ profile
    → actives other (activate_rows profile id xs) ≡ actives other xs
actives-activate_others profile id other [] ne = refl
actives-activate_others profile id other (x ∷ xs) ne =
    ground (arith, actives-activate_others profile id other xs ne)

actives-activate_absent :
    (profile id : ℕ) (xs : List (Row Resume))
    → member id (map row_id xs) ≡ false
    → actives profile (activate_rows profile id xs) ≡ 0
actives-activate_absent profile id [] h = refl
actives-activate_absent profile id (x ∷ xs) h =
    ground (arith, actives-activate_absent profile id xs)

actives-activate_own :
    (profile id : ℕ) (xs : List (Row Resume))
    → Distinct (map row_id xs)
    → actives profile (activate_rows profile id xs) ≤ 1
actives-activate_own profile id [] d = omega arith
actives-activate_own profile id (x ∷ xs) d = elim (Bool-cases (nat_beq x.id id)) [
  | inr other ↦ let ih = actives-activate_own profile id xs d.1 in ground arith
  | inl its ↦
      let same : x.id ≡ id = ground arith in
      let gone : member id (map row_id xs) ≡ false =
        subst (λ n. member n (map row_id xs) ≡ false) same d.0 in
      let rest = actives-activate_absent profile id xs gone in ground arith
]

-- Each profile has at most one active resume; ids are distinct and used up.
abbrev pub IsShelf : Rows Resume → Type 0
IsShelf t =
    ((profile : ℕ) → actives profile t.rows ≤ 1)
    × (Distinct (map row_id t.rows) × All (λ r. r.id < t.next_id) t.rows)

module _ (V : Type 0) where
  pub add_resume-IsShelf :
      (profile : ℕ) (name type : Text) (content : List ℕ) (up : Bool) (s : Shelf V)
      → IsShelf s.table
      → IsShelf (add_resume V profile name type content up s).1.table
  unfolding add_resume
  add_resume-IsShelf profile name type content false s h = h
  add_resume-IsShelf profile name type content true s h = (
    at_most_one,
    (
      subst Distinct (sym (map-append row_id s.table.rows (new ∷ []))) (
          Distinct-snoc (map row_id s.table.rows) s.table.next_id h.1.0
            (not_member-below s.table.next_id s.table.rows h.1.1)),
      All-append (λ r. r.id < suc s.table.next_id) s.table.rows (new ∷ [])
          (All-imp (λ r. r.id < s.table.next_id) (λ r. r.id < suc s.table.next_id)
            (λ r lt. omega arith) s.table.rows h.1.1)
          (omega arith, tt),
    ),
  )
    where
      new : Row Resume
      new = record {
        id = s.table.next_id;
        owner = profile;
        value = new_resume V name type content (not (has_rows profile s.table.rows));
      }

      at_most_one : (other : ℕ) → actives other (s.table.rows ++ new ∷ []) ≤ 1
      at_most_one other = elim (Bool-cases (has_rows profile s.table.rows)) [
        | inl some_there ↦
            let before = h.0 other in
            let sum = actives-append other s.table.rows (new ∷ []) in ground arith
        | inr first ↦
            let before = h.0 other in
            let none_active = actives-none profile s.table.rows first in
            let sum = actives-append other s.table.rows (new ∷ []) in
            elim (Bool-cases (nat_beq profile other)) [
              | inl same ↦
                  let its : profile ≡ other = ground arith in
                  let zero_active : actives other s.table.rows ≡ 0 =
                    subst (λ p. actives p s.table.rows ≡ 0) its none_active in
                  ground arith
              | inr differs ↦ ground arith
            ]
      ]

  pub set_active_resume-IsShelf :
      (profile id : ℕ) (up up_too : Bool) (s : Shelf V)
      → IsShelf s.table
      → IsShelf (set_active_resume V profile id up up_too s).1.table
  unfolding set_active_resume
  set_active_resume-IsShelf profile id false up_too s h = h
  set_active_resume-IsShelf profile id true false s h =
      elim (Bool-cases (is_some (first_row (is_owned profile id) s.table.rows))) [
        | inr missing ↦ rw (missing, set_active_resume) h
        | inl there ↦ rw (there, set_active_resume) h
      ]
  set_active_resume-IsShelf profile id true true s h =
      elim (Bool-cases (is_some (first_row (is_owned profile id) s.table.rows))) [
        | inr missing ↦ rw (missing, set_active_resume) h
        | inl there ↦
            rw (there, set_active_resume)
              (
                activated,
                (
                  subst Distinct (sym (activate_rows-ids profile id s.table.rows)) h.1.0,
                  activate_rows-below profile id s.table.next_id s.table.rows h.1.1,
                ),
              )
      ]
    where
      activated : (other : ℕ) → actives other (activate_rows profile id s.table.rows) ≤ 1
      activated other = elim (Bool-cases (nat_beq other profile)) [
        | inl same ↦
            let its : other ≡ profile = ground arith in
            rw its (actives-activate_own profile id s.table.rows h.1.0)
        | inr differs ↦
            rw (actives-activate_others profile id other s.table.rows (λ e. ground arith))
              (h.0 other)
      ]

  change_resume-IsShelf :
      (profile id : ℕ) (f : Resume → Resume) (up : Bool) (s : Shelf V)
      → ((r : Resume) → (f r).is_active ≡ r.is_active)
      → IsShelf s.table
      → IsShelf (change_resume V profile id f up s).1.table
  change_resume-IsShelf profile id f false s same h = h
  change_resume-IsShelf profile id f true s same h =
      elim (Bool-cases (is_some (first_row (is_owned profile id) s.table.rows))) [
        | inr missing ↦ rw missing h
        | inl there ↦ rw there (
          (λ other.
              subst (λ n. n ≤ 1)
                (sym (actives-change_rows other (is_owned profile id) f s.table.rows same))
                (h.0 other)),
          (
            subst Distinct (sym (change_rows-ids (is_owned profile id) f s.table.rows)) h.1.0,
            change_rows-below (is_owned profile id) f s.table.next_id s.table.rows h.1.1,
          ),
        )
      ]

  pub replace_resume-IsShelf :
      (profile id : ℕ) (name type : Text) (content : List ℕ) (up : Bool) (s : Shelf V)
      → IsShelf s.table
      → IsShelf (replace_resume V profile id name type content up s).1.table
  unfolding replace_resume
  replace_resume-IsShelf profile id name type content up s h =
      change_resume-IsShelf profile id (λ r. new_resume V name type content r.is_active) up s
        (λ r. refl) h

  pub rename_resume-IsShelf :
      (profile id : ℕ) (name : Text) (up : Bool) (s : Shelf V)
      → IsShelf s.table
      → IsShelf (rename_resume V profile id name up s).1.table
  unfolding rename_resume
  rename_resume-IsShelf profile id name up s h =
      change_resume-IsShelf profile id (λ r. record r { file_name = name }) up s (λ r. refl) h

  pub delete_resume-IsShelf :
      (profile id : ℕ) (up : Bool) (s : Shelf V)
      → IsShelf s.table
      → IsShelf (delete_resume V profile id up s).1.table
  unfolding delete_resume
  delete_resume-IsShelf profile id false s h = h
  delete_resume-IsShelf profile id true s h =
      let p : Row Resume → Bool = λ r. not (is_owned profile id r) in
      elim (Bool-cases (is_some (first_row (is_owned profile id) s.table.rows))) [
        | inr missing ↦ rw (missing, delete_resume) h
        | inl there ↦
            rw (there, delete_resume)
              (
                (λ other. omega (arith, actives-keep other p s.table.rows, h.0 other)),
                (
                  Distinct-keep p s.table.rows h.1.0,
                  All-keep (λ r. r.id < s.table.next_id) p s.table.rows h.1.1,
                ),
              )
      ]
