-- ===== src/Profiles/Owners.antt =====
-- Whose sections a request touches.
use jobs_scraper.Prelude.{
  ℕ, ◌≡◌, ◌≢◌, refl, sym, ap, subst, if◌then◌else◌, true, not, Option, List, [], map, Bool-cases,
  inl, inr, ◌==◌ as nat_beq, arith,
}
use jobs_scraper.Prelude.Keys.{Eq, nat_eq, list_eq, Distinct}
use jobs_scraper.Prelude.Text.{is_some}
use jobs_scraper.Rows.{Row, Rows, is_owned, first_row}
use jobs_scraper.Rows.Ids.{row_id}
use jobs_scraper.Rows.Owners.{
  rows_of, keep-keep, first_row-rows_of, one_owner, delete_row-others, upsert_row-others,
  update_row-others,
}
use jobs_scraper.Profiles.{
  Columns, Bullet, skill_key, bullet_key, work_key, education_key, Sections, no_sections,
}
use jobs_scraper.Profiles.Store.{Run, owns, cleared}
use jobs_scraper.Profiles.Handlers.{Request, serve}
use jobs_scraper.Profiles.Moves.{
  Touched, kept, upserted, set, dropped, IsMove, still, on_education, on_skills, on_work,
  on_bullets, on_cleared, on_dropped,
}
use jobs_scraper.Profiles.Served.{Call, serve_all, serve-IsMove}
use jobs_scraper.Profiles.Unique.{serve_all-AreTables}

Touched-others :
    {A K : Type 0} ⦃e : Eq K⦄ (key : A → Option K) (owner other : ℕ) (t : Rows A) {u : Rows A}
    → Touched key owner t u
    → other ≢ owner
    → rows_of other u ≡ rows_of other t
Touched-others key owner other t kept ne = refl
Touched-others key owner other t (upserted a) ne = upsert_row-others key owner other a t ne
Touched-others key owner other t (set id a) ne = update_row-others key owner id other a t ne
Touched-others key owner other t (dropped id) ne = delete_row-others owner id other t ne

module _ (c : Columns) where
  -- The bullets that a profile has for an entry: none for an entry that is not its own.
  abbrev pub bullets_of : ℕ → ℕ → Sections c → List (Row Bullet)
  bullets_of profile work s = if owns c profile work s then rows_of work s.bullets else []

  -- A profile's sections are the same in two states: its education entries, skills and work entries,
  -- and the bullets of each of its work entries.
  abbrev pub SameSections : ℕ → Sections c → Sections c → Type 0
  SameSections profile s t =
      (rows_of profile t.education ≡ rows_of profile s.education)
      × ((rows_of profile t.skills ≡ rows_of profile s.skills)
          × ((rows_of profile t.work ≡ rows_of profile s.work)
              × ((work : ℕ) → bullets_of profile work t ≡ bullets_of profile work s)))

  -- The same, with the bullets of an entry that the profile owns.
  abbrev Untouched : ℕ → Sections c → Sections c → Type 0
  Untouched profile s t =
      (rows_of profile t.education ≡ rows_of profile s.education)
      × ((rows_of profile t.skills ≡ rows_of profile s.skills)
          × ((rows_of profile t.work ≡ rows_of profile s.work)
              × ((work : ℕ)
                  → owns c profile work s ≡ true
                  → rows_of work t.bullets ≡ rows_of work s.bullets)))

  same_owns :
      (profile work : ℕ) (s t : Sections c)
      → rows_of profile t.work ≡ rows_of profile s.work
      → owns c profile work t ≡ owns c profile work s
  same_owns profile work s t same =
      rw (first_row-rows_of profile work t.work.rows, first_row-rows_of profile work s.work.rows)
        (ap (λ rows. is_some (first_row (is_owned profile work) rows)) same)

  Untouched-SameSections :
      (profile : ℕ) (s t : Sections c) → Untouched profile s t → SameSections profile s t
  Untouched-SameSections profile s t (e, (k, (w, b))) = (e, (k, (w, same_bullets)))
    where
      same_bullets : (work : ℕ) → bullets_of profile work t ≡ bullets_of profile work s
      same_bullets work = elim (Bool-cases (owns c profile work s)) [
        | inr strange ↦ let too = same_owns profile work s t w in rw (too, strange) refl
        | inl own ↦ let too = same_owns profile work s t w in rw (too, own) (b work own)
      ]

  cleared-others :
      (profile other id : ℕ) (s : Sections c)
      → Distinct (map row_id s.work.rows)
      → other ≢ profile
      → Untouched other s (cleared c profile id s)
  cleared-others profile other id s d ne = elim (Bool-cases (owns c profile id s)) [
    | inr strange ↦ rw strange (refl, (refl, (refl, λ work own. refl)))
    | inl own ↦ rw own (
      refl,
      (
        refl,
        (
          refl,
          λ work its.
              keep-keep (λ b. nat_beq b.owner work) (λ b. not (nat_beq b.owner id)) s.bullets.rows
                (λ b here. other_entry own work b its here),
        ),
      ),
    )
  ]
    where
      other_entry :
          owns c profile id s ≡ true
          → (work : ℕ) (b : Row Bullet) → owns c other work s ≡ true
          → nat_beq b.owner work ≡ true
          → not (nat_beq b.owner id) ≡ true
      other_entry own work b its here = elim (Bool-cases (nat_beq b.owner id)) [
        | inr differs ↦ rw differs refl
        | inl same ↦
            let at_work : owns c profile work s ≡ true =
              subst (λ n. owns c profile n s ≡ true) (sym (ground arith)) own in
            absurd (ne (one_owner other profile work s.work.rows d its at_work))
      ]

  IsMove-others :
      (profile other : ℕ) (s : Sections c) {t : Sections c}
      → IsMove c profile s t
      → Distinct (map row_id s.work.rows)
      → other ≢ profile
      → Untouched other s t
  IsMove-others profile other s still d ne = (refl, (refl, (refl, λ work own. refl)))
  IsMove-others profile other s (on_education rows u) d ne = (
    Touched-others (education_key c) profile other s.education u ne,
    (refl, (refl, λ work own. refl)),
  )
  IsMove-others profile other s (on_skills rows u) d ne =
      (refl, (Touched-others skill_key profile other s.skills u ne, (refl, λ work own. refl)))
  IsMove-others profile other s (on_work rows u) d ne =
      (refl, (refl, (Touched-others work_key profile other s.work u ne, λ work own. refl)))
  IsMove-others profile other s (on_bullets work rows own u) d ne = (
    refl,
    (
      refl,
      (
        refl,
        λ entry its. Touched-others bullet_key work entry s.bullets u (λ same. ne (
            one_owner other profile entry s.work.rows d its
              (subst (λ n. owns c profile n s ≡ true) (sym same) own))),
      ),
    ),
  )
  IsMove-others profile other s (on_cleared id) d ne = cleared-others profile other id s d ne
  IsMove-others profile other s (on_dropped id) d ne =
      let (e, (k, (w, b))) = cleared-others profile other id s d ne in
      (e, (k, (delete_row-others profile id other s.work ne, b)))

  -- After any requests from empty tables, one more request of a profile, whatever it is, whatever ids
  -- it names and however its statements end (run, not run, or run with the answer lost), leaves every
  -- other profile's sections as they were.
  pub serve-others :
      (calls : List (Call c)) (profile other : ℕ) (up up_too : Run) (req : Request c)
      → other ≢ profile
      → SameSections other
          (serve_all c calls (no_sections c))
          (serve c profile up up_too req (serve_all c calls (no_sections c))).1
  serve-others calls profile other up up_too req ne =
      let s = serve_all c calls (no_sections c) in
      Untouched-SameSections other s (serve c profile up up_too req s).1 (
        IsMove-others profile other s (serve-IsMove c profile s up up_too req)
          (serve_all-AreTables c calls).1.1.0.1.0 ne)
