-- ===== src/Profiles/Unique.antt =====
-- Requests keep the unique indexes of the sections' tables.
use jobs_scraper.Prelude.{
  ℕ, ◌<◌, Bool, not, Option, List, [], ◌∷◌, All-keep, Bool-cases, inl, inr, ◌==◌ as nat_beq,
}
use jobs_scraper.Prelude.Keys.{Eq, nat_eq, list_eq}
use jobs_scraper.Rows.{Row, Rows}
use jobs_scraper.Rows.Ids.{Distinct-keep}
use jobs_scraper.Rows.Unique.{
  IsTable, AreApart-keep, delete_row-IsTable, upsert_row-IsTable, update_row-IsTable,
}
use jobs_scraper.Profiles.{
  Columns, skill_key, bullet_key, work_key, education_key, Sections, no_sections,
}
use jobs_scraper.Profiles.Store.{owns, cleared}
use jobs_scraper.Profiles.Moves.{
  Touched, kept, upserted, set, dropped, IsMove, still, on_education, on_skills, on_work,
  on_bullets, on_cleared, on_dropped,
}
use jobs_scraper.Profiles.Served.{Call, serve_all, serve-IsMove}

Touched-IsTable :
    {A K : Type 0} ⦃e : Eq K⦄ (key : A → Option K) (owner : ℕ) (t : Rows A) {u : Rows A}
    → Touched key owner t u
    → IsTable key t
    → IsTable key u
Touched-IsTable key owner t kept h = h
Touched-IsTable key owner t (upserted a) h = upsert_row-IsTable key owner a t h
Touched-IsTable key owner t (set id a) h = update_row-IsTable key owner id a t h
Touched-IsTable key owner t (dropped id) h = delete_row-IsTable key owner id t h

module _ (c : Columns) where
  -- Each table is unique by its key for each owner, and its ids are distinct.
  abbrev pub AreTables : Sections c → Type 0
  AreTables s =
      IsTable (education_key c) s.education
      × (IsTable skill_key s.skills × (IsTable work_key s.work × IsTable bullet_key s.bullets))

  cleared-AreTables :
      (profile id : ℕ) (s : Sections c) → AreTables s → AreTables (cleared c profile id s)
  cleared-AreTables profile id s (e, (k, (w, b))) = elim (Bool-cases (owns c profile id s)) [
    | inr strange ↦ rw strange (e, (k, (w, b)))
    | inl own ↦
        let p : Row _ → Bool = λ r. not (nat_beq r.owner id) in
        rw own (
          e,
          (
            k,
            (
              w,
              (
                AreApart-keep bullet_key p s.bullets.rows b.0,
                (
                  Distinct-keep p s.bullets.rows b.1.0,
                  All-keep (λ r. r.id < s.bullets.next_id) p s.bullets.rows b.1.1,
                ),
              ),
            ),
          ),
        )
  ]

  IsMove-AreTables :
      (profile : ℕ) (s : Sections c) {t : Sections c}
      → IsMove c profile s t
      → AreTables s
      → AreTables t
  IsMove-AreTables profile s still h = h
  IsMove-AreTables profile s (on_education rows u) (e, (k, (w, b))) =
      (Touched-IsTable (education_key c) profile s.education u e, (k, (w, b)))
  IsMove-AreTables profile s (on_skills rows u) (e, (k, (w, b))) =
      (e, (Touched-IsTable skill_key profile s.skills u k, (w, b)))
  IsMove-AreTables profile s (on_work rows u) (e, (k, (w, b))) =
      (e, (k, (Touched-IsTable work_key profile s.work u w, b)))
  IsMove-AreTables profile s (on_bullets work rows own u) (e, (k, (w, b))) =
      (e, (k, (w, Touched-IsTable bullet_key work s.bullets u b)))
  IsMove-AreTables profile s (on_cleared id) h = cleared-AreTables profile id s h
  IsMove-AreTables profile s (on_dropped id) h =
      let (e, (k, (w, b))) = cleared-AreTables profile id s h in
      (e, (k, (delete_row-IsTable work_key profile id s.work h.1.1.0, b)))

  serve_all-AreTables_from :
      (calls : List (Call c)) (s : Sections c) → AreTables s → AreTables (serve_all c calls s)
  unfolding serve_all
  serve_all-AreTables_from [] s h = h
  serve_all-AreTables_from (call ∷ calls) s h = serve_all-AreTables_from calls _ (
      IsMove-AreTables call.profile s
        (serve-IsMove c call.profile s call.up call.up_too call.request) h)

  -- From empty tables, whatever requests any profiles make and however their statements end
  -- (run, not run, or run with the answer lost), no profile ends up with two education entries of one school, major and degree, two
  -- equal skills, or two work entries of one company, title and start date (entries without a start
  -- date aside); no work entry has two equal bullets; and the ids of each table are distinct and below
  -- its next one.
  pub serve_all-AreTables : (calls : List (Call c)) → AreTables (serve_all c calls (no_sections c))
  serve_all-AreTables calls =
      serve_all-AreTables_from calls (no_sections c)
        ((tt, (tt, tt)), ((tt, (tt, tt)), ((tt, (tt, tt)), (tt, (tt, tt)))))
