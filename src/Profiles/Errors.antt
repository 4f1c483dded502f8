-- ===== src/Profiles/Errors.antt =====
-- The sections after a request that is answered with an error.
use jobs_scraper.Prelude.{
  ℕ, ◌<◌, ◌≤◌, ◌≡◌, ◌≢◌, refl, inl, inr, Bool, true, false, not, Option, none, some, Option-cases,
  List, [], ◌∷◌, keep, arith, ◌==◌ as nat_beq,
}
use jobs_scraper.Prelude.Text.{Text}
use jobs_scraper.Rows.{Row, Reply, ok, invalid_input, no_rows, broken}
use jobs_scraper.Rows.Owners.{rows_of}
use jobs_scraper.Server.{Response, created_response, path_id}
use jobs_scraper.Profiles.{Columns, Bullet, Sections}
use jobs_scraper.Profiles.Store.{
  Run, ran, refused, lost, owns, add_education, add_skill, add_work_experience,
  add_work_experience_bullet, delete_education, delete_skill, delete_work_experience,
  delete_work_experience_bullet, update_education, update_work_experience,
  update_work_experience_bullet,
}
use jobs_scraper.Profiles.Handlers.{
  with_body, answer, updated, deleted, handle_add_education, handle_update_education,
  handle_delete_education, handle_add_skill, handle_delete_skill, handle_add_work_experience,
  handle_update_work_experience, handle_delete_work_experience, handle_add_work_experience_bullet,
  handle_update_work_experience_bullet, handle_delete_work_experience_bullet, Request,
  post_education, put_education, drop_education, post_skill, drop_skill, post_work, put_work,
  drop_work, post_bullet, put_bullet, drop_bullet, serve,
}
use jobs_scraper.Profiles.Failures.{
  run_of, is_ok, add_education-Leaves, update_education-Leaves, delete_education-Leaves,
  add_skill-Leaves, delete_skill-Leaves, add_work_experience-Leaves, update_work_experience-Leaves,
  delete_work_experience-Leaves, delete_work_experience-half, add_work_experience_bullet-Leaves,
  update_work_experience_bullet-Leaves, delete_work_experience_bullet-Leaves,
}

module _ (c : Columns) (s : Sections c) where
  -- An answer that is an error comes with the sections as they were.
  abbrev pub KeepsOnError : Response × Sections c → Type 0
  KeepsOnError r = 400 ≤ r.0.status → r.1 ≡ s

  answer-KeepsOnError :
      {A : Type 0} (not_found failure : Text) (success : A → Response) (r : Reply A × Sections c)
      → ((a : A) → (success a).status < 400)
      → (is_ok r.0 ≡ false → r.1 ≡ s)
      → KeepsOnError (answer c not_found failure success r)
  answer-KeepsOnError nf f success (ok a, t) low h = λ e. absurd (omega (arith, low a))
  answer-KeepsOnError nf f success (invalid_input m, t) low h = λ e. h refl
  answer-KeepsOnError nf f success (no_rows, t) low h = λ e. h refl
  answer-KeepsOnError nf f success (broken, t) low h = λ e. h refl

  with_body-KeepsOnError :
      {A : Type 0} (o : Option A) (next : A → Response × Sections c)
      → ((a : A) → KeepsOnError (next a))
      → KeepsOnError (with_body c s o next)
  with_body-KeepsOnError none next h = λ e. refl
  with_body-KeepsOnError (some a) next h = h a

module _ (c : Columns) where
  serve-KeepsOnError :
      (profile : ℕ) (up : Bool) (req : Request c) (s : Sections c)
      → KeepsOnError c s (serve c profile (run_of up) ran req s)
  unfolding serve handle_add_education handle_update_education handle_delete_education
      handle_add_skill handle_delete_skill handle_add_work_experience handle_update_work_experience
      handle_delete_work_experience handle_add_work_experience_bullet
      handle_update_work_experience_bullet handle_delete_work_experience_bullet
  serve-KeepsOnError profile up (post_education body) s = with_body-KeepsOnError c s body _ (λ req.
      answer-KeepsOnError c s _ _ created_response (add_education c profile req (run_of up) s)
        (λ a. omega arith) (add_education-Leaves c profile s req up))
  serve-KeepsOnError profile up (post_skill body) s = with_body-KeepsOnError c s body _ (λ skill.
      answer-KeepsOnError c s _ _ created_response (add_skill c profile skill (run_of up) s)
        (λ a. omega arith) (add_skill-Leaves c profile s skill up))
  serve-KeepsOnError profile up (post_work body) s = with_body-KeepsOnError c s body _ (λ req.
      answer-KeepsOnError c s _ _ created_response (add_work_experience c profile req (run_of up) s)
        (λ a. omega arith) (add_work_experience-Leaves c profile s req up))
  serve-KeepsOnError profile up (put_education raw body) s = elim (Option-cases (path_id raw)) [
    | inl bad ↦ rw (bad, serve, handle_update_education) (λ e. refl)
    | inr (id, good) ↦
        rw (good, serve, handle_update_education)
          (with_body-KeepsOnError c s body _ (λ req.
            answer-KeepsOnError c s _ _ (updated c)
              (update_education c profile id req (run_of up) s) (λ a. omega arith)
              (update_education-Leaves c profile s id req up)))
  ]
  serve-KeepsOnError profile up (put_work raw body) s = elim (Option-cases (path_id raw)) [
    | inl bad ↦ rw (bad, serve, handle_update_work_experience) (λ e. refl)
    | inr (id, good) ↦
        rw (good, serve, handle_update_work_experience)
          (with_body-KeepsOnError c s body _ (λ req.
            answer-KeepsOnError c s _ _ (updated c)
              (update_work_experience c profile id req (run_of up) s) (λ a. omega arith)
              (update_work_experience-Leaves c profile s id req up)))
  ]
  serve-KeepsOnError profile up (post_bullet raw body) s = elim (Option-cases (path_id raw)) [
    | inl bad ↦ rw (bad, serve, handle_add_work_experience_bullet) (λ e. refl)
    | inr (work, good) ↦
        rw (good, serve, handle_add_work_experience_bullet)
          (with_body-KeepsOnError c s body _ (λ req.
            answer-KeepsOnError c s _ _ created_response
              (add_work_experience_bullet c profile work req (run_of up) ran s) (λ a. omega arith)
              (add_work_experience_bullet-Leaves c profile s work req up true)))
  ]
  serve-KeepsOnError profile up (drop_education raw) s = elim (Option-cases (path_id raw)) [
    | inl bad ↦ rw (bad, serve, handle_delete_education) (λ e. refl)
    | inr (id, good) ↦
        rw (good, serve, handle_delete_education)
          (answer-KeepsOnError c s _ _ (deleted c) (delete_education c profile id (run_of up) s)
            (λ a. omega arith) (delete_education-Leaves c profile s id up))
  ]
  serve-KeepsOnError profile up (drop_skill raw) s = elim (Option-cases (path_id raw)) [
    | inl bad ↦ rw (bad, serve, handle_delete_skill) (λ e. refl)
    | inr (id, good) ↦
        rw (good, serve, handle_delete_skill)
          (answer-KeepsOnError c s _ _ (deleted c) (delete_skill c profile id (run_of up) s)
            (λ a. omega arith) (delete_skill-Leaves c profile s id up))
  ]
  serve-KeepsOnError profile up (drop_work raw) s = elim (Option-cases (path_id raw)) [
    | inl bad ↦ rw (bad, serve, handle_delete_work_experience) (λ e. refl)
    | inr (id, good) ↦
        rw (good, serve, handle_delete_work_experience)
          (answer-KeepsOnError c s _ _ (deleted c)
            (delete_work_experience c profile id (run_of up) ran s) (λ a. omega arith)
            (delete_work_experience-Leaves c profile s id up))
  ]
  serve-KeepsOnError profile up (put_bullet raw_work raw body) s =
      elim (Option-cases (path_id raw_work)) [
        | inl bad ↦ rw (bad, serve, handle_update_work_experience_bullet) (λ e. refl)
        | inr (work, good) ↦ elim (Option-cases (path_id raw)) [
          | inl bad ↦ rw (good, bad, serve, handle_update_work_experience_bullet) (λ e. refl)
          | inr (id, right) ↦
              rw (good, right, serve, handle_update_work_experience_bullet)
                (with_body-KeepsOnError c s body _ (λ text.
                  answer-KeepsOnError c s _ _ (updated c)
                    (update_work_experience_bullet c profile work id text (run_of up) s)
                    (λ a. omega arith)
                    (update_work_experience_bullet-Leaves c profile s work id text up)))
        ]
      ]
  serve-KeepsOnError profile up (drop_bullet raw_work raw) s =
      elim (Option-cases (path_id raw_work)) [
        | inl bad ↦ rw (bad, serve, handle_delete_work_experience_bullet) (λ e. refl)
        | inr (work, good) ↦ elim (Option-cases (path_id raw)) [
          | inl bad ↦ rw (good, bad, serve, handle_delete_work_experience_bullet) (λ e. refl)
          | inr (id, right) ↦
              rw (good, right, serve, handle_delete_work_experience_bullet)
                (answer-KeepsOnError c s _ _ (deleted c)
                  (delete_work_experience_bullet c profile work id (run_of up) s) (λ a. omega arith)
                  (delete_work_experience_bullet-Leaves c profile s work id up))
        ]
      ]

  -- If the answer of the first statement is not lost, and the second, where there is one, is run and
  -- answered, then a request that is answered with an error (a status of 400 or more), be it refused,
  -- not found or failing in the database, leaves the sections of every profile as they were.
  pub serve-error :
      (profile : ℕ) (up : Run) (req : Request c) (s : Sections c)
      → up ≢ lost
      → 400 ≤ (serve c profile up ran req s).0.status
      → (serve c profile up ran req s).1 ≡ s
  serve-error profile ran req s kept failed = serve-KeepsOnError profile true req s failed
  serve-error profile refused req s kept failed = serve-KeepsOnError profile false req s failed
  serve-error profile lost req s kept failed = absurd (kept refl)

  rows_of-without :
      (id : ℕ) (rows : List (Row Bullet))
      → keep (λ r. nat_beq r.owner id) (keep (λ b. not (nat_beq b.owner id)) rows) ≡ []
  rows_of-without id [] = refl
  rows_of-without id (row ∷ rows) = ground (arith, rows_of-without id rows)

  -- Where the first statement of the deletion of a work entry is run and answered, the second is not
  -- run, and the profile owns the entry, the answer is an error of the server (500): the entry is still there, and its bullets are gone.
  pub drop_work-half_done :
      (profile id : ℕ) (raw : Text) (s : Sections c)
      → path_id raw ≡ some id
      → owns c profile id s ≡ true
      → ((serve c profile ran refused (drop_work raw) s).0.status ≡ 500)
        × (((serve c profile ran refused (drop_work raw) s).1.work ≡ s.work)
            × (rows_of id (serve c profile ran refused (drop_work raw) s).1.bullets ≡ []))
  unfolding serve handle_delete_work_experience
  drop_work-half_done profile id raw s good own =
      rw (good, serve, handle_delete_work_experience)
        (rw (delete_work_experience-half c profile s id)
          (rw own (refl, (refl, rows_of-without id s.bullets.rows))))
