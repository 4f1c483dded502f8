-- ===== src/Profiles/Served.antt =====
-- What a request does to the sections (backend/server/profiles.go), whatever its answer.
use jobs_scraper.Prelude.{ℕ, inl, inr, Option, none, some, Option-cases, List, [], ◌∷◌}
use jobs_scraper.Server.{Response, path_id}
use jobs_scraper.Profiles.{Columns, Sections}
use jobs_scraper.Profiles.Store.{Run}
use jobs_scraper.Profiles.Handlers.{
  with_body, handle_add_education, handle_update_education, handle_delete_education,
  handle_add_skill, handle_delete_skill, handle_add_work_experience, handle_update_work_experience,
  handle_delete_work_experience, handle_add_work_experience_bullet,
  handle_update_work_experience_bullet, handle_delete_work_experience_bullet, Request,
  post_education, put_education, drop_education, post_skill, drop_skill, post_work, put_work,
  drop_work, post_bullet, put_bullet, drop_bullet, serve,
}
use jobs_scraper.Profiles.Moves.{
  IsMove, still, add_education-IsMove, update_education-IsMove, delete_education-IsMove,
  add_skill-IsMove, delete_skill-IsMove, add_work_experience-IsMove, update_work_experience-IsMove,
  delete_work_experience-IsMove, add_work_experience_bullet-IsMove,
  update_work_experience_bullet-IsMove, delete_work_experience_bullet-IsMove,
}

module _ (c : Columns) (profile : ℕ) (s : Sections c) where
  with_body-IsMove :
      {A : Type 0} (o : Option A) (next : A → Response × Sections c)
      → ((a : A) → IsMove c profile s (next a).1)
      → IsMove c profile s (with_body c s o next).1
  with_body-IsMove none next h = still
  with_body-IsMove (some a) next h = h a

  pub serve-IsMove :
      (up up_too : Run) (req : Request c) → IsMove c profile s (serve c profile up up_too req s).1
  unfolding serve handle_add_education handle_update_education handle_delete_education
      handle_add_skill handle_delete_skill handle_add_work_experience handle_update_work_experience
      handle_delete_work_experience handle_add_work_experience_bullet
      handle_update_work_experience_bullet handle_delete_work_experience_bullet
  serve-IsMove up up_too (post_education body) =
      with_body-IsMove body _ (λ req. add_education-IsMove c profile s req up)
  serve-IsMove up up_too (post_skill body) =
      with_body-IsMove body _ (λ skill. add_skill-IsMove c profile s skill up)
  serve-IsMove up up_too (post_work body) =
      with_body-IsMove body _ (λ req. add_work_experience-IsMove c profile s req up)
  serve-IsMove up up_too (put_education raw body) = elim (Option-cases (path_id raw)) [
    | inl bad ↦ rw (bad, serve, handle_update_education) still
    | inr (id, good) ↦
        rw (good, serve, handle_update_education)
          (with_body-IsMove body _ (λ req. update_education-IsMove c profile s id req up))
  ]
  serve-IsMove up up_too (drop_education raw) = elim (Option-cases (path_id raw)) [
    | inl bad ↦ rw (bad, serve, handle_delete_education) still
    | inr (id, good) ↦
        rw (good, serve, handle_delete_education) (delete_education-IsMove c profile s id up)
  ]
  serve-IsMove up up_too (drop_skill raw) = elim (Option-cases (path_id raw)) [
    | inl bad ↦ rw (bad, serve, handle_delete_skill) still
    | inr (id, good) ↦ rw (good, serve, handle_delete_skill) (delete_skill-IsMove c profile s id up)
  ]
  serve-IsMove up up_too (put_work raw body) = elim (Option-cases (path_id raw)) [
    | inl bad ↦ rw (bad, serve, handle_update_work_experience) still
    | inr (id, good) ↦
        rw (good, serve, handle_update_work_experience)
          (with_body-IsMove body _ (λ req. update_work_experience-IsMove c profile s id req up))
  ]
  serve-IsMove up up_too (drop_work raw) = elim (Option-cases (path_id raw)) [
    | inl bad ↦ rw (bad, serve, handle_delete_work_experience) still
    | inr (id, good) ↦
        rw (good, serve, handle_delete_work_experience)
          (delete_work_experience-IsMove c profile s id up up_too)
  ]
  serve-IsMove up up_too (post_bullet raw body) = elim (Option-cases (path_id raw)) [
    | inl bad ↦ rw (bad, serve, handle_add_work_experience_bullet) still
    | inr (work, good) ↦
        rw (good, serve, handle_add_work_experience_bullet)
          (with_body-IsMove body _
            (λ req. add_work_experience_bullet-IsMove c profile s work req up up_too))
  ]
  serve-IsMove up up_too (put_bullet raw_work raw body) = elim (Option-cases (path_id raw_work)) [
    | inl bad ↦ rw (bad, serve, handle_update_work_experience_bullet) still
    | inr (work, good) ↦ elim (Option-cases (path_id raw)) [
      | inl bad ↦ rw (good, bad, serve, handle_update_work_experience_bullet) still
      | inr (id, right) ↦
          rw (good, right, serve, handle_update_work_experience_bullet)
            (with_body-IsMove body _
              (λ text. update_work_experience_bullet-IsMove c profile s work id text up))
    ]
  ]
  serve-IsMove up up_too (drop_bullet raw_work raw) = elim (Option-cases (path_id raw_work)) [
    | inl bad ↦ rw (bad, serve, handle_delete_work_experience_bullet) still
    | inr (work, good) ↦ elim (Option-cases (path_id raw)) [
      | inl bad ↦ rw (good, bad, serve, handle_delete_work_experience_bullet) still
      | inr (id, right) ↦
          rw (good, right, serve, handle_delete_work_experience_bullet)
            (delete_work_experience_bullet-IsMove c profile s work id up)
    ]
  ]

-- A request of a profile, and how its statements end.
pub record Call (c : Columns) : Type 0 where
  pub profile : ℕ
  pub up : Run
  pub up_too : Run
  pub request : Request c

module _ (c : Columns) where
  -- The sections after requests, the first one first.
  unfoldable pub serve_all : List (Call c) → Sections c → Sections c
  serve_all [] s = s
  serve_all (call ∷ calls) s =
      serve_all calls (serve c call.profile call.up call.up_too call.request s).1
