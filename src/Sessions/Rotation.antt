-- ===== src/Sessions/Rotation.antt =====
-- A refresh token is good for one rotation.
use jobs_scraper.Prelude.{
  ◌≤◌, ◌≡◌, ◌≢◌, ◌∙◌, refl, sym, inl, inr, Bool-cases, not, none, Option-cases, List, [], ◌∷◌, ◌++◌,
  keep, arith,
}
use jobs_scraper.Prelude.Keys.{nat_eq, list_eq, list_beq_iff, member}
use jobs_scraper.Prelude.Text.{Text}
use jobs_scraper.Jobs.{Time}
use jobs_scraper.Sessions.{
  RefreshSession, RefreshRow, Accounts, ok, no_rows, conflict, hashes, is_valid_row, first_refresh,
  renewed, rotate_refresh_token,
}

-- No row that is left is valid at a later time, and the new one has another hash.
none_left :
    (old : Text) (now later : Time) (rows : List RefreshRow) (fresh : RefreshRow)
    → now ≤ later
    → old ≢ fresh.token_hash
    → first_refresh
        (is_valid_row old later)
        (keep (λ r. not (is_valid_row old now r)) rows ++ fresh ∷ [])
      ≡ none
none_left old now later [] fresh le ne = ground (arith, list_beq_iff fresh.token_hash old)
none_left old now later (row ∷ rows) fresh le ne =
    ground (arith, none_left old now later rows fresh le ne)

-- After a refresh token was exchanged for another with a different hash, it cannot be exchanged
-- again at any later time, whatever new token is offered.
pub rotate_refresh_token-once :
    (token_hash : Text → Text) (old new newer : Text) (now later : Time) (a : Accounts)
    (session : RefreshSession)
    → (rotate_refresh_token token_hash old new now a).0 ≡ ok session
    → token_hash old ≢ token_hash new
    → now ≤ later
    → (rotate_refresh_token token_hash old newer later
        (rotate_refresh_token token_hash old new now a).1).0
      ≡ no_rows
unfolding rotate_refresh_token
rotate_refresh_token-once token_hash old new newer now later a session h ne le =
    elim (Option-cases (first_refresh (is_valid_row (token_hash old) now) a.refresh_tokens)) [
      | inl missing ↦ absurd (not_ok (sym h ∙ rw (missing, rotate_refresh_token) refl))
      | inr (row, found) ↦ elim (Bool-cases (member (token_hash new) (hashes a.refresh_tokens))) [
        | inl taken ↦ absurd (conflicts (sym h ∙ rw (found, taken, rotate_refresh_token) refl))
        | inr fresh ↦
            rw (found, fresh, rotate_refresh_token)
              (rw
                (none_left (token_hash old) now later a.refresh_tokens
                  (record { token_hash = token_hash new; session = renewed token_hash now row }) le
                  ne)
                refl)
      ]
    ]
  where
    not_ok : ok session ≡ no_rows → ⊥
    not_ok e = ground arith

    conflicts : ok session ≡ conflict → ⊥
    conflicts e = ground arith
