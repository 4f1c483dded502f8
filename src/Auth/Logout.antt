-- ===== src/Auth/Logout.antt =====
-- What ends a session.
use jobs_scraper.Prelude.{
  ◌≡◌, refl, inl, inr, true, not, Bool-cases, none, some, List, [], ◌∷◌, keep, arith,
}
use jobs_scraper.Prelude.Keys.{◌==◌, nat_eq, list_eq}
use jobs_scraper.Prelude.Text.{Text}
use jobs_scraper.Jobs.{Time}
use jobs_scraper.Sessions.{
  RefreshRow, first_refresh, is_valid_row, rotate_refresh_token, delete_refresh_token,
}
use jobs_scraper.Auth.{Vault, Site}
use jobs_scraper.Auth.Handlers.{missing_token, handle_refresh_profile, handle_logout_profile}

none_left :
    (hashed : Text) (now : Time) (rows : List RefreshRow)
    → first_refresh (is_valid_row hashed now) (keep (λ r. not (r.token_hash == hashed)) rows) ≡ none
none_left hashed now [] = refl
none_left hashed now (row ∷ rows) = ground (arith, none_left hashed now rows)

-- After a logout whose statement the database ran, the refresh token of its cookie cannot be
-- exchanged, at any time and whatever new token is made: the answer is that of a missing token, which
-- clears the cookie, and nothing changes.
pub handle_logout_profile-ends :
    (w : Vault) (token fresh : Text) (now : Time) (s : Site)
    → handle_refresh_profile w
        (some token)
        now
        fresh
        true
        (handle_logout_profile w (some token) true s).1
      ≡ (missing_token, (handle_logout_profile w (some token) true s).1)
unfolding handle_refresh_profile handle_logout_profile rotate_refresh_token delete_refresh_token
handle_logout_profile-ends w token fresh now s = elim (Bool-cases (token == [])) [
  | inl empty ↦ rw (empty, handle_refresh_profile) refl
  | inr given ↦
      rw
        (
          given, handle_refresh_profile, handle_logout_profile, rotate_refresh_token,
          delete_refresh_token,
        )
        (rw (none_left (w.token_hash token) now s.accounts.refresh_tokens) refl)
]
