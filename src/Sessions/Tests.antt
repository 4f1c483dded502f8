-- ===== src/Sessions/Tests.antt =====
-- Tokens of two profiles.
use jobs_scraper.Prelude.{◌≡◌, refl, true, false, [], ◌∷◌, ◌++◌, arith}
use jobs_scraper.Prelude.Keys.{nat_eq, list_eq}
use jobs_scraper.Prelude.Text.{Text, codes}
use jobs_scraper.Sessions.{
  RefreshSession, Accounts, ok, no_rows, bad_password, refresh_token_expiry, rotate_refresh_token,
  validate_password, reset_password,
}
use jobs_scraper.Sessions.Rotation.{rotate_refresh_token-once}
use jobs_scraper.Sessions.Reset.{reset_password-IsReset, IsReset}

-- A mark in front stands for a hash.
abbrev hashed : Text → Text
hashed t = codes "#" ++ t

abbrev session : RefreshSession
session = record { profile_id = 7; persistent = false; expires_at = 20 }

abbrev accounts : Accounts
accounts = record {
  refresh_tokens =
      (record { token_hash = codes "#old"; session = session })
      ∷ (record {
        token_hash = codes "#late";
        session = record { profile_id = 8; persistent = true; expires_at = 5 };
      })
      ∷ [];
  reset_tokens = (record { token_hash = codes "#lost"; profile_id = 7; expires_at = 20 }) ∷ [];
  passwords = (7, codes "#secret") ∷ [];
}

late : (rotate_refresh_token hashed (codes "late") (codes "new") 10 accounts).0 ≡ no_rows
unfolding rotate_refresh_token
late = refl

exchanged :
    (rotate_refresh_token hashed (codes "old") (codes "new") 10 accounts).0
    ≡ ok (record { profile_id = 7; persistent = false; expires_at = refresh_token_expiry 10 false })
unfolding rotate_refresh_token
exchanged = refl

short_password :
    (reset_password hashed hashed (codes "lost") (codes "short") 10 accounts).0 ≡ bad_password
unfolding reset_password validate_password
short_password = refl

reset_done :
    (reset_password hashed hashed (codes "lost") (codes "long enough") 10 accounts).0 ≡ ok 7
unfolding reset_password validate_password
reset_done = refl

rotate_refresh_token-once_example :
    (rotate_refresh_token hashed
      (codes "old")
      (codes "newer")
      11
      (rotate_refresh_token hashed (codes "old") (codes "new") 10 accounts).1).0
    ≡ no_rows
rotate_refresh_token-once_example =
    rotate_refresh_token-once hashed (codes "old") (codes "new") (codes "newer") 10 11 accounts
      (record { profile_id = 7; persistent = false; expires_at = refresh_token_expiry 10 false })
      exchanged (λ e. ground arith) (omega arith)

reset_password-IsReset_example :
    IsReset
      (hashed (codes "lost"))
      7
      (hashed (codes "long enough"))
      12
      (codes "long enough")
      (reset_password hashed hashed (codes "lost") (codes "long enough") 10 accounts).1
reset_password-IsReset_example =
    reset_password-IsReset hashed hashed (codes "lost") (codes "long enough") 10 12 accounts 7
      reset_done (omega arith)
