-- ===== src/Sessions/Reset.antt =====
-- A password reset ends every session of its profile and consumes its token.
use jobs_scraper.Prelude.{
  ℕ, ◌≤◌, ◌≡◌, ◌≢◌, ◌∙◌, refl, sym, subst, inl, inr, true, Bool-cases, not, none, some,
  Option-cases, List, [], ◌∷◌, keep, All, ◌==◌ as nat_beq, arith,
}
use jobs_scraper.Prelude.Keys.{nat_eq, list_eq, lookup, lookup-insert}
use jobs_scraper.Prelude.Text.{Text, byte_len}
use jobs_scraper.Jobs.{Time}
use jobs_scraper.Sessions.{
  RefreshRow, ResetRow, Accounts, ok, no_rows, bad_password, first_reset, is_valid_reset,
  validate_password, max_password_bytes, reset_password,
}

none_valid :
    (hashed : Text) (now later : Time) (rows : List ResetRow)
    → now ≤ later
    → first_reset (is_valid_reset hashed later) (keep (λ r. not (is_valid_reset hashed now r)) rows)
      ≡ none
none_valid hashed now later [] le = refl
none_valid hashed now later (row ∷ rows) le = ground (arith, none_valid hashed now later rows le)

signed_out :
    (profile : ℕ) (rows : List RefreshRow)
    → All
        (λ r. r.session.profile_id ≢ profile)
        (keep (λ r. not (nat_beq r.session.profile_id profile)) rows)
signed_out profile [] = tt
signed_out profile (row ∷ rows) = elim (Bool-cases (nat_beq row.session.profile_id profile)) [
  | inl its ↦ rw its (signed_out profile rows)
  | inr other ↦ rw other ((λ e. ground arith), signed_out profile rows)
]

-- What a reset that succeeds leaves, for the profile, the token's hash and the time.
abbrev pub IsReset : Text → ℕ → Text → Time → Text → Accounts → Type 0
IsReset hashed profile password_hash now password a =
    ((8 ≤ byte_len password) × (byte_len password ≤ max_password_bytes))
    × (All (λ r. r.session.profile_id ≢ profile) a.refresh_tokens
        × ((first_reset (is_valid_reset hashed now) a.reset_tokens ≡ none)
            × (lookup profile a.passwords ≡ some password_hash)))

-- A password reset that succeeds for a profile took a password of 8 to 72 bytes, leaves no session
-- of that profile, leaves no valid reset token with the hash of the one used at that time or later,
-- and sets the profile's password to the hash of the new one.
pub reset_password-IsReset :
    (token_hash hash_password : Text → Text) (token password : Text) (now later : Time)
    (a : Accounts) (profile : ℕ)
    → (reset_password token_hash hash_password token password now a).0 ≡ ok profile
    → now ≤ later
    → IsReset
        (token_hash token)
        profile
        (hash_password password)
        later
        password
        (reset_password token_hash hash_password token password now a).1
unfolding reset_password validate_password
reset_password-IsReset token_hash hash_password token password now later a profile h le =
    elim (Bool-cases (validate_password password)) [
      | inr bad ↦ absurd (refused (sym h ∙ rw (bad, reset_password) refl))
      | inl good ↦
          elim (Option-cases (first_reset (is_valid_reset (token_hash token) now) a.reset_tokens)) [
            | inl missing ↦ absurd (not_found (sym h ∙ rw (good, missing, reset_password) refl))
            | inr (row, found) ↦
                let mine : ok profile ≡ ok row.profile_id =
                  sym h ∙ rw (good, found, reset_password) refl in
                let same : row.profile_id ≡ profile = ground arith in
                rw (good, found, reset_password)
                  (
                    password_fits good,
                    (
                      subst
                          (λ p.
                            All (λ r. r.session.profile_id ≢ p)
                              (keep (λ r. not (nat_beq r.session.profile_id row.profile_id))
                                a.refresh_tokens))
                          same (signed_out row.profile_id a.refresh_tokens),
                      (
                        none_valid (token_hash token) now later a.reset_tokens le,
                        lookup-insert row.profile_id profile (hash_password password) a.passwords
                            ∙ ground arith,
                      ),
                    ),
                  )
          ]
    ]
  where
    refused : ok profile ≡ bad_password → ⊥
    refused e = ground arith

    not_found : ok profile ≡ no_rows → ⊥
    not_found e = ground arith

    password_fits :
        validate_password password ≡ true
        → (8 ≤ byte_len password) × (byte_len password ≤ max_password_bytes)
    password_fits good = ground arith
