-- ===== src/Tailoring/Ids.antt =====
-- Bullet ids: what is written is read back.
use jobs_scraper.Prelude.{
  ℕ, ◌≤◌, ◌≡◌, ◌≢◌, refl, false, some, [], ◌∷◌, ◌++◌, All, All-append, All-imp, arith,
}
use jobs_scraper.Prelude.Int.{pos}
use jobs_scraper.Prelude.Keys.{nat_eq, member}
use jobs_scraper.Prelude.Text.{
  Text, codes, is_space, trim_space, trim, trim_by-clean, cut, atoi, itoa, IsDigit, itoa-IsDigit,
  itoa-ne-nil, atoi-itoa, max_int,
}
use jobs_scraper.Tailoring.{bullet_id, index_of_digits, parse_index, parse_source_id}

-- Digits, capitals and the full stop lie here; spaces and brackets do not.
abbrev IsPlain : ℕ → Type 0
IsPlain c = (46 ≤ c) × (c ≤ 90)

plain_space : (c : ℕ) → IsPlain c → is_space c ≡ false
plain_space c h = ground arith

plain_bracket : (c : ℕ) → IsPlain c → member c (codes "[]") ≡ false
plain_bracket c h = ground arith

trim-plain : (s : Text) → All IsPlain s → trim (trim_space s) (codes "[]") ≡ s
trim-plain s h =
    rw (trim_by-clean is_space s (All-imp IsPlain _ plain_space s h))
      (trim_by-clean (λ c. member c (codes "[]")) s (All-imp IsPlain _ plain_bracket s h))

cut-append : (s rest : Text) (x : ℕ) → All (λ c. c ≢ x) s → cut (s ++ x ∷ rest) x ≡ (s, some rest)
cut-append [] rest x h = ground arith
cut-append (c ∷ s) rest x h = ground (arith, cut-append s rest x h.1)

digits_of : (s : Text) (n : ℕ) → s ≢ [] → atoi s ≡ some (pos n) → index_of_digits (some s) ≡ some n
digits_of [] n h e = absurd (h refl)
digits_of (c ∷ s) n h e = rw e refl

parse_index-itoa : (c n : ℕ) → n ≤ max_int → parse_index (c ∷ itoa n) (c ∷ []) ≡ some n
unfolding parse_index
parse_index-itoa c n h =
    let e = digits_of (itoa n) n (itoa-ne-nil n) (atoi-itoa n h) in ground (arith, e)

-- An id that the program writes for a bullet is read back as its section and its number, whatever
-- capital letter marks the section, as long as both numbers fit an int.
pub parse_source_id-bullet_id :
    (c i j : ℕ)
    → b'A' ≤ c
    → c ≤ b'Z'
    → i ≤ max_int
    → j ≤ max_int
    → parse_source_id (bullet_id (c ∷ []) i j) (c ∷ []) ≡ some (i, pos j)
unfolding parse_source_id bullet_id
parse_source_id-bullet_id c i j h k fi fj =
    let digits : (n : ℕ) → All IsPlain (itoa n) =
      λ n. All-imp IsDigit IsPlain (λ d p. omega arith) (itoa n) (itoa-IsDigit n) in
    let tail : All IsPlain (codes ".B" ++ itoa j) = (omega arith, (omega arith, digits j)) in
    let plain : All IsPlain (c ∷ (itoa i ++ (codes ".B" ++ itoa j))) =
      (omega arith, All-append IsPlain (itoa i) (codes ".B" ++ itoa j) (digits i) tail) in
    let no_stop : All (λ d. d ≢ b'.') (c ∷ itoa i) =
      (omega arith, All-imp IsDigit _ (λ d p. omega arith) (itoa i) (itoa-IsDigit i)) in
    let e = cut-append (c ∷ itoa i) (b'B' ∷ itoa j) b'.' no_stop in
    rw (trim-plain _ plain, e, parse_index-itoa c i fi, parse_index-itoa b'B' j fj) refl
