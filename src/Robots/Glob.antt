-- ===== src/Robots/Glob.antt =====
-- The regular expression of a rule against the robots.txt pattern that it is made from.
use jobs_scraper.Prelude.{
  ℕ, ◌≡◌, ◌≢◌, ◌∙◌, ◌↔◌, refl, sym, ap, append-nil, inl, inr, Bool, true, false, Bool-cases, some,
  List, [], ◌∷◌, ◌++◌, ◌==◌ as nat_beq, if◌then◌else◌, arith,
}
use jobs_scraper.Prelude.Regexp.{
  Item, literal, any, backslash, is_special, quote_meta, with_item, read_items, must_compile,
  matches, match_string, not_special,
}
use jobs_scraper.Prelude.Text.{Text, trim_suffix, ends_with}
use jobs_scraper.Robots.{replace_stars, new_robots_rule}

-- A dollar sign at the end of a pattern.
abbrev pub is_end : ℕ → Text → Bool
is_end c [] = nat_beq c b'$'
is_end c (d ∷ p) = false

-- The paths that a pattern of robots.txt stands for: its characters stand for themselves, a star for
-- any run without a line feed, and the rest of the path is free unless the pattern ends with `$`.
pub data FitsPath : Text → Text → Type 0 where
  free : {s : Text} → FitsPath [] s
  end : {c : ℕ} → c ≡ b'$' → FitsPath (c ∷ []) []
  same :
      {c d : ℕ} {p s : Text}
      → c ≢ b'*'
      → is_end c p ≡ false
      → c ≡ d
      → FitsPath p s
      → FitsPath (c ∷ p) (d ∷ s)
  none_more : {c : ℕ} {p s : Text} → c ≡ b'*' → FitsPath p s → FitsPath (c ∷ p) s
  one_more :
      {c d : ℕ} {p s : Text} → c ≡ b'*' → d ≢ b'\n' → FitsPath (c ∷ p) s → FitsPath (c ∷ p) (d ∷ s)

abbrev item : ℕ → Item
item c = if nat_beq c b'*' then any else literal c

abbrev items : Text → List Item
items [] = []
items (c ∷ s) = item c ∷ items s

-- The pattern after `QuoteMeta` and `ReplaceAll`.
abbrev spelled : Text → Text
spelled [] = []
spelled (c ∷ s) =
    if nat_beq c b'*'
    then b'.' ∷ b'*' ∷ spelled s
    else if is_special c
    then backslash ∷ c ∷ spelled s
    else c ∷ spelled s

star_is_special : is_special b'*' ≡ true
unfolding is_special
star_is_special = refl

end_is_special : (is_special b'$' ≡ true) × (is_special backslash ≡ true) × (is_special b'.' ≡ true)
unfolding is_special
end_is_special = (refl, refl, refl)

-- No quoted text starts with a star.
replace_stars-cons :
    (c : ℕ) (s : Text) → replace_stars (c ∷ quote_meta s) ≡ c ∷ replace_stars (quote_meta s)
unfolding replace_stars quote_meta
replace_stars-cons c [] = refl
replace_stars-cons c (d ∷ s) = elim (Bool-cases (is_special d)) [
  | inl special ↦ rw special (ground arith)
  | inr plain ↦
      let other : nat_beq d b'*' ≡ false = not_special d b'*' star_is_special plain in
      rw plain (ground arith)
]

replace_stars-quote_meta : (s : Text) → replace_stars (quote_meta s) ≡ spelled s
unfolding replace_stars quote_meta
replace_stars-quote_meta [] = refl
replace_stars-quote_meta (c ∷ s) = elim (Bool-cases (nat_beq c b'*')) [
  | inl star ↦
      let e : c ≡ b'*' = ground arith in
      rw (e, star_is_special) (ap (λ t. b'.' ∷ b'*' ∷ t) (replace_stars-quote_meta s))
  | inr other ↦
      let rest = replace_stars-cons c s ∙ ap (λ t. c ∷ t) (replace_stars-quote_meta s) in
      elim (Bool-cases (is_special c)) [
        | inl special ↦ rw (other, special, other) (ap (λ t. backslash ∷ t) rest)
        | inr plain ↦ rw (other, plain) rest
      ]
]

read_items-plain :
    (c : ℕ) (s : Text)
    → is_special c ≡ false
    → read_items (c ∷ s) ≡ with_item (literal c) (read_items s)
unfolding read_items
read_items-plain c [] plain = rw (not_special c b'$' end_is_special.0 plain, plain) refl
read_items-plain c (d ∷ s) plain =
    rw
      (
        not_special c backslash end_is_special.1 plain,
        not_special c b'.' end_is_special.2 plain,
        plain,
      )
      refl

abbrev end_mark : Bool → Text
end_mark true = b'$' ∷ []
end_mark false = []

read_items-spelled :
    (s : Text) (anchored : Bool)
    → read_items (spelled s ++ end_mark anchored) ≡ some (items s, anchored)
unfolding read_items
read_items-spelled [] true = refl
read_items-spelled [] false = refl
read_items-spelled (c ∷ s) anchored = elim (Bool-cases (nat_beq c b'*')) [
  | inl star ↦ rw (star, read_items-spelled s anchored) refl
  | inr other ↦ elim (Bool-cases (is_special c)) [
    | inl special ↦ rw (other, special, special, read_items-spelled s anchored) refl
    | inr plain ↦
        rw (other, plain)
          (read_items-plain c (spelled s ++ end_mark anchored) plain
            ∙ ap (λ r. with_item (literal c) r) (read_items-spelled s anchored))
  ]
]

-- What the rule's regular expression says of a path, item by item.
abbrev hits : Text → Text → Bool
hits path s = matches (items (trim_suffix path b'$')) (ends_with path b'$') s

match_string-rule :
    (allow : Bool) (path s : Text)
    → match_string (new_robots_rule allow path).pattern s ≡ hits path s
unfolding match_string must_compile new_robots_rule
match_string-rule allow path s = by_end (ends_with path b'$')
  where
    by_end :
        (anchored : Bool)
        → match_string
            (if anchored
              then b'^' ∷ replace_stars (quote_meta (trim_suffix path b'$')) ++ b'$' ∷ []
              else b'^' ∷ replace_stars (quote_meta (trim_suffix path b'$')))
            s
          ≡ matches (items (trim_suffix path b'$')) anchored s
    by_end true =
        rw
          (
            replace_stars-quote_meta (trim_suffix path b'$'),
            read_items-spelled (trim_suffix path b'$') true,
          )
          refl
    by_end false =
        rw
          (
            replace_stars-quote_meta (trim_suffix path b'$'),
            sym (append-nil (spelled (trim_suffix path b'$'))),
            read_items-spelled (trim_suffix path b'$') false,
          )
          refl

hits-cons :
    (c : ℕ) (p s : Text)
    → is_end c p ≡ false
    → hits (c ∷ p) s ≡ matches (item c ∷ items (trim_suffix p b'$')) (ends_with p b'$') s
hits-cons c [] s h = rw h refl
hits-cons c (d ∷ p) s h = refl

star_not_end : (c : ℕ) (p : Text) → c ≡ b'*' → is_end c p ≡ false
star_not_end c [] e = rw e refl
star_not_end c (d ∷ p) e = refl

end-FitsPath : (c : ℕ) (p s : Text) → is_end c p ≡ true → hits (c ∷ p) s ≡ true → FitsPath (c ∷ p) s
unfolding matches
end-FitsPath c [] [] h m = end (ground arith)
end-FitsPath c [] (d ∷ s) h m = absurd (ground arith)
end-FitsPath c (e ∷ p) s h m = absurd (ground arith)

star-FitsPath :
    (c : ℕ) (p : Text)
    → c ≡ b'*'
    → ((s : Text) → hits p s ≡ true → FitsPath p s)
    → (s : Text) → matches (any ∷ items (trim_suffix p b'$')) (ends_with p b'$') s ≡ true
    → FitsPath (c ∷ p) s
unfolding matches
star-FitsPath c p star after [] h = none_more star (after [] h)
star-FitsPath c p star after (d ∷ s) h = elim (Bool-cases (hits p (d ∷ s))) [
  | inl stop ↦ none_more star (after (d ∷ s) stop)
  | inr on ↦ one_more star (ground arith) (star-FitsPath c p star after s (ground arith))
]

char-FitsPath :
    (c : ℕ) (p s : Text)
    → c ≢ b'*'
    → is_end c p ≡ false
    → ((t : Text) → hits p t ≡ true → FitsPath p t)
    → matches (literal c ∷ items (trim_suffix p b'$')) (ends_with p b'$') s ≡ true
    → FitsPath (c ∷ p) s
unfolding matches
char-FitsPath c p [] plain more after h = absurd (ground arith)
char-FitsPath c p (d ∷ s) plain more after h =
    same plain more (ground arith) (after s (ground arith))

hits→FitsPath : (path s : Text) → hits path s ≡ true → FitsPath path s
hits→FitsPath [] s h = free
hits→FitsPath (c ∷ p) s h = elim (Bool-cases (is_end c p)) [
  | inl last ↦ end-FitsPath c p s last h
  | inr more ↦ elim (Bool-cases (nat_beq c b'*')) [
    | inl star ↦
        star-FitsPath c p (ground arith) (λ t. hits→FitsPath p t) s
          (sym (rw star at (hits-cons c p s more)) ∙ h)
    | inr plain ↦
        char-FitsPath c p s (λ e. ground arith) more (λ t. hits→FitsPath p t)
          (sym (rw plain at (hits-cons c p s more)) ∙ h)
  ]
]

FitsPath→hits : {path s : Text} → FitsPath path s → hits path s ≡ true
unfolding matches
FitsPath→hits {s = s} free = refl
FitsPath→hits (end e) = rw e refl
FitsPath→hits {path = c ∷ p} {s = d ∷ s} (same plain more e f) =
    let other : nat_beq c b'*' ≡ false = ground arith in
    hits-cons c p (d ∷ s) more ∙ rw other (ground (arith, FitsPath→hits f))
FitsPath→hits {path = c ∷ p} {s = []} (none_more star f) =
    hits-cons c p [] (star_not_end c p star) ∙ rw star (FitsPath→hits f)
FitsPath→hits {path = c ∷ p} {s = d ∷ s} (none_more star f) =
    hits-cons c p (d ∷ s) (star_not_end c p star) ∙ rw star (ground (arith, FitsPath→hits f))
FitsPath→hits {path = c ∷ p} {s = d ∷ s} (one_more star line f) =
    let later = sym (hits-cons c p s (star_not_end c p star)) ∙ FitsPath→hits f in
    hits-cons c p (d ∷ s) (star_not_end c p star) ∙ rw star (ground (arith, rw star at later))

-- The regular expression that is built from a rule's path matches exactly the paths that fit it:
-- its characters stand for themselves, also those that are special in a regular expression, a star
-- for any run without a line feed, and the rest of the path is free unless the rule ends with `$`.
pub new_robots_rule-FitsPath :
    (allow : Bool) (path s : Text)
    → (match_string (new_robots_rule allow path).pattern s ≡ true) ↔ FitsPath path s
new_robots_rule-FitsPath allow path s = (
  λ h. hits→FitsPath path s (sym (match_string-rule allow path s) ∙ h),
  λ f. match_string-rule allow path s ∙ FitsPath→hits f,
)
