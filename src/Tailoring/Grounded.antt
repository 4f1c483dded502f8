-- ===== src/Tailoring/Grounded.antt =====
-- Where the bullets of a tailored section come from: from the original section, or from bullets of the
-- model's answer that name its own bullets.
use jobs_scraper.Prelude.{
  ℕ, suc, ◌+◌, ◌<◌, ◌≡◌, ◌≢◌, ◌⊎◌, refl, ap, inl, inr, false, Option, none, some, Option-cases,
  List, [], ◌∷◌, map, length, get_elem?, All, arith,
}
use jobs_scraper.Prelude.Int.{ℤ, pos, negsuc}
use jobs_scraper.Prelude.Keys.{nat_eq, member}
use jobs_scraper.Prelude.Text.{Text, trim_space}
use jobs_scraper.Tailoring.{
  TailoredBullet, TailoredSection, SectionBullets, bullet_id, parse_source_id, fresh_section,
  own_bullet, push_bullet, kept_bullets, bullets_at, sections_from, original_from, original_bullets,
  or_original,
}

-- A value of the list.
abbrev pub Stands : {A : Type 0} → A → List A → Type 0
Stands a [] = ⊥
Stands a (x ∷ xs) = (x ≡ a) ⊎ Stands a xs

All-of {κ} : {A : Type 0} (P : A → Type κ) (xs : List A) → ((a : A) → Stands a xs → P a) → All P xs
All-of P [] f = tt
All-of P (x ∷ xs) f = (f x (inl refl), All-of P xs (λ a h. f a (inr h)))

-- A bullet of a section of the answer, where the section's id names the section `index`.
abbrev pub IsAnswered : Text → List TailoredSection → ℕ → TailoredBullet → Type 0
IsAnswered prefix answer index b =
    (s : TailoredSection) × Stands s answer
    × Stands b s.bullets
    × (parse_source_id s.source prefix ≡ some (index, negsuc 0))

-- A bullet with the trimmed wording of one of the answer's bullets for this section, whose id names
-- this section and one of its `count` bullets.
abbrev pub IsReworded : Text → List TailoredSection → ℕ → ℕ → TailoredBullet → Type 0
IsReworded prefix answer index count t =
    (b : TailoredBullet) × (j : ℕ) × IsAnswered prefix answer index b
    × (parse_source_id b.source prefix ≡ some (index, pos j))
    × (j < count)
    × (trim_space b.text ≡ t.text)
    × (t.text ≢ [])
    × (t.source ≡ bullet_id prefix index j)

-- A bullet of the section itself, under its own id.
abbrev pub IsOriginal : Text → ℕ → List Text → TailoredBullet → Type 0
IsOriginal prefix index texts t =
    (j : ℕ) × (get_elem? texts j ≡ some t.text) × (t.source ≡ bullet_id prefix index j)

-- All of the section's own bullets in their order, or only reworded ones.
abbrev pub AreGrounded : Text → List TailoredSection → ℕ → List Text → List TailoredBullet → Type 0
AreGrounded prefix answer index texts bullets =
    ((map (λ t. t.text) bullets ≡ texts) × All (IsOriginal prefix index texts) bullets)
    ⊎ All (IsReworded prefix answer index (length texts)) bullets

own_bullet-own :
    (index count : ℕ) (id : Option (ℕ × ℤ)) {j : ℕ}
    → own_bullet index count id ≡ some j
    → (id ≡ some (index, pos j)) × (j < count)
own_bullet-own index count none h = absurd (ground arith)
own_bullet-own index count (some (i, negsuc n)) h = absurd (ground arith)
own_bullet-own index count (some (i, pos b)) {j} h =
    let same : i ≡ index = ground arith in
    let found : b ≡ j = ground arith in
    let lt : j < count = ground arith in (rw (same, found) refl, lt)

module _ (prefix : Text) (answer : List TailoredSection) (index count : ℕ) where
  push_bullet-IsReworded :
      (b : TailoredBullet) (text : Text) (o : Option ℕ) (kept : List TailoredBullet)
      → IsAnswered prefix answer index b
      → trim_space b.text ≡ text
      → ((j : ℕ)
          → o ≡ some j
          → (parse_source_id b.source prefix ≡ some (index, pos j)) × (j < count))
      → All (IsReworded prefix answer index count) kept
      → All (IsReworded prefix answer index count) (push_bullet prefix index text o kept)
  push_bullet-IsReworded b text none kept from same f h = h
  push_bullet-IsReworded b [] (some j) kept from same f h = h
  push_bullet-IsReworded b (c ∷ text) (some j) kept from same f h =
      ((b, j, from, (f j refl).0, (f j refl).1, same, (λ e. ground arith), refl), h)

  kept_bullets-IsReworded :
      (bullets : List TailoredBullet)
      → All (IsAnswered prefix answer index) bullets
      → All (IsReworded prefix answer index count) (kept_bullets prefix index count bullets)
  unfolding kept_bullets
  kept_bullets-IsReworded [] from = tt
  kept_bullets-IsReworded (b ∷ bullets) from =
      push_bullet-IsReworded b (trim_space b.text) _ _ from.0 refl
        (λ j e. own_bullet-own index count (parse_source_id b.source prefix) e)
        (kept_bullets-IsReworded bullets from.1)

original_from-IsOriginal :
    (prefix : Text) (index : ℕ) (texts : List Text) (j : ℕ) (rest : List Text)
    → ((k m : ℕ) → m ≡ j + k → get_elem? texts m ≡ get_elem? rest k)
    → All (IsOriginal prefix index texts) (original_from prefix index j rest)
unfolding original_from
original_from-IsOriginal prefix index texts j [] at' = tt
original_from-IsOriginal prefix index texts j (b ∷ rest) at' = (
  (j, at' 0 j (omega arith), refl),
  original_from-IsOriginal prefix index texts (suc j) rest (λ k m e. at' (suc k) m (omega arith)),
)

original_from-texts :
    (prefix : Text) (index j : ℕ) (texts : List Text)
    → map (λ t. t.text) (original_from prefix index j texts) ≡ texts
unfolding original_from
original_from-texts prefix index j [] = refl
original_from-texts prefix index j (b ∷ texts) =
    ap (λ ts. b ∷ ts) (original_from-texts prefix index (suc j) texts)

pub or_original-AreGrounded :
    (prefix : Text) (answer : List TailoredSection) (index : ℕ) (originals : List Text)
    (bullets : List TailoredBullet)
    → All (IsReworded prefix answer index (length originals)) bullets
    → AreGrounded prefix answer index originals (or_original prefix index originals bullets)
unfolding original_bullets
or_original-AreGrounded prefix answer index originals [] h = inl (
  original_from-texts prefix index 0 originals,
  original_from-IsOriginal prefix index originals 0 originals
      (λ k m e. let same : m ≡ k = omega arith in rw same refl),
)
or_original-AreGrounded prefix answer index originals (b ∷ bullets) h = inr h

length-original_from :
    (prefix : Text) (index j : ℕ) (bullets : List Text)
    → length (original_from prefix index j bullets) ≡ length bullets
unfolding original_from
length-original_from prefix index j [] = refl
length-original_from prefix index j (b ∷ bullets) =
    omega (arith, length-original_from prefix index (suc j) bullets)

pub or_original-not_emptied :
    (prefix : Text) (index : ℕ) (originals : List Text) (bullets : List TailoredBullet)
    → length (or_original prefix index originals bullets) ≡ 0
    → length originals ≡ 0
unfolding original_bullets
or_original-not_emptied prefix index originals [] h =
    omega (arith, length-original_from prefix index 0 originals)
or_original-not_emptied prefix index originals (b ∷ bullets) h = absurd (omega arith)

pub fresh_section-new :
    (sections : ℕ) (seen : List ℕ) (id : Option (ℕ × ℤ)) {i : ℕ}
    → fresh_section sections seen id ≡ some i
    → (i < sections) × (member i seen ≡ false)
fresh_section-new sections seen none h = absurd (ground arith)
fresh_section-new sections seen (some (j, b)) h = ground arith

fresh_section-own :
    (sections : ℕ) (seen : List ℕ) (id : Option (ℕ × ℤ)) {i : ℕ}
    → fresh_section sections seen id ≡ some i
    → id ≡ some (i, negsuc 0)
fresh_section-own sections seen none h = absurd (ground arith)
fresh_section-own sections seen (some (j, pos b)) h = absurd (ground arith)
fresh_section-own sections seen (some (j, negsuc n)) {i} h =
    let same : j ≡ i = ground arith in let whole : n ≡ 0 = ground arith in rw (same, whole) refl

-- What the accepted sections promise.
abbrev pub IsOwn : Text → List TailoredSection → List (List Text) → SectionBullets → Type 0
IsOwn prefix answer originals s =
    (s.index < length originals)
    × All (IsReworded prefix answer s.index (length (bullets_at originals s.index))) s.bullets

sections_from-IsOwn :
    (prefix : Text) (answer : List TailoredSection) (originals : List (List Text))
    (sections : List TailoredSection) (seen : List ℕ)
    → All (λ s. Stands s answer) sections
    → All (IsOwn prefix answer originals) (sections_from prefix originals sections seen)
unfolding sections_from
sections_from-IsOwn prefix answer originals [] seen stand = tt
sections_from-IsOwn prefix answer originals (s ∷ sections) seen stand =
    let id = parse_source_id s.source prefix in
    elim (Option-cases (fresh_section (length originals) seen id)) [
      | inl e ↦
          rw (e, sections_from) (sections_from-IsOwn prefix answer originals sections seen stand.1)
      | inr (i, e) ↦
          rw (e, sections_from)
            (
              (
                (fresh_section-new (length originals) seen id e).0,
                kept_bullets-IsReworded prefix answer i (length (bullets_at originals i)) s.bullets
                    (All-of (IsAnswered prefix answer i) s.bullets
                      (λ b h. (s, stand.0, h, fresh_section-own (length originals) seen id e))),
              ),
              sections_from-IsOwn prefix answer originals sections (i ∷ seen) stand.1,
            )
    ]

pub all_sections-IsOwn :
    (prefix : Text) (originals : List (List Text)) (answer : List TailoredSection)
    → All (IsOwn prefix answer originals) (sections_from prefix originals answer [])
all_sections-IsOwn prefix originals answer =
    sections_from-IsOwn prefix answer originals answer [] (All-of _ answer (λ s h. h))
