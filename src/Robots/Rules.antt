-- ===== src/Robots/Rules.antt =====
-- The precedence of the rules: the loop of `allowed` against the longest match of each kind.
use jobs_scraper.Prelude.{
  ℕ, zero, suc, max, ◌≡◌, ◌∙◌, refl, inl, inr, Bool, Bool-cases, true, false, ◌&&◌, ◌||◌, List, [],
  ◌∷◌, leb, if◌then◌else◌, arith,
}
use jobs_scraper.Prelude.Int.{ℤ, pos, negsuc, ltb_ℤ, eqb_ℤ}
use jobs_scraper.Prelude.Regexp.{match_string}
use jobs_scraper.Prelude.Text.{Text}
use jobs_scraper.Robots.{RobotsRule, Robots, verdict, allowed}

abbrev same_kind : Bool → Bool → Bool
same_kind true b = b
same_kind false true = false
same_kind false false = true

-- One more than the length of the longest rule of the kind that matches the path, 0 if none does.
pub longest : Bool → List RobotsRule → Text → ℕ
longest kind [] path = 0
longest kind (r ∷ rules) path =
    let rest = longest kind rules path in
    if same_kind kind r.allow && match_string r.pattern path then max (suc r.length) rest else rest

-- The loop's variables say what the longest matches among the rules so far are.
abbrev best_of : ℕ → ℤ
best_of zero = negsuc 0
best_of (suc n) = pos n

abbrev takes : ℤ → RobotsRule → Bool
takes best r = ltb_ℤ best (pos r.length) || (eqb_ℤ (pos r.length) best && r.allow)

-- The loop after one more rule that matches.
step_best :
    (r : RobotsRule) (n m d g : ℕ)
    → n ≡ max d g
    → m
      ≡ max
          (if r.allow then d else max d (suc r.length))
          (if r.allow then max g (suc r.length) else g)
    → (if takes (best_of n) r then pos r.length else best_of n) ≡ best_of m
step_best r zero zero d g e f = ground arith
step_best r zero (suc m) d g e f = ground arith
step_best r (suc n) zero d g e f = ground arith
step_best r (suc n) (suc m) d g e f = ground arith

step_allow :
    (r : RobotsRule) (n d g : ℕ)
    → n ≡ max d g
    → (if takes (best_of n) r then r.allow else leb d g)
      ≡ leb
          (if r.allow then d else max d (suc r.length))
          (if r.allow then max g (suc r.length) else g)
step_allow r zero d g e = ground arith
step_allow r (suc n) d g e = ground arith

verdict-longest :
    (rules : List RobotsRule) (path : Text) (n d g : ℕ)
    → n ≡ max d g
    → verdict rules path (best_of n) (leb d g)
      ≡ leb (max d (longest false rules path)) (max g (longest true rules path))
unfolding verdict longest
verdict-longest [] path n d g e = ground arith
verdict-longest (r ∷ rules) path n d g e = elim (Bool-cases (match_string r.pattern path)) [
  | inl hit ↦
      let d' = if r.allow then d else max d (suc r.length) in
      let g' = if r.allow then max g (suc r.length) else g in
      rw (hit, step_best r n (max d' g') d g e refl, step_allow r n d g e)
        (verdict-longest rules path (max d' g') d' g' refl ∙ ground arith)
  | inr miss ↦ rw miss (verdict-longest rules path n d g e ∙ ground arith)
]

-- A path may be fetched exactly where the longest rule that forbids it is no longer than the longest
-- rule that allows it: the longest match wins, ties go to the rule that allows, and a path that no
-- rule matches may be fetched.
pub allowed-longest :
    (r : Robots) (path : Text)
    → allowed r path ≡ leb (longest false r.rules path) (longest true r.rules path)
unfolding allowed
allowed-longest r path = verdict-longest r.rules path 0 0 0 (omega arith) ∙ ground arith
