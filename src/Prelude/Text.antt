-- ===== src/Prelude/Text.antt =====
-- Go strings as lists of code points, and the functions of `strings`, `unicode` and `strconv` that
-- the program calls. Below 128 the case tables are written out; above it they are a parameter.
mod Decimal
unfoldable pub use Decimal.*
use Prim.Native.Nat.{ℕ, zero, suc, ◌+◌, ◌-◌, ◌≤◌, ◌<◌}
use Prim.Native.Char.{code}
use Prim.Native.String.{String}
use mathlib.Core.Path.{◌≡◌, refl}
use mathlib.Core.Logic.{◌≢◌}
use mathlib.Core.Bool.{Bool, true, false, ◌&&◌, ◌||◌}
use mathlib.Core.Option.{Option, none, some}
use mathlib.Core.List.{List, [], ◌∷◌, ◌++◌, map}
use native.Mathlib.Omega.{arith}
use jobs_scraper.Prelude.Tests.{ltb, leb, ◌==◌, if◌then◌else◌}
use jobs_scraper.Prelude.Lists.{All}
use jobs_scraper.Prelude.Keys.{list_beq, member, nat_eq}

abbrev pub Text : Type 0
Text = List ℕ

-- The code points of a literal.
abbrev pub codes : String → Text
codes String.[] = []
codes (String.◌∷◌ c s) = code c ∷ codes s

-- The simple case mappings of package `unicode` outside ASCII.
pub record Unicode : Type 0 where
  pub lower : ℕ → ℕ
  pub upper : ℕ → ℕ
  pub fold : ℕ → ℕ

abbrev pub ascii_lower : ℕ → ℕ
ascii_lower c = if leb b'A' c && leb c b'Z' then c + 32 else c

abbrev pub ascii_upper : ℕ → ℕ
ascii_upper c = if leb b'a' c && leb c b'z' then c - 32 else c

-- `strings.ToLower`
abbrev pub to_lower : Unicode → Text → Text
to_lower u = map (λ c. if ltb c 128 then ascii_lower c else u.lower c)

-- `strings.ToUpper`
abbrev pub to_upper : Unicode → Text → Text
to_upper u = map (λ c. if ltb c 128 then ascii_upper c else u.upper c)

-- A text with each character folded to one representative of its case orbit.
abbrev pub folded : Unicode → Text → Text
folded u = map (λ c. if ltb c 128 then ascii_lower c else u.fold c)

-- `strings.EqualFold`
abbrev pub equal_fold : Unicode → Text → Text → Bool
equal_fold u s t = list_beq (folded u s) (folded u t)

-- `unicode.IsSpace`
abbrev pub is_space : ℕ → Bool
is_space c =
    (leb 9 c && leb c 13)
    || ((c == 32 || (c == 0x85 || c == 0xa0))
        || (c == 0x1680
            || ((leb 0x2000 c && leb c 0x200a)
                || ((c == 0x2028 || c == 0x2029)
                    || (c == 0x202f || (c == 0x205f || c == 0x3000))))))

abbrev pub trim_left_by : (ℕ → Bool) → Text → Text
trim_left_by p [] = []
trim_left_by p (c ∷ s) = let rest = trim_left_by p s in if p c then rest else c ∷ s

-- Puts a character in front of a text already trimmed on the right.
abbrev pub push_kept : (ℕ → Bool) → ℕ → Text → Text
push_kept p c [] = if p c then [] else c ∷ []
push_kept p c (d ∷ s) = c ∷ d ∷ s

abbrev pub trim_right_by : (ℕ → Bool) → Text → Text
trim_right_by p [] = []
trim_right_by p (c ∷ s) = push_kept p c (trim_right_by p s)

-- `strings.TrimSpace`
abbrev pub trim_space : Text → Text
trim_space s = trim_right_by is_space (trim_left_by is_space s)

-- `strings.Trim(s, cutset)`
abbrev pub trim : Text → Text → Text
trim s cutset = trim_right_by (λ c. member c cutset) (trim_left_by (λ c. member c cutset) s)

-- `strings.CutPrefix`, `none` where the prefix is not there.
abbrev pub cut_prefix : Text → Text → Option Text
cut_prefix s [] = some s
cut_prefix [] (d ∷ ds) = none
cut_prefix (c ∷ s) (d ∷ ds) = let rest = cut_prefix s ds in if c == d then rest else none

abbrev pub is_some {ℓ} : {A : Type ℓ} → Option A → Bool
is_some none = false
is_some (some a) = true

-- `strings.HasPrefix`
abbrev pub has_prefix : Text → Text → Bool
has_prefix s p = is_some (cut_prefix s p)

-- `strings.Contains`
abbrev pub contains : Text → Text → Bool
contains [] p = list_beq [] p
contains (c ∷ s) p = has_prefix (c ∷ s) p || contains s p

-- `strings.TrimSuffix(s, x)` at a text of one character.
abbrev pub trim_suffix : Text → ℕ → Text
trim_suffix [] x = []
trim_suffix (c ∷ []) x = if c == x then [] else c ∷ []
trim_suffix (c ∷ d ∷ s) x = c ∷ trim_suffix (d ∷ s) x

-- `strings.HasSuffix(s, x)` at a text of one character.
abbrev pub ends_with : Text → ℕ → Bool
ends_with [] x = false
ends_with (c ∷ []) x = c == x
ends_with (c ∷ d ∷ s) x = ends_with (d ∷ s) x

-- `strings.Cut(s, sep)` at a separator of one character; `none` where it is not found.
abbrev pub cut : Text → ℕ → Text × Option Text
cut [] x = ([], none)
cut (c ∷ s) x = if c == x then ([], some s) else (c ∷ (cut s x).0, (cut s x).1)

abbrev pub push_head : ℕ → List Text → List Text
push_head c [] = (c ∷ []) ∷ []
push_head c (p ∷ ps) = (c ∷ p) ∷ ps

-- `strings.Split(s, sep)` at a separator of one character.
abbrev pub split : Text → ℕ → List Text
split [] x = [] ∷ []
split (c ∷ s) x = if c == x then [] ∷ split s x else push_head c (split s x)

-- `strings.Join`
abbrev pub join : List Text → Text → Text
join [] sep = []
join (p ∷ []) sep = p
join (p ∷ q ∷ ps) sep = p ++ (sep ++ join (q ∷ ps) sep)

-- The bytes of a code point in UTF-8.
abbrev pub rune_len : ℕ → ℕ
rune_len c = if ltb c 0x80 then 1 else if ltb c 0x800 then 2 else if ltb c 0x10000 then 3 else 4

-- `len(s)` counts bytes.
abbrev pub byte_len : Text → ℕ
byte_len [] = 0
byte_len (c ∷ s) = rune_len c + byte_len s

-- The case tables of a program that meets ASCII alone.
abbrev pub ascii_only : Unicode
ascii_only = record { lower = λ c. c; upper = λ c. c; fold = λ c. c }

module _ (p : ℕ → Bool) where
  trim_left_by-clean : (s : Text) → All (λ c. p c ≡ false) s → trim_left_by p s ≡ s
  trim_left_by-clean [] h = refl
  trim_left_by-clean (c ∷ s) h = rw h.0

  push_kept-clean : (c : ℕ) (s : Text) → p c ≡ false → push_kept p c s ≡ c ∷ s
  push_kept-clean c [] h = rw h
  push_kept-clean c (d ∷ s) h = refl

  trim_right_by-clean : (s : Text) → All (λ c. p c ≡ false) s → trim_right_by p s ≡ s
  trim_right_by-clean [] h = refl
  trim_right_by-clean (c ∷ s) h = rw (trim_right_by-clean s h.1) (push_kept-clean c s h.0)

  pub trim_by-clean : (s : Text) → All (λ c. p c ≡ false) s → trim_right_by p (trim_left_by p s) ≡ s
  trim_by-clean s h = rw (trim_left_by-clean s h) (trim_right_by-clean s h)

pub filled : (s : Text) → list_beq s [] ≡ false → s ≢ []
filled [] h = absurd (ground arith)
filled (c ∷ s) h = λ e. ground arith
