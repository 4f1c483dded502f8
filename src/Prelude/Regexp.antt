-- ===== src/Prelude/Regexp.antt =====
-- What the program uses of Go's `regexp`. The patterns that are read here are `^`, then plain
-- characters, quoted special ones and `.*`, and perhaps `$` at the end. Any other pattern is not read,
-- and matches nothing.
use Prim.Native.Nat.{ℕ}
use mathlib.Core.Path.{◌≡◌, subst}
use mathlib.Core.Logic.{inl, inr}
use mathlib.Core.Bool.{Bool, true, false, ◌&&◌}
use mathlib.Core.Option.{Option, none, some}
use mathlib.Core.List.{List, [], ◌∷◌}
use native.Mathlib.Omega.{arith}
use jobs_scraper.Prelude.Tests.{if◌then◌else◌, Bool-cases}
use jobs_scraper.Prelude.Keys.{◌==◌, nat_eq, member}
use jobs_scraper.Prelude.Text.{Text, codes}

abbrev pub backslash : ℕ
backslash = 92

unfoldable pub is_special : ℕ → Bool
is_special c = member c (codes "\\.+*?()|[]{}^$")

-- `regexp.QuoteMeta`
unfoldable pub quote_meta : Text → Text
quote_meta [] = []
quote_meta (c ∷ s) = if is_special c then backslash ∷ c ∷ quote_meta s else c ∷ quote_meta s

-- A character that a pattern asks for, or any run of characters.
pub data Item : Type 0 where
  literal : ℕ → Item
  any : Item

-- A pattern that starts with `^`; the flag tells whether it ends with `$`.
abbrev pub Regexp : Type 0
Regexp = List Item × Bool

abbrev pub with_item : Item → Option Regexp → Option Regexp
with_item i none = none
with_item i (some (items, anchored)) = some (i ∷ items, anchored)

unfoldable pub read_items : Text → Option Regexp
read_items [] = some ([], false)
read_items (c ∷ []) =
    if c == b'$'
    then some ([], true)
    else if is_special c
    then none
    else some (literal c ∷ [], false)
read_items (c ∷ d ∷ s) =
    let later = read_items s in
    let next = read_items (d ∷ s) in
    if c == backslash
    then if is_special d then with_item (literal d) later else none
    else if c == b'.' && d == b'*'
    then with_item any later
    else if is_special c
    then none
    else with_item (literal c) next

-- `regexp.MustCompile`
unfoldable pub must_compile : Text → Option Regexp
must_compile [] = none
must_compile (c ∷ s) = if c == b'^' then read_items s else none

-- Without the flag `s`, `.` does not match a line feed.
unfoldable pub matches : List Item → Bool → Text → Bool
matches [] false s = true
matches [] true [] = true
matches [] true (c ∷ s) = false
matches (literal c ∷ p) a [] = false
matches (literal c ∷ p) a (d ∷ s) = let rest = matches p a s in if c == d then rest else false
matches (any ∷ p) a [] = matches p a []
matches (any ∷ p) a (d ∷ s) =
    let longer = matches (any ∷ p) a s in
    let stop = matches p a (d ∷ s) in if stop then true else if d == b'\n' then false else longer

abbrev pub runs : Option Regexp → Text → Bool
runs none s = false
runs (some (items, anchored)) s = matches items anchored s

-- `pattern.MatchString(s)`
unfoldable pub match_string : Text → Text → Bool
match_string pattern s = runs (must_compile pattern) s

-- A character that is not special is none of the special ones.
pub not_special : (c x : ℕ) → is_special x ≡ true → is_special c ≡ false → (c == x) ≡ false
not_special c x h n = elim (Bool-cases (c == x)) [
  | inl same ↦
      let e : x ≡ c = ground arith in
      let clash : is_special c ≡ true = subst (λ d. is_special d ≡ true) e h in
      absurd (ground arith)
  | inr other ↦ other
]
