-- ===== src/Rust/Split.antt =====
-- `str::split` and `str::splitn(2, _)` at a character.
use play_cpp_sdk.Prelude.{
  ℕ, ◌≡◌, ◌≢◌, refl, List, [], ◌∷◌, ◌++◌, Option, none, some, arith, ◌==◌, if◌then◌else◌, All,
  ==_self,
}
use play_cpp_sdk.Prelude.Text.{Text}

-- No character of the text is `c`.
abbrev pub Lacks : ℕ → Text → Type 0
Lacks c = All (λ x. x ≢ c)

-- A character in front of the first piece.
abbrev cons_first : ℕ → List Text → List Text
cons_first c [] = (c ∷ []) ∷ []
cons_first c (p ∷ ps) = (c ∷ p) ∷ ps

-- The pieces between the separators: always one more than there are separators.
unfoldable pub split : ℕ → Text → List Text
split sep [] = [] ∷ []
split sep (c ∷ s) = let rest = split sep s in if c == sep then [] ∷ rest else cons_first c rest

abbrev cons_piece : ℕ → Text × Option Text → Text × Option Text
cons_piece c (p, rest) = (c ∷ p, rest)

-- `splitn(2, sep)`: what stands before the first separator, and what stands behind it, if there is
-- one.
unfoldable pub split_once : ℕ → Text → Text × Option Text
split_once sep [] = ([], none)
split_once sep (c ∷ s) =
    let rest = split_once sep s in if c == sep then ([], some s) else cons_piece c rest

pub split-append : (sep : ℕ) (p q : Text) → Lacks sep p → split sep (p ++ sep ∷ q) ≡ p ∷ split sep q
unfolding split
split-append sep [] q h = ground (arith, ==_self sep)
split-append sep (c ∷ p) q (hc, hp) = ground (arith, split-append sep p q hp)

pub split-Lacks : (sep : ℕ) (p : Text) → Lacks sep p → split sep p ≡ p ∷ []
unfolding split
split-Lacks sep [] h = refl
split-Lacks sep (c ∷ p) (hc, hp) = ground (arith, split-Lacks sep p hp)

pub split_once-append :
    (sep : ℕ) (p q : Text) → Lacks sep p → split_once sep (p ++ sep ∷ q) ≡ (p, some q)
unfolding split_once
split_once-append sep [] q h = ground (arith, ==_self sep)
split_once-append sep (c ∷ p) q (hc, hp) = ground (arith, split_once-append sep p q hp)
