-- ===== src/Text/Split.antt =====
-- Fields between colons, and that a text without a colon is a field of its own in a concatenation.
use agent_os_langgraph.Prelude.{
  ℕ, ◌≡◌, refl, Bool, true, not, List, [], ◌∷◌, ◌++◌, arith, ◌==◌, all, if◌then◌else◌, Option, none,
  some,
}
use agent_os_langgraph.Text.{Str}

abbrev pub colon : ℕ
colon = 58

abbrev pub not_colon : ℕ → Bool
not_colon c = not (c == colon)

push : ℕ → List Str → List Str
push c [] = (c ∷ []) ∷ []
push c (w ∷ ws) = (c ∷ w) ∷ ws

-- `s.split(":")`
unfoldable pub split_colon : Str → List Str
unfolding push
split_colon [] = [] ∷ []
split_colon (c ∷ s) = let rest = split_colon s in if c == colon then [] ∷ rest else push c rest

-- `s.split(":", 1)[1]`; `none` is the `IndexError`.
unfoldable pub after_colon : Str → Option Str
after_colon [] = none
after_colon (c ∷ s) = if c == colon then some s else after_colon s

pub split_colon-append :
    (xs ys : Str) → all not_colon xs ≡ true → split_colon (xs ++ colon ∷ ys) ≡ xs ∷ split_colon ys
unfolding split_colon
split_colon-append [] ys h = refl
split_colon-append (x ∷ xs) ys h = ground (arith, split_colon-append xs ys)

pub split_colon-all : (xs : Str) → all not_colon xs ≡ true → split_colon xs ≡ xs ∷ []
unfolding split_colon
split_colon-all [] h = refl
split_colon-all (x ∷ xs) h = ground (arith, split_colon-all xs)
