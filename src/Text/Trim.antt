-- ===== src/Text/Trim.antt =====
-- `strip` on texts with no space at an end, and a text cut at the `::` behind such a text.
use agent_os_langgraph.Prelude.{
  ℕ, ◌≡◌, refl, ap, ◌∙◌, false, ◌&&◌, Option, none, some, [], ◌∷◌, ◌++◌, ◌==◌, is_empty, arith,
  Bool, true, not, Bool-cases, inl, inr,
}
use agent_os_langgraph.Text.{Str, is_space, lstrip_by, rstrip, strip, keep_head}
use agent_os_langgraph.Text.Split.{colon}
use agent_os_langgraph.Text.Words.{split_mark, push_front}

abbrev pub space : ℕ
space = 32

-- A text that is not empty, with no space at an end.
abbrev pub IsTrim : Str → Type 0
IsTrim [] = ⊥
IsTrim (c ∷ s) = (is_space c ≡ false) × (rstrip (c ∷ s) ≡ c ∷ s)

rstrip-append : (s : Str) → rstrip (s ++ space ∷ []) ≡ rstrip s
unfolding rstrip keep_head is_space
rstrip-append [] = refl
rstrip-append (c ∷ s) = ap (keep_head c) (rstrip-append s)

pub strip_trim : (s : Str) → IsTrim s → strip s ≡ s
unfolding strip lstrip_by
strip_trim [] t = elim t [ ]
strip_trim (c ∷ s) (solid, back) = rw solid back

pub strip_append : (s : Str) → IsTrim s → strip (s ++ space ∷ []) ≡ s
unfolding strip lstrip_by
strip_append [] t = elim t [ ]
strip_append (c ∷ s) (solid, back) = rw solid (rstrip-append (c ∷ s) ∙ back)

pub strip_cons : (s : Str) → IsTrim s → strip (space ∷ s) ≡ s
unfolding strip lstrip_by is_space
strip_cons s t = strip_trim s t

pub is_empty_trim : (s : Str) → IsTrim s → is_empty s ≡ false
is_empty_trim [] t = elim t [ ]
is_empty_trim (c ∷ s) t = refl

keep_head_full : (c : ℕ) (s : Str) → is_space c ≡ false → is_empty (keep_head c s) ≡ false
unfolding keep_head
keep_head_full c [] h = rw h refl
keep_head_full c (d ∷ s) h = refl

-- A text that begins with no space.
abbrev pub is_solid : Str → Bool
is_solid [] = false
is_solid (c ∷ s) = not (is_space c)

pub strip_solid : (s : Str) → is_solid s ≡ true → is_empty (strip s) ≡ false
unfolding strip lstrip_by rstrip
strip_solid [] h = absurd (cc)
strip_solid (c ∷ s) h = elim (Bool-cases (is_space c)) [
  | inl k ↦ absurd (cc)
  | inr k ↦ rw k (keep_head_full c (rstrip s) k)
]

push_front-none : (c : ℕ) (o : Option (Str × Str)) → push_front c o ≡ none → o ≡ none
push_front-none c none h = refl
push_front-none c (some x) h = absurd (cc)

-- The first mark stands behind a text that has none.
pub split_mark-append :
    (p s : Str)
    → split_mark p ≡ none
    → split_mark (p ++ space ∷ colon ∷ colon ∷ s) ≡ some (p ++ space ∷ [], s)
unfolding split_mark
split_mark-append [] s h = refl
split_mark-append (c ∷ []) s h = ground arith
split_mark-append (c ∷ d ∷ p) s h = elim (Bool-cases (c == colon && d == colon)) [
  | inl both ↦ absurd (ground (arith, both))
  | inr other ↦
      let q : push_front c (split_mark (d ∷ p)) ≡ none = ground (arith, other, h) in
      rw (other, split_mark-append (d ∷ p) s (push_front-none c (split_mark (d ∷ p)) q)) refl
]
