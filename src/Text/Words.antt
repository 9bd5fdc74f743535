-- ===== src/Text/Words.antt =====
-- `str.split` on white space, and the cut at the first `::`.
use agent_os_langgraph.Prelude.{
  ◌≡◌, refl, ◌&&◌, Option, none, some, List, [], ◌∷◌, ◌==◌, is_empty, if◌then◌else◌,
}
use agent_os_langgraph.Text.{Str, text, is_space, lstrip_by}
use agent_os_langgraph.Text.Split.{colon}

-- A finished word, if it is one.
abbrev pub close : Str → List Str → List Str
close w ws = if is_empty w then ws else w ∷ ws

-- The characters before the first space, and the words after it.
unfoldable pub scan_words : Str → Str × List Str
unfolding is_space
scan_words [] = ([], [])
scan_words (c ∷ s) =
    let (w, ws) = scan_words s in if is_space c then ([], close w ws) else (c ∷ w, ws)

-- `s.split()`
unfoldable pub split_words : Str → List Str
unfolding scan_words
split_words s = let (w, ws) = scan_words s in close w ws

abbrev pub first_of : List Str → Option Str
first_of [] = none
first_of (w ∷ ws) = some w

-- A text up to its first space, and what begins there.
unfoldable pub span_word : Str → Str × Str
unfolding is_space
span_word [] = ([], [])
span_word (c ∷ s) = let (w, rest) = span_word s in if is_space c then ([], c ∷ s) else (c ∷ w, rest)

-- What `s.split(maxsplit=1)` gives after the first word, for a text that begins with no space.
unfoldable pub after_word : Str → Option Str
unfolding span_word lstrip_by
after_word s =
    let rest = lstrip_by is_space (span_word s).1 in if is_empty rest then none else some rest

-- `s.split("::", 1)` where `"::" in s`
abbrev pub push_front : {A : Type 0} → A → Option (List A × List A) → Option (List A × List A)
push_front c none = none
push_front c (some (a, b)) = some (c ∷ a, b)

unfoldable pub split_mark : Str → Option (Str × Str)
split_mark [] = none
split_mark (c ∷ []) = none
split_mark (c ∷ d ∷ s) =
    let rest = split_mark (d ∷ s) in
    if c == colon && d == colon then some ([], s) else push_front c rest

split_mark_runs : split_mark (text "a::b::c") ≡ some (text "a", text "b::c")
unfolding split_mark text
split_mark_runs = refl

split_words_runs : split_words (text "  cat  notes ") ≡ text "cat" ∷ text "notes" ∷ []
unfolding split_words text
split_words_runs = refl
