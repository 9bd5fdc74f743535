-- ===== src/Text.antt =====
-- Python's `str` as a list of code points, with what the modelled code uses of it.
pub mod Split
pub mod Words
pub mod Trim
pub mod Utf8
pub mod Decimal
use Prim.Native.Char.{code}
use agent_os_langgraph.Prelude.{
  ltb, ℕ, String, ◌≡◌, ◌↔◌, refl, Bool, true, false, ◌&&◌, ◌||◌, List, [], ◌∷◌, ◌++◌, arith, leb,
  ◌==◌, if◌then◌else◌,
}

abbrev pub Str : Type 0
Str = List ℕ

-- A literal.
unfoldable pub text : String → Str
text String.[] = []
text (String.◌∷◌ c s) = code c ∷ text s

-- `a == b` on texts
unfoldable pub str_eq : Str → Str → Bool
str_eq [] [] = true
str_eq (x ∷ xs) (y ∷ ys) = x == y && str_eq xs ys
str_eq _ _ = false

pub str_eq_iff : (a b : Str) → (str_eq a b ≡ true) ↔ (a ≡ b)
unfolding str_eq
str_eq_iff [] [] = (λ h. refl, λ h. refl)
str_eq_iff [] (y ∷ ys) = (λ h. cc, λ h. cc)
str_eq_iff (x ∷ xs) [] = (λ h. cc, λ h. cc)
str_eq_iff (x ∷ xs) (y ∷ ys) =
    (λ h. ground (arith, (str_eq_iff xs ys).0), λ h. ground (arith, (str_eq_iff xs ys).1))

pub str_eq_self : (a : Str) → str_eq a a ≡ true
str_eq_self a = (str_eq_iff a a).1 refl

-- `k in {…}` for a set of texts
unfoldable pub mem_str : Str → List Str → Bool
mem_str k [] = false
mem_str k (x ∷ xs) = str_eq k x || mem_str k xs

-- `a <= b` on texts
unfoldable pub str_le : Str → Str → Bool
str_le [] b = true
str_le (c ∷ a) [] = false
str_le (c ∷ a) (d ∷ b) = ltb c d || (c == d && str_le a b)

-- `s.startswith(p)`
unfoldable pub starts_with : Str → Str → Bool
starts_with [] s = true
starts_with (c ∷ p) [] = false
starts_with (c ∷ p) (d ∷ s) = c == d && starts_with p s

-- `str.isspace` of one character; `\s` of a pattern is the same set.
unfoldable pub is_space : ℕ → Bool
is_space c =
    leb 9 c && leb c 13
    || leb 28 c && leb c 32
    || c == 0x85
    || c == 0xa0
    || c == 0x1680
    || leb 0x2000 c && leb c 0x200a
    || c == 0x2028
    || c == 0x2029
    || c == 0x202f
    || c == 0x205f
    || c == 0x3000

-- `s.lstrip()` for the characters of a class
unfoldable pub lstrip_by : (ℕ → Bool) → Str → Str
lstrip_by p [] = []
lstrip_by p (c ∷ s) = if p c then lstrip_by p s else c ∷ s

-- A space stays only in front of what is left of the tail.
keep_head : ℕ → Str → Str
keep_head d [] = if is_space d then [] else d ∷ []
keep_head d (e ∷ t) = d ∷ e ∷ t

-- `s.rstrip()`
unfoldable pub rstrip : Str → Str
unfolding is_space keep_head
rstrip [] = []
rstrip (c ∷ s) = keep_head c (rstrip s)

-- `s.strip()`
unfoldable pub strip : Str → Str
unfolding lstrip_by rstrip
strip s = rstrip (lstrip_by is_space s)

strip_words : strip (text "  not yet ") ≡ text "not yet"
unfolding strip text is_space
strip_words = refl
