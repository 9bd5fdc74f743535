-- ===== src/Text/Utf8.antt =====
-- UTF-8: `str.encode`, and `bytes.decode` with `errors="ignore"`.
pub mod Prefix
use agent_os_langgraph.Prelude.{
  ℕ, zero, suc, ◌+◌, ◌-◌, ◌*◌, ◌/◌, ◌%◌, ◌≤◌, ◌<◌, ◌≡◌, refl, ap, ◌∙◌, Bool, true, false, ◌&&◌,
  ◌||◌, not, Option, none, some, List, [], ◌∷◌, ◌++◌, arith, ltb, leb, ◌==◌, if◌then◌else◌, length,
  length-append, all, take, Bool-cases, inl, inr,
}
use agent_os_langgraph.Text.{Str}

-- A code point that is no surrogate.
abbrev pub is_scalar : ℕ → Bool
is_scalar c = ltb c 0xd800 || leb 0xe000 c && ltb c 0x110000

unfoldable pub encode_char : ℕ → List ℕ
encode_char c =
    if ltb c 0x80
    then c ∷ []
    else if ltb c 0x800
    then (192 + c / 64) ∷ (128 + c % 64) ∷ []
    else if ltb c 0x10000
    then (224 + c / 4096) ∷ (128 + c / 64 % 64) ∷ (128 + c % 64) ∷ []
    else (240 + c / 262144) ∷ (128 + c / 4096 % 64) ∷ (128 + c / 64 % 64) ∷ (128 + c % 64) ∷ []

-- `s.encode("utf-8")` for a text without surrogates
unfoldable pub encode : Str → List ℕ
unfolding encode_char
encode [] = []
encode (c ∷ s) = encode_char c ++ encode s

abbrev pub is_continuation : ℕ → Bool
is_continuation b = leb 128 b && ltb b 192

-- The rest of a character behind its first byte, with the number of bytes of this rest.
abbrev pub two_bytes : ℕ → List ℕ → Option (ℕ × ℕ)
two_bytes b (x ∷ s) = if is_continuation x then some ((b - 192) * 64 + (x - 128), 1) else none
two_bytes b [] = none

abbrev pub three_bytes : ℕ → List ℕ → Option (ℕ × ℕ)
three_bytes b (x ∷ y ∷ s) =
    if is_continuation x
      && is_continuation y
      && (ltb 224 b || leb 160 x)
      && (not (b == 237) || ltb x 160)
    then some ((b - 224) * 4096 + (x - 128) * 64 + (y - 128), 2)
    else none
three_bytes b _ = none

abbrev pub four_bytes : ℕ → List ℕ → Option (ℕ × ℕ)
four_bytes b (x ∷ y ∷ z ∷ s) =
    if is_continuation x
      && is_continuation y
      && is_continuation z
      && (ltb 240 b || leb 144 x)
      && (ltb b 244 || ltb x 144)
    then some ((b - 240) * 262144 + (x - 128) * 4096 + (y - 128) * 64 + (z - 128), 3)
    else none
four_bytes b _ = none

-- The character at the start of some bytes, if there is a whole one.
unfoldable pub read_char : ℕ → List ℕ → Option (ℕ × ℕ)
read_char b s =
    if ltb b 128
    then some (b, 0)
    else if ltb b 194
    then none
    else if ltb b 224
    then two_bytes b s
    else if ltb b 240
    then three_bytes b s
    else if ltb b 245
    then four_bytes b s
    else none

abbrev pub bytes_behind : Option (ℕ × ℕ) → ℕ
bytes_behind none = 0
bytes_behind (some (c, k)) = k

abbrev pub put_char : Option (ℕ × ℕ) → Str → Str
put_char none s = s
put_char (some (c, k)) s = c ∷ s

-- Decoding that drops a byte at which no whole character starts, behind bytes that are skipped.
unfoldable pub decode_from : ℕ → List ℕ → Str
unfolding read_char
decode_from k [] = []
decode_from (suc k) (b ∷ s) = decode_from k s
decode_from zero (b ∷ s) = let c = read_char b s in put_char c (decode_from (bytes_behind c) s)

-- `b.decode("utf-8", errors="ignore")`
abbrev pub decode_ignore : List ℕ → Str
decode_ignore s = decode_from 0 s

-- The longest beginning whose encoding has no more than so many bytes.
unfoldable pub fitting : ℕ → Str → Str
unfolding encode_char
fitting n [] = []
fitting n (c ∷ s) =
    let k = length (encode_char c) in
    let rest = fitting (n - k) s in if leb k n then c ∷ rest else []

read_one : (c : ℕ) (s : List ℕ) → c < 128 → read_char c s ≡ some (c, 0)
unfolding read_char
read_one c s h = ground arith

read_two :
    (c : ℕ) (s : List ℕ)
    → 128 ≤ c
    → c < 2048
    → read_char (192 + c / 64) ((128 + c % 64) ∷ s) ≡ some (c, 1)
unfolding read_char
read_two c s l h =
    let whole : (192 + c / 64 - 192) * 64 + (128 + c % 64 - 128) ≡ c = omega arith in
    ground (arith, whole)

read_three_at :
    (b x y c : ℕ) (s : List ℕ)
    → 224 ≤ b
    → b < 240
    → is_continuation x ≡ true
    → is_continuation y ≡ true
    → (ltb 224 b || leb 160 x) ≡ true
    → (not (b == 237) || ltb x 160) ≡ true
    → (b - 224) * 4096 + (x - 128) * 64 + (y - 128) ≡ c
    → read_char b (x ∷ y ∷ s) ≡ some (c, 2)
unfolding read_char
read_three_at b x y c s l h cx cy low high whole =
    let b1 : ltb b 128 ≡ false = ground arith in
    let b2 : ltb b 194 ≡ false = ground arith in
    let b3 : ltb b 224 ≡ false = ground arith in
    let b4 : ltb b 240 ≡ true = ground arith in rw (b1, b2, b3, b4, cx, cy, low, high, whole) refl

continues : (n : ℕ) → n < 64 → is_continuation (128 + n) ≡ true
continues n h = ground arith

no_surrogate_lem :
    (c : ℕ)
    → is_scalar c ≡ true
    → (not (224 + c / 4096 == 237) || ltb (128 + c / 64 % 64) 160) ≡ true
no_surrogate_lem c v = elim (Bool-cases (224 + c / 4096 == 237)) [
  | inr other ↦ rw other refl
  | inl d ↦
      let q : c / 4096 ≡ 13 = ground (arith, d) in
      let small : c < 0xd800 = ground (arith, v, q) in
      let x : c / 64 % 64 < 32 = omega (arith, q, small) in rw d (ground (arith, x))
]

read_three :
    (c : ℕ) (s : List ℕ)
    → 2048 ≤ c
    → c < 65536
    → is_scalar c ≡ true
    → read_char (224 + c / 4096) ((128 + c / 64 % 64) ∷ (128 + c % 64) ∷ s) ≡ some (c, 2)
read_three c s l h v =
    let low : 2048 ≤ c → 32 ≤ c / 64 % 64 + c / 4096 * 64 = λ g. omega arith in
    let q : c / 4096 < 16 = omega arith in
    let low' = low l in
    let lowest : (ltb 224 (224 + c / 4096) || leb 160 (128 + c / 64 % 64)) ≡ true =
      ground (arith, low') in
    let no_surrogate : (not (224 + c / 4096 == 237) || ltb (128 + c / 64 % 64) 160) ≡ true =
      no_surrogate_lem c v in
    read_three_at (224 + c / 4096) (128 + c / 64 % 64) (128 + c % 64) c s (omega arith)
      (omega arith) (continues (c / 64 % 64) (omega arith)) (continues (c % 64) (omega arith))
      lowest no_surrogate (omega arith)

read_four_at :
    (b x y z c : ℕ) (s : List ℕ)
    → 240 ≤ b
    → b < 245
    → is_continuation x ≡ true
    → is_continuation y ≡ true
    → is_continuation z ≡ true
    → (ltb 240 b || leb 144 x) ≡ true
    → (ltb b 244 || ltb x 144) ≡ true
    → (b - 240) * 262144 + (x - 128) * 4096 + (y - 128) * 64 + (z - 128) ≡ c
    → read_char b (x ∷ y ∷ z ∷ s) ≡ some (c, 3)
unfolding read_char
read_four_at b x y z c s l h cx cy cz low high whole =
    let b1 : ltb b 128 ≡ false = ground arith in
    let b2 : ltb b 194 ≡ false = ground arith in
    let b3 : ltb b 224 ≡ false = ground arith in
    let b4 : ltb b 240 ≡ false = ground arith in
    let b5 : ltb b 245 ≡ true = ground arith in
    rw (b1, b2, b3, b4, b5, cx, cy, cz, low, high, whole) refl

read_four :
    (c : ℕ) (s : List ℕ)
    → 65536 ≤ c
    → c < 0x110000
    → read_char
        (240 + c / 262144)
        ((128 + c / 4096 % 64) ∷ (128 + c / 64 % 64) ∷ (128 + c % 64) ∷ s)
      ≡ some (c, 3)
read_four c s l h =
    let low : 16 ≤ c / 4096 % 64 + c / 262144 * 64 = omega arith in
    let high : c / 4096 % 64 + c / 262144 * 64 < 272 = omega arith in
    let lowest : (ltb 240 (240 + c / 262144) || leb 144 (128 + c / 4096 % 64)) ≡ true =
      ground (arith, low) in
    let highest : (ltb (240 + c / 262144) 244 || ltb (128 + c / 4096 % 64) 144) ≡ true =
      ground (arith, high) in
    read_four_at (240 + c / 262144) (128 + c / 4096 % 64) (128 + c / 64 % 64) (128 + c % 64) c s
      (omega arith) (omega arith) (continues (c / 4096 % 64) (omega arith))
      (continues (c / 64 % 64) (omega arith)) (continues (c % 64) (omega arith)) lowest highest
      (omega arith)

-- A whole character is read back, and what follows it is decoded.
pub decode_from-encode_char :
    (c : ℕ) (s : List ℕ)
    → is_scalar c ≡ true
    → decode_from 0 (encode_char c ++ s) ≡ c ∷ decode_from 0 s
unfolding decode_from encode_char
decode_from-encode_char c s v = elim (Bool-cases (ltb c 0x80)) [
  | inl one ↦ rw (one, read_one c s (ground (arith, one))) refl
  | inr a ↦ rw a (elim (Bool-cases (ltb c 0x800)) [
    | inl two ↦ rw (two, read_two c s (ground (arith, a)) (ground (arith, two))) refl
    | inr b ↦ rw b (elim (Bool-cases (ltb c 0x10000)) [
      | inl three ↦ rw (three, read_three c s (ground (arith, b)) (ground (arith, three)) v) refl
      | inr d ↦ rw (d, read_four c s (ground (arith, d)) (ground (arith, v))) refl
    ])
  ])
]
