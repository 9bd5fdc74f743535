-- ===== src/Text/Utf8/Prefix.antt =====
-- UTF-8: the first bytes of an encoded text, decoded with `errors="ignore"`.
use agent_os_langgraph.Prelude.{
  ℕ, zero, suc, ◌-◌, ◌≤◌, ◌<◌, ◌≡◌, refl, ap, ◌∙◌, true, false, none, List, [], ◌∷◌, ◌++◌, arith,
  ltb, leb, if◌then◌else◌, length, length-append, all, take, Bool-cases, inl, inr,
}
use agent_os_langgraph.Text.{Str}
use agent_os_langgraph.Text.Utf8.{
  is_scalar, encode_char, encode, read_char, decode_from, decode_ignore, fitting,
  decode_from-encode_char,
}

read_alone : (b : ℕ) → 128 ≤ b → read_char b [] ≡ none
unfolding read_char
read_alone b h = ground arith

lone : (b : ℕ) → 128 ≤ b → decode_from 0 (b ∷ []) ≡ []
unfolding decode_from
lone b h = rw (read_alone b h) refl

read_inner : (x : ℕ) (s : List ℕ) → 128 ≤ x → x < 192 → read_char x s ≡ none
unfolding read_char
read_inner x s l h = ground arith

pair : (b x : ℕ) → 224 ≤ b → 128 ≤ x → decode_from 0 (b ∷ x ∷ []) ≡ []
unfolding decode_from read_char
pair b x h l =
    let q = lone x l in
    let b1 : ltb b 128 ≡ false = ground arith in
    let b2 : ltb b 194 ≡ false = ground arith in
    let b3 : ltb b 224 ≡ false = ground arith in
    elim (Bool-cases (ltb b 240)) [
      | inl four ↦ rw (b1, b2, b3, four) q
      | inr more ↦ elim (Bool-cases (ltb b 245)) [
        | inl y ↦ rw (b1, b2, b3, more, y) q
        | inr n ↦ rw (b1, b2, b3, more, n) q
      ]
    ]

triple_read : (b x y : ℕ) → 240 ≤ b → read_char b (x ∷ y ∷ []) ≡ none
unfolding read_char
triple_read b x y h = ground arith

triple : (b x y : ℕ) → 240 ≤ b → 128 ≤ x → x < 192 → 128 ≤ y → decode_from 0 (b ∷ x ∷ y ∷ []) ≡ []
unfolding decode_from
triple b x y h l k m =
    let first : read_char b (x ∷ y ∷ []) ≡ none = triple_read b x y h in
    rw (first, read_inner x (y ∷ []) l k) (lone y m)

cut_two : (b x k : ℕ) → 128 ≤ b → suc k < 2 → decode_from 0 (take (suc k) (b ∷ x ∷ [])) ≡ []
cut_two b x zero h l = lone b h
cut_two b x (suc k) h l = absurd (omega arith)

cut_three :
    (b x y k : ℕ)
    → 224 ≤ b
    → 128 ≤ x
    → x < 192
    → suc k < 3
    → decode_from 0 (take (suc k) (b ∷ x ∷ y ∷ [])) ≡ []
cut_three b x y zero h m n l = lone b (omega arith)
cut_three b x y (suc zero) h m n l = pair b x h m
cut_three b x y (suc (suc k)) h m n l = absurd (omega arith)

cut_four :
    (b x y z k : ℕ)
    → 240 ≤ b
    → 128 ≤ x
    → x < 192
    → 128 ≤ y
    → suc k < 4
    → decode_from 0 (take (suc k) (b ∷ x ∷ y ∷ z ∷ [])) ≡ []
cut_four b x y z zero h m n o l = lone b (omega arith)
cut_four b x y z (suc zero) h m n o l = pair b x (omega arith) m
cut_four b x y z (suc (suc zero)) h m n o l = triple b x y h m n o
cut_four b x y z (suc (suc (suc k))) h m n o l = absurd (omega arith)

-- A cut character is dropped.
cut_char : (c k : ℕ) → k < length (encode_char c) → decode_from 0 (take k (encode_char c)) ≡ []
unfolding encode_char
cut_char c zero h = unfold decode_from in refl
cut_char c (suc k) h = elim (Bool-cases (ltb c 0x80)) [
  | inl one ↦ absurd (let h' = rw one at h in omega arith)
  | inr a ↦ elim (Bool-cases (ltb c 0x800)) [
    | inl two ↦ rw (a, two) (cut_two _ _ k (omega arith) (rw (a, two) at h))
    | inr b ↦ elim (Bool-cases (ltb c 0x10000)) [
      | inl three ↦
          rw (a, b, three)
            (cut_three _ _ _ k (omega arith) (omega arith) (omega arith) (rw (a, b, three) at h))
      | inr d ↦
          rw (a, b, d)
            (cut_four _ _ _ _ k (omega arith) (omega arith) (omega arith) (omega arith)
              (rw (a, b, d) at h))
    ]
  ]
]

take-append :
    {A : Type 0} (n : ℕ) (xs ys : List A)
    → take n (xs ++ ys) ≡ (if leb (length xs) n then xs ++ take (n - length xs) ys else take n xs)
take-append n [] ys = let z : n - 0 ≡ n = omega arith in ground (arith, z)
take-append zero (x ∷ xs) ys = ground arith
take-append (suc n) (x ∷ xs) ys = ground (arith, take-append n xs ys)

-- What is decoded of the first `n` bytes of an encoded text is its longest beginning that these bytes
-- hold.
pub decode_ignore-take :
    (n : ℕ) (s : Str) → all is_scalar s ≡ true → decode_ignore (take n (encode s)) ≡ fitting n s
unfolding encode fitting
decode_ignore-take zero [] h = unfold decode_from in refl
decode_ignore-take (suc n) [] h = unfold decode_from in refl
decode_ignore-take n (c ∷ s) h =
    let v : is_scalar c ≡ true = ground arith in
    let vs : all is_scalar s ≡ true = ground arith in
    elim (Bool-cases (leb (length (encode_char c)) n)) [
      | inl fits ↦
          rw (take-append n (encode_char c) (encode s), fits)
            (decode_from-encode_char c _ v
              ∙ ap (λ (t : Str). c ∷ t) (decode_ignore-take (n - length (encode_char c)) s vs))
      | inr cut ↦
          rw (take-append n (encode_char c) (encode s), cut) (cut_char c n (ground (arith, cut)))
    ]

pub length-fitting_le : (n : ℕ) (s : Str) → length (encode (fitting n s)) ≤ n
unfolding encode fitting
length-fitting_le n [] = omega arith
length-fitting_le n (c ∷ s) = elim (Bool-cases (leb (length (encode_char c)) n)) [
  | inl fits ↦
      let r = length-fitting_le (n - length (encode_char c)) s in
      let l = length-append (encode_char c) (encode (fitting (n - length (encode_char c)) s)) in
      let k : length (encode_char c) ≤ n = ground (arith, fits) in
      rw (fits, l) (omega (arith, r, k))
  | inr cut ↦ rw cut (omega arith)
]
