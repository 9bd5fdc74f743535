-- ===== src/Text/Decimal.antt =====
-- `str` of a natural number.
use agent_os_langgraph.Prelude.{
  ℕ, zero, suc, ◌+◌, ◌/◌, ◌%◌, ◌≤◌, ◌<◌, ◌≡◌, refl, ap, Bool, true, [], ◌∷◌, ◌++◌, arith, ltb,
  if◌then◌else◌, length, length-append, all, Bool-cases, inl, inr,
}
use agent_os_langgraph.Text.{Str}

-- The fuel is more than the number of digits.
unfoldable pub digits : ℕ → ℕ → Str
digits zero n = []
digits (suc k) n =
    let rest = digits k (n / 10) in if ltb n 10 then (48 + n) ∷ [] else rest ++ (48 + n % 10) ∷ []

unfoldable pub show_nat : ℕ → Str
unfolding digits
show_nat n = digits (suc n) n

digits_fuel : (j k n : ℕ) → n < j → n < k → digits j n ≡ digits k n
unfolding digits
digits_fuel zero k n h l = absurd (omega arith)
digits_fuel (suc j) zero n h l = absurd (omega arith)
digits_fuel (suc j) (suc k) n h l = elim (Bool-cases (ltb n 10)) [
  | inl small ↦ rw small refl
  | inr big ↦
      let ten : 10 ≤ n = ground (arith, big) in
      rw big (
        ap (λ (s : Str). s ++ (48 + n % 10) ∷ [])
          (digits_fuel j k (n / 10) (omega arith) (omega arith)))
]

digits_positive : (k n : ℕ) → 1 ≤ length (digits (suc k) n)
unfolding digits
digits_positive k n = ground (arith, length-append (digits k (n / 10)) ((48 + n % 10) ∷ []))

length-digits_le : (k m n : ℕ) → m < k → n < k → m ≤ n → length (digits k m) ≤ length (digits k n)
unfolding digits
length-digits_le zero m n a b h = absurd (omega arith)
length-digits_le (suc k) m n a b h =
    let p = length-append (digits k (m / 10)) ((48 + m % 10) ∷ []) in
    let q = length-append (digits k (n / 10)) ((48 + n % 10) ∷ []) in
    elim (Bool-cases (ltb n 10)) [
      | inl small ↦
          let one : ltb m 10 ≡ true = ground (arith, small, h) in rw (one, small) (omega arith)
      | inr big ↦ elim (Bool-cases (ltb m 10)) [
        | inl one ↦ rw (one, big) (omega (arith, q))
        | inr both ↦
            let ten : 10 ≤ n = ground (arith, big) in
            let r =
              length-digits_le k (m / 10) (n / 10) (omega arith) (omega arith) (omega arith) in
            rw (both, big) (omega (arith, p, q, r))
      ]
    ]

-- A smaller number has no more digits.
pub length-show_nat_le : (m n : ℕ) → m ≤ n → length (show_nat m) ≤ length (show_nat n)
unfolding show_nat
length-show_nat_le m n h =
    rw (digits_fuel (suc m) (suc n) m (omega arith) (omega arith))
      (length-digits_le (suc n) m n (omega arith) (omega arith) h)

abbrev pub is_ascii : ℕ → Bool
is_ascii c = ltb c 128

all_append : (p : ℕ → Bool) (s t : Str) → all p s ≡ true → all p t ≡ true → all p (s ++ t) ≡ true
all_append p [] t h k = k
all_append p (c ∷ s) t h k = ground (arith, all_append p s t)

digits_ascii : (k n : ℕ) → all is_ascii (digits k n) ≡ true
unfolding digits
digits_ascii zero n = refl
digits_ascii (suc k) n = elim (Bool-cases (ltb n 10)) [
  | inl small ↦ rw small (ground (arith, small))
  | inr big ↦
      rw big (all_append is_ascii (digits k (n / 10)) _ (digits_ascii k (n / 10)) (ground arith))
]

pub show_nat_ascii : (n : ℕ) → all is_ascii (show_nat n) ≡ true
unfolding show_nat
show_nat_ascii n = digits_ascii (suc n) n
