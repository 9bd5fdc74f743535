-- ===== src/OutputLimits/Bytes.antt =====
-- agent_os/output_limits.py: the bytes of a truncated text.
use agent_os_langgraph.Prelude.{
  ℕ, suc, ◌+◌, ◌-◌, ◌≤◌, ◌≡◌, refl, ap, ◌∙◌, sym, Bool, true, false, [], ◌∷◌, ◌++◌, arith, ltb, leb,
  if◌then◌else◌, length, length-append, all, Bool-cases, inl, inr, ok, ok-returned,
}
use agent_os_langgraph.Text.{Str, text}
use agent_os_langgraph.Text.Decimal.{show_nat, length-show_nat_le, is_ascii, show_nat_ascii}
use agent_os_langgraph.Text.Utf8.{is_scalar, encode_char, encode, fitting}
use agent_os_langgraph.Text.Utf8.Prefix.{decode_ignore-take, length-fitting_le}
use agent_os_langgraph.OutputLimits.{marker, marked_rest, truncate_utf8}

length-encode_append :
    (s t : Str) → length (encode (s ++ t)) ≡ length (encode s) + length (encode t)
unfolding encode
length-encode_append [] t = omega arith
length-encode_append (c ∷ s) t =
    let p = length-append (encode_char c) (encode (s ++ t)) in
    let q = length-append (encode_char c) (encode s) in
    let r = length-encode_append s t in omega (arith, p, q, r)

length-encode_ascii : (s : Str) → all is_ascii s ≡ true → length (encode s) ≡ length s
unfolding encode encode_char
length-encode_ascii [] h = refl
length-encode_ascii (c ∷ s) h =
    let one : ltb c 128 ≡ true = ground arith in
    let r = length-encode_ascii s (ground arith) in rw one (ap suc r)

opening : length (encode (text "[truncated ")) ≡ 11
unfolding encode encode_char text
opening = refl

closing_ : length (encode (text " bytes]")) ≡ 7
unfolding encode encode_char text
closing_ = refl

line_end : length (encode (10 ∷ [])) ≡ 1
unfolding encode encode_char
line_end = refl

marker_parts :
    (n : Str)
    → length (encode (text "[truncated " ++ n ++ text " bytes]" ++ 10 ∷ []))
      ≡ 19 + length (encode n)
marker_parts n =
    let a = length-encode_append (text "[truncated " ++ n ++ text " bytes]") (10 ∷ []) in
    let b = length-encode_append (text "[truncated " ++ n) (text " bytes]") in
    let d = length-encode_append (text "[truncated ") n in
    omega (arith, a, b, d, opening, closing_, line_end)

-- A marker has nineteen bytes more than its number has digits.
length-marker : (n : ℕ) → length (encode (marker n)) ≡ 19 + length (show_nat n)
unfolding marker
length-marker n =
    marker_parts (show_nat n)
    ∙ ap (λ (k : ℕ). 19 + k) (length-encode_ascii (show_nat n) (show_nat_ascii n))

marker_le : (m n : ℕ) → m ≤ n → length (encode (marker m)) ≤ length (encode (marker n))
marker_le m n h =
    let p = length-marker m in
    let q = length-marker n in let r = length-show_nat_le m n h in omega (arith, p, q, r)

truncated_parts :
    (s : Str) (max_bytes : ℕ)
    → all is_scalar s ≡ true
    → let total = length (encode s) in
      let reserved = length (encode (marker total)) in
      truncate_utf8 s max_bytes
      ≡ ok (
          if leb total max_bytes
          then (s, false)
          else if ltb max_bytes reserved
          then ([], true)
          else (marked_rest total (fitting (max_bytes - reserved) s), true))
unfolding truncate_utf8
truncated_parts s max_bytes v = rw (v, decode_ignore-take _ s v) refl

marked_rest_le :
    (s : Str) (max_bytes : ℕ)
    → let total = length (encode s) in
      let reserved = length (encode (marker total)) in
      ltb max_bytes reserved ≡ false
      → length (encode (marked_rest total (fitting (max_bytes - reserved) s))) ≤ max_bytes
marked_rest_le s max_bytes room =
    let total = length (encode s) in
    let reserved = length (encode (marker total)) in
    let kept = fitting (max_bytes - reserved) s in
    let sum = length-encode_append (marker (total - length (encode kept))) kept in
    let small = marker_le (total - length (encode kept)) total (omega arith) in
    let held = length-fitting_le (max_bytes - reserved) s in
    let enough : reserved ≤ max_bytes = ground (arith, room) in
    omega (arith, sum, small, held, enough)

truncated_le :
    (s t : Str) (max_bytes : ℕ) (b : Bool)
    → all is_scalar s ≡ true
    → truncate_utf8 s max_bytes ≡ ok (t, b)
    → (length (encode t) ≤ max_bytes) × (b ≡ ltb max_bytes (length (encode s)))
truncated_le s t max_bytes b v h =
    let p = ok-returned (sym (truncated_parts s max_bytes v) ∙ h) in
    elim (Bool-cases (leb (length (encode s)) max_bytes)) [
      | inl fits ↦
          let q = rw fits at p in
          let e : s ≡ t = ap (λ (x : Str × Bool). x.0) q in
          let f : false ≡ b = ap (λ (x : Str × Bool). x.1) q in
          rw (← e, ← f) (ground (arith, fits), ground (arith, fits))
      | inr over ↦
          let more : true ≡ ltb max_bytes (length (encode s)) = ground (arith, over) in
          elim (Bool-cases (ltb max_bytes (length (encode (marker (length (encode s))))))) [
            | inl tight ↦
                let q = rw (over, tight) at p in
                let e : [] ≡ t = ap (λ (x : Str × Bool). x.0) q in
                let f : true ≡ b = ap (λ (x : Str × Bool). x.1) q in
                rw (← e, ← f) (unfold encode in (omega arith), more)
            | inr room ↦
                let q = rw (over, room) at p in
                let e = ap (λ (x : Str × Bool). x.0) q in
                let f : true ≡ b = ap (λ (x : Str × Bool). x.1) q in
                rw (← e, ← f) (marked_rest_le s max_bytes room, more)
          ]
    ]

-- A truncated text has at most the given number of bytes, and it is marked as truncated exactly if the
-- text has more.
pub truncate_utf8_le :
    (s : Str) (max_bytes : ℕ) (t : Str) (truncated : Bool)
    → truncate_utf8 s max_bytes ≡ ok (t, truncated)
    → (length (encode t) ≤ max_bytes) × (truncated ≡ ltb max_bytes (length (encode s)))
truncate_utf8_le s max_bytes t truncated h = elim (Bool-cases (all is_scalar s)) [
  | inl v ↦ truncated_le s t max_bytes truncated v h
  | inr bad ↦ absurd (unfold truncate_utf8 in (let k = rw bad at h in cc))
]
