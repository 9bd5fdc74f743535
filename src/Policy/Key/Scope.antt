-- ===== src/Policy/Key/Scope.antt =====
-- agent_os/policy.py: what a derived key says of its proposal.
use agent_os_langgraph.Prelude.{
  ◌≡◌, refl, sym, ap, ◌∙◌, true, false, Option, none, some, [], ◌∷◌, ◌++◌, arith, ◌==◌, all, any,
  ◌⊎◌, inl, inr, ok,
}
use agent_os_langgraph.Text.{Str, text, str_eq_iff, mem_str, is_space}
use agent_os_langgraph.Text.Split.{
  colon, not_colon, split_colon, split_colon-append, split_colon-all,
}
use agent_os_langgraph.Permissions.{
  is_key_char, is_key_word, is_ref_char, is_ref, matches_key_regex, validate_key,
}
use agent_os_langgraph.Schemas.{
  SideEffect, Value, str, other, get_arg, ActionProposal, is_write, memory_write_modes,
}
use agent_os_langgraph.Policy.Key.{
  is_connector_char, is_connector, permission_connector, permission_ref, permission_key,
  key_of_parts, derive_permission_key,
}

-- The parts of a proposal that its key holds.
pub record Scoped (p : ActionProposal) (k connector mode ref : Str) : Type 0 where
  pub tool_is : p.tool ≡ text "memory.write"
  pub writes : is_write p.side_effect ≡ true
  pub connector_is : p.connector ≡ some connector
  pub mode_is : get_arg (text "mode") p.arguments ≡ some (str mode)
  pub ref_is : get_arg (text "ref") p.arguments ≡ some (str ref)
  pub connector_safe : is_connector connector ≡ true
  pub mode_known : mem_str mode memory_write_modes ≡ true
  pub ref_safe : is_ref ref ≡ true
  pub key_is : k ≡ permission_key connector mode ref

key_of_parts_inv :
    (c : Option Str) (m : Option Value) (r : Option Str) {k : Str}
    → key_of_parts c m r ≡ some k
    → (connector : Str) × (mode : Str) × (ref : Str) × (c ≡ some connector)
      × (m ≡ some (str mode))
      × (r ≡ some ref)
      × (mem_str mode memory_write_modes ≡ true)
      × (k ≡ permission_key connector mode ref)
key_of_parts_inv none m r h = absurd (cc)
key_of_parts_inv (some c) none r h = absurd (cc)
key_of_parts_inv (some c) (some (other m)) r h = absurd (cc)
key_of_parts_inv (some c) (some (str m)) none h = absurd (cc)
key_of_parts_inv (some c) (some (str m)) (some r) h =
    (c, m, r, refl, refl, refl, ground arith, ground arith)

permission_connector_inv :
    (c : Option Str) {s : Str}
    → permission_connector c ≡ some s
    → (c ≡ some s) × (is_connector s ≡ true)
unfolding permission_connector
permission_connector_inv none h = absurd (cc)
permission_connector_inv (some c) h = ground arith

is_ref_chars :
    (s : Str) → any (λ c. c == colon) s ≡ false → any is_space s ≡ false → all is_ref_char s ≡ true
is_ref_chars [] h k = refl
is_ref_chars (c ∷ s) h k = ground (arith, is_ref_chars s)

permission_ref_inv :
    (r : Option Value) {s : Str}
    → permission_ref r ≡ some s
    → (r ≡ some (str s)) × (is_ref s ≡ true)
unfolding permission_ref is_ref
permission_ref_inv none h = absurd (cc)
permission_ref_inv (some (other r)) h = absurd (cc)
permission_ref_inv (some (str [])) h = absurd (cc)
permission_ref_inv (some (str (c ∷ s))) h = ground (arith, is_ref_chars (c ∷ s))

pub derive_permission_key_inv :
    (p : ActionProposal) (k : Str)
    → derive_permission_key p ≡ some k
    → (connector : Str) × (mode : Str) × (ref : Str) × Scoped p k connector mode ref
unfolding derive_permission_key
derive_permission_key_inv p k h =
    let parts : key_of_parts (permission_connector p.connector) (get_arg (text "mode") p.arguments)
          (permission_ref (get_arg (text "ref") p.arguments))
        ≡ some k =
      ground arith in
    let (c, m, r, ec, em, er, known, key) = key_of_parts_inv _ _ _ parts in
    let (ec', safe) = permission_connector_inv p.connector ec in
    let (er', ref_ok) = permission_ref_inv (get_arg (text "ref") p.arguments) er in
    (
      c,
      m,
      r,
      record {
        tool_is = ground (arith, str_eq_iff p.tool (text "memory.write"));
        writes = ground arith;
        connector_is = ec';
        mode_is = em;
        ref_is = er';
        connector_safe = safe;
        mode_known = known;
        ref_safe = ref_ok;
        key_is = key;
      },
    )

connector_chars :
    (s : Str)
    → all is_connector_char s ≡ true
    → (all is_key_char s ≡ true) × (all not_colon s ≡ true)
unfolding is_connector_char is_key_char
connector_chars [] h = (refl, refl)
connector_chars (c ∷ s) h = ground (arith, connector_chars s)

connector_word :
    (s : Str) → is_connector s ≡ true → (is_key_word s ≡ true) × (all not_colon s ≡ true)
unfolding is_connector is_key_word
connector_word [] h = absurd (cc)
connector_word (c ∷ s) h = ground (arith, connector_chars (c ∷ s))

mode_cases :
    (m : Str)
    → mem_str m memory_write_modes ≡ true
    → (m ≡ text "append") ⊎ (m ≡ text "create") ⊎ (m ≡ text "overwrite")
unfolding mem_str
mode_cases m h = ground (
  arith,
  str_eq_iff m (text "append"),
  str_eq_iff m (text "create"),
  str_eq_iff m (text "overwrite"),
)

mode_word :
    (m : Str)
    → mem_str m memory_write_modes ≡ true
    → (is_key_word m ≡ true) × (all not_colon m ≡ true)
unfolding text is_key_word is_key_char
mode_word m h = elim (mode_cases m h) [
  | inl e ↦ rw e (refl, refl)
  | inr (inl e) ↦ rw e (refl, refl)
  | inr (inr e) ↦ rw e (refl, refl)
]

ref_no_colon : (s : Str) → all is_ref_char s ≡ true → all not_colon s ≡ true
ref_no_colon [] h = refl
ref_no_colon (c ∷ s) h = ground (arith, ref_no_colon s)

is_ref-no_colon : (s : Str) → is_ref s ≡ true → all not_colon s ≡ true
unfolding is_ref
is_ref-no_colon [] h = absurd (cc)
is_ref-no_colon (c ∷ s) h = ground (arith, ref_no_colon (c ∷ s))

-- The key's five fields.
key_split :
    (c m r : Str)
    → all not_colon c ≡ true
    → all not_colon m ≡ true
    → all not_colon r ≡ true
    → split_colon (permission_key c m r) ≡ text "memory_write" ∷ text "write" ∷ c ∷ m ∷ r ∷ []
unfolding permission_key text
key_split c m r hc hm hr =
    let rest : Str = c ++ colon ∷ (m ++ colon ∷ r) in
    split_colon-append (text "memory_write") (text "write" ++ colon ∷ rest) refl
    ∙ ap (λ fields. text "memory_write" ∷ fields)
        (split_colon-append (text "write") rest refl
          ∙ ap (λ fields. text "write" ∷ fields)
              (split_colon-append c (m ++ colon ∷ r) hc
                ∙ ap (λ fields. c ∷ fields)
                    (split_colon-append m r hm ∙ ap (λ fields. m ∷ fields) (split_colon-all r hr))))

-- The fields of a derived key.
key_fields_split :
    {p : ActionProposal} {k c m r : Str}
    → Scoped p k c m r
    → split_colon k ≡ text "memory_write" ∷ text "write" ∷ c ∷ m ∷ r ∷ []
key_fields_split {c = c} {m = m} {r = r} s =
    ap split_colon s.key_is
    ∙ key_split c m r (connector_word c s.connector_safe).1 (mode_word m s.mode_known).1
        (is_ref-no_colon r s.ref_safe)

key_accepted : {p : ActionProposal} {k c m r : Str} → Scoped p k c m r → validate_key k ≡ ok tt
unfolding validate_key matches_key_regex text is_key_word is_key_char
key_accepted {c = c} {m = m} {r = r} s =
    let cw = (connector_word c s.connector_safe).0 in
    let mw = (mode_word m s.mode_known).0 in rw (key_fields_split s) (rw (cw, mw, s.ref_safe) refl)

-- Every key that the policy engine derives has the format that the rule stores accept.
pub derive_permission_key_accepted :
    (p : ActionProposal) (k : Str) → derive_permission_key p ≡ some k → validate_key k ≡ ok tt
derive_permission_key_accepted p k h =
    let (c, m, r, s) = derive_permission_key_inv p k h in key_accepted s

write_unique : (a b : SideEffect) → is_write a ≡ true → is_write b ≡ true → a ≡ b
write_unique a b h k = ground arith

fields_injective :
    {p q : ActionProposal} {k c m r c' m' r' : Str}
    → Scoped p k c m r
    → Scoped q k c' m' r'
    → (c ≡ c') × (m ≡ m') × (r ≡ r')
fields_injective s t =
    let e = sym (key_fields_split s) ∙ key_fields_split t in (cc (e), cc (e), cc (e))

-- Two proposals with one key have the same tool, the same side effect, the same connector, the same mode
-- and the same ref.
pub derive_permission_key_injective :
    (p q : ActionProposal) (k : Str)
    → derive_permission_key p ≡ some k
    → derive_permission_key q ≡ some k
    → (p.tool ≡ q.tool)
      × (p.side_effect ≡ q.side_effect)
      × (p.connector ≡ q.connector)
      × (get_arg (text "mode") p.arguments ≡ get_arg (text "mode") q.arguments)
      × (get_arg (text "ref") p.arguments ≡ get_arg (text "ref") q.arguments)
derive_permission_key_injective p q k hp hq =
    let (c, m, r, s) = derive_permission_key_inv p k hp in
    let (c', m', r', t) = derive_permission_key_inv q k hq in
    let (ec, em, er) = fields_injective s t in
    (
      s.tool_is ∙ sym t.tool_is,
      write_unique p.side_effect q.side_effect s.writes t.writes,
      s.connector_is ∙ ap some ec ∙ sym t.connector_is,
      s.mode_is ∙ ap (λ (x : Str). some (str x)) em ∙ sym t.mode_is,
      s.ref_is ∙ ap (λ (x : Str). some (str x)) er ∙ sym t.ref_is,
    )
