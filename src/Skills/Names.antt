-- ===== src/Skills/Names.antt =====
-- agent_os/skills.py: the names of a registry.
use agent_os_langgraph.Prelude.{
  ◌≡◌, refl, ◌∙◌, sym, subst, Bool, true, false, ◌||◌, some, List, [], ◌∷◌, ◌++◌, any, ok, arith,
  Bool-cases, ◌⊎◌, inl, inr,
}
use agent_os_langgraph.Text.{Str, str_eq, str_eq_iff, mem_str}
use agent_os_langgraph.Skills.{Skill, answers, has_name, collides, register, search_by}

-- Two skills that have a word in common, the second against the first.
abbrev pub clashes : Skill → Skill → Bool
clashes e s = str_eq s.name e.name || collides s e

-- No two skills of a registry have a word in common.
abbrev pub IsRegistry : List Skill → Type 0
IsRegistry [] = Unit
IsRegistry (e ∷ r) = (any (clashes e) r ≡ false) × IsRegistry r

-- A skill that is registered.
abbrev pub IsIn : Skill → List Skill → Type 0
IsIn s [] = ⊥
IsIn s (e ∷ r) = (s ≡ e) ⊎ IsIn s r

any-mem_str :
    (p : Str → Bool) (w : Str) (ws : List Str) → mem_str w ws ≡ true → p w ≡ true → any p ws ≡ true
unfolding mem_str
any-mem_str p w [] h k = absurd (cc)
any-mem_str p w (x ∷ xs) h k = elim (Bool-cases (str_eq w x)) [
  | inl same ↦
      let e : w ≡ x = (str_eq_iff w x).0 same in
      let q : p x ≡ true = subst (λ (y : Str). p y ≡ true) e k in rw q refl
  | inr differs ↦ ground (arith, any-mem_str p w xs)
]

-- A word of both makes them clash.
pub clashes-answers :
    (w : Str) (e s : Skill) → answers w e ≡ true → answers w s ≡ true → clashes e s ≡ true
unfolding answers collides
clashes-answers w e s h k = elim (Bool-cases (str_eq w s.name)) [
  | inl own ↦
      let q : w ≡ s.name = (str_eq_iff w s.name).0 own in
      let h' = subst (λ (y : Str). str_eq y e.name || mem_str y e.aliases ≡ true) q h in
      ground arith
  | inr other ↦
      let m : mem_str w s.aliases ≡ true = ground arith in
      let a = any-mem_str (λ a. str_eq a e.name || mem_str a e.aliases) w s.aliases m h in
      ground arith
]

any-append :
    (p : Skill → Bool) (r : List Skill) (s : Skill) → any p (r ++ s ∷ []) ≡ (any p r || p s)
any-append p [] s = ground arith
any-append p (e ∷ r) s = ground (arith, any-append p r s)

-- What the two checks find.
pub register-any :
    (s : Skill) (r : List Skill)
    → (has_name s.name r || any (collides s) r) ≡ any (λ e. clashes e s) r
register-any s [] = refl
register-any s (e ∷ r) = ground (arith, register-any s r)

pub register-ok :
    (s : Skill) (r : List Skill)
    → any (λ e. clashes e s) r ≡ false
    → register s r ≡ ok (r ++ s ∷ [])
unfolding register
register-ok s r h = let k = register-any s r in ground arith

pub register_inv :
    (s : Skill) (r r' : List Skill)
    → register s r ≡ ok r'
    → (any (λ e. clashes e s) r ≡ false) × (r' ≡ r ++ s ∷ [])
unfolding register
register_inv s r r' h = let k = register-any s r in ground arith

pub IsRegistry-append :
    (r : List Skill) (s : Skill)
    → IsRegistry r
    → any (λ e. clashes e s) r ≡ false
    → IsRegistry (r ++ s ∷ [])
IsRegistry-append [] s i h = (refl, tt)
IsRegistry-append (e ∷ r) s (a, i) h =
    let b : clashes e s ≡ false = ground arith in
    let c : any (λ e. clashes e s) r ≡ false = ground arith in
    (any-append (clashes e) r s ∙ ground arith, IsRegistry-append r s i c)

-- A registration keeps the registry free of shared words, and adds the skill behind the others.
pub register-IsRegistry :
    (s : Skill) (r r' : List Skill)
    → IsRegistry r
    → register s r ≡ ok r'
    → IsRegistry r' × (r' ≡ r ++ s ∷ [])
register-IsRegistry s r r' i h =
    let (a, e) = register_inv s r r' h in
    (subst (λ (x : List Skill). IsRegistry x) (sym e) (IsRegistry-append r s i a), e)

pub IsIn-append : (s : Skill) (r : List Skill) → IsIn s (r ++ s ∷ [])
IsIn-append s [] = inl refl
IsIn-append s (e ∷ r) = inr (IsIn-append s r)

pub search_by_none :
    (e : Skill) (w : Str) (r : List Skill)
    → answers w e ≡ true
    → any (clashes e) r ≡ false
    → (s : Skill) → IsIn s r
    → answers w s ≡ false
search_by_none e w [] h k s m = elim m [ ]
search_by_none e w (f ∷ r) h k s (inl q) = elim (Bool-cases (answers w s)) [
  | inl hits ↦
      let c = clashes-answers w e s h hits in
      let d : clashes e s ≡ false =
        subst (λ (x : Skill). clashes e x ≡ false) (sym q) (ground arith) in
      absurd (cc)
  | inr misses ↦ misses
]
search_by_none e w (f ∷ r) h k s (inr m) = search_by_none e w r h (ground arith) s m

-- In a registry the skill that answers a word is the one that a search for the word finds.
pub search_by_unique :
    (w : Str) (s : Skill) (r : List Skill)
    → IsRegistry r
    → IsIn s r
    → answers w s ≡ true
    → search_by (answers w) r ≡ some s
search_by_unique w s [] i m h = elim m [ ]
search_by_unique w s (e ∷ r) (a, i) (inl q) h =
    let k : answers w e ≡ true = subst (λ (x : Skill). answers w x ≡ true) q h in rw (k, q) refl
search_by_unique w s (e ∷ r) (a, i) (inr m) h = elim (Bool-cases (answers w e)) [
  | inl hits ↦ let n = search_by_none e w r hits a s m in absurd (cc)
  | inr misses ↦ rw misses (search_by_unique w s r i m h)
]

-- What is registered later does not change what a word finds.
pub search_by_later :
    (p : Skill → Bool) (r later : List Skill) (s : Skill)
    → search_by p r ≡ some s
    → search_by p (r ++ later) ≡ some s
search_by_later p [] later s h = absurd (cc)
search_by_later p (e ∷ r) later s h = ground (arith, search_by_later p r later s)
