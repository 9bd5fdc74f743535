-- ===== src/Skills/Batch.antt =====
-- agent_os/skills.py, `register_many`: a batch against one registration after another.
use agent_os_langgraph.Prelude.{
  ◌≡◌, refl, ◌∙◌, sym, ap, subst, Bool, false, Result, err, Error, List, [], ◌∷◌, ◌++◌, any, ok,
  arith, inl, inr, Result-cases,
}
use agent_os_langgraph.Skills.{
  Skill, register, register_each, register_many, put_skill, put_each, after_trial,
}
use agent_os_langgraph.Skills.Names.{
  clashes, IsRegistry, register-ok, register_inv, register-IsRegistry,
}

pub append_assoc : (a b : List Skill) (s : Skill) → (a ++ s ∷ []) ++ b ≡ a ++ s ∷ b
append_assoc [] b s = refl
append_assoc (x ∷ a) b s = ap (λ (r : List Skill). x ∷ r) (append_assoc a b s)

pub append_nil : (a : List Skill) → a ++ [] ≡ a
append_nil [] = refl
append_nil (x ∷ a) = ap (λ (r : List Skill). x ∷ r) (append_nil a)

any_front :
    (p : Skill → Bool) (r : List Skill) (s : Skill) (b : List Skill)
    → any p (r ++ s ∷ b) ≡ false
    → p s ≡ false
any_front p [] s b h = ground arith
any_front p (e ∷ r) s b h = any_front p r s b (ground arith)

no_clash_in_front :
    (r : List Skill) (s : Skill) (b : List Skill)
    → IsRegistry (r ++ s ∷ b)
    → any (λ e. clashes e s) r ≡ false
no_clash_in_front [] s b i = refl
no_clash_in_front (e ∷ r) s b (a, i) =
    let k = no_clash_in_front r s b i in let m = any_front (clashes e) r s b a in ground arith

register_each_next :
    (s : Skill) (ss r r' : List Skill)
    → register s r ≡ ok r'
    → register_each (s ∷ ss) r ≡ register_each ss r'
unfolding register_each
register_each_next s ss r r' e = rw (register_each, e) refl

register_each_raises :
    (s : Skill) (ss r : List Skill) (x : Error)
    → register s r ≡ err x
    → register_each (s ∷ ss) r ≡ (err x, r)
unfolding register_each
register_each_raises s ss r x e = rw (register_each, e) refl

-- A registry can be built again, one skill after the other.
register_each_again : (r a : List Skill) → IsRegistry (a ++ r) → register_each r a ≡ (ok tt, a ++ r)
unfolding register_each
register_each_again [] a i = ap (λ (x : List Skill). (ok tt, x)) (sym (append_nil a))
register_each_again (s ∷ r) a i =
    register_each_next s r a _ (register-ok s a (no_clash_in_front a s r i))
    ∙ (register_each_again r (a ++ s ∷ [])
          (subst (λ (x : List Skill). IsRegistry x) (sym (append_assoc a r s)) i)
        ∙ ap (λ (x : List Skill). (ok tt, x)) (append_assoc a r s))

put_skill_new :
    (s : Skill) (r : List Skill) → any (λ e. clashes e s) r ≡ false → put_skill s r ≡ r ++ s ∷ []
unfolding put_skill
put_skill_new s [] h = refl
put_skill_new s (e ∷ r) h = ground (arith, put_skill_new s r)

put_each-register :
    (ss r full : List Skill) → register_each ss r ≡ (ok tt, full) → put_each ss r ≡ full
unfolding register_each
put_each-register [] r full h = cc
put_each-register (s ∷ ss) r full h = elim (Result-cases (register s r)) [
  | inl (r', e) ↦
      let (a, q) = register_inv s r r' e in
      let k : register_each ss r' ≡ (ok tt, full) = ground (arith, e) in
      ap (λ (x : List Skill). put_each ss x) (put_skill_new s r a ∙ sym q)
      ∙ put_each-register ss r' full k
  | inr (x, e) ↦ absurd (ground (arith, e))
]

-- The outcome of a loop that is undone where it raises.
abbrev pub all_or_nothing :
    List Skill → Result (Unit {0}) × List Skill → Result (Unit {0}) × List Skill
all_or_nothing r (err e, partial) = (err e, r)
all_or_nothing r (ok done, full) = (ok tt, full)

-- On a registry, a batch succeeds and leaves the registry that registering its skills one after the
-- other leaves; where one of these registrations raises, the batch raises the same exception, and
-- leaves the registry as it was, without the skills that were registered before.
pub register_many-register_each :
    (ss r : List Skill) → IsRegistry r → register_many ss r ≡ all_or_nothing r (register_each ss r)
unfolding register_many
register_many-register_each ss r i = rw (register_each_again r [] i) (go (register_each ss r) refl)
  where
    go :
        (p : Result (Unit {0}) × List Skill)
        → register_each ss r ≡ p
        → after_trial ss r p ≡ all_or_nothing r p
    go (err e, partial) h = refl
    go (ok done, full) h = ap (λ (x : List Skill). (ok tt, x)) (put_each-register ss r full h)

-- However a loop of registrations ends, it leaves a registry.
pub register_each-IsRegistry :
    (ss r : List Skill) → IsRegistry r → IsRegistry (register_each ss r).1
register_each-IsRegistry [] r i = unfold register_each in i
register_each-IsRegistry (s ∷ ss) r i = elim (Result-cases (register s r)) [
  | inl (r', e) ↦
      let (j, q) = register-IsRegistry s r r' i e in
      rw (register_each_next s ss r r' e) (register_each-IsRegistry ss r' j)
  | inr (x, e) ↦ rw (register_each_raises s ss r x e) i
]
