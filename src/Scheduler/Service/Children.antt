-- ===== src/Scheduler/Service/Children.antt =====
-- agent_os/scheduler.py, `SchedulerService`: lists of children, and their numbers.
use agent_os_langgraph.Prelude.{
  ℕ, suc, ◌+◌, ◌≤◌, ◌≡◌, refl, ap, true, List, [], ◌∷◌, ◌++◌, all, length, ltb, take, drop, map,
  arith,
}
use agent_os_langgraph.Schedules.{Schedule}
use agent_os_langgraph.Scheduler.Service.{Child, numbered}

pub every_child : (cs : List Child) → all (λ c. true) cs ≡ true
every_child [] = refl
every_child (c ∷ cs) = every_child cs

pub schedules-numbered :
    (n : ℕ) (rows : List Schedule) → map (λ c. c.schedule) (numbered n rows) ≡ rows
schedules-numbered n [] = refl
schedules-numbered n (r ∷ rows) =
    ap (λ (rest : List Schedule). r ∷ rest) (schedules-numbered (suc n) rows)

pub parts_of_all : (cs : List Child) → (take (length cs) cs ≡ cs) × (drop (length cs) cs ≡ [])
parts_of_all [] = (refl, refl)
parts_of_all (c ∷ cs) = let (a, b) = parts_of_all cs in (ap (λ (rest : List Child). c ∷ rest) a, b)

pub parts-append :
    (cs ds : List Child) → (take (length cs) (cs ++ ds) ≡ cs) × (drop (length cs) (cs ++ ds) ≡ ds)
parts-append [] ds = (refl, refl)
parts-append (c ∷ cs) ds =
    let (a, b) = parts-append cs ds in (ap (λ (rest : List Child). c ∷ rest) a, b)

pub none_of_length : (rows : List Schedule) → length rows ≤ 0 → rows ≡ []
none_of_length [] h = refl
none_of_length (r ∷ rows) h = absurd (omega arith)

pub length-numbered : (n : ℕ) (rows : List Schedule) → length (numbered n rows) ≡ length rows
length-numbered n [] = refl
length-numbered n (r ∷ rows) = ap suc (length-numbered (suc n) rows)

pub numbered_fresh :
    (n m : ℕ) (rows : List Schedule)
    → n + length rows ≤ m
    → all (λ c. ltb c.number m) (numbered n rows) ≡ true
numbered_fresh n m [] h = refl
numbered_fresh n m (r ∷ rows) h =
    let rest = numbered_fresh (suc n) m rows (omega arith) in ground arith

pub fresh_append :
    (n m : ℕ) (cs ds : List Child)
    → n ≤ m
    → all (λ c. ltb c.number n) cs ≡ true
    → all (λ c. ltb c.number m) ds ≡ true
    → all (λ c. ltb c.number m) (cs ++ ds) ≡ true
fresh_append n m [] ds l h k = k
fresh_append n m (c ∷ cs) ds l h k =
    let rest = fresh_append n m cs ds l (ground arith) k in ground arith
