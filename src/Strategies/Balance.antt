-- ===== src/Strategies/Balance.antt =====
-- agent_os/observations.py: which strategy an exploration takes.
use agent_os_langgraph.Prelude.{
  ℕ, suc, zero, ◌≤◌, ◌<◌, ◌%◌, ◌≡◌, refl, ok, ◌++◌, ◌⊎◌, is_empty, Bool, true, false, ◌&&◌, ◌||◌,
  none, some, List, [], ◌∷◌, if◌then◌else◌, length, ltb, leb, all, Bool-cases, inl, inr, arith,
}
use agent_os_langgraph.Text.{str_le, Str, str_eq, str_eq_self, mem_str}
use agent_os_langgraph.Strategies.{
  minimum_of, insert, sorted, tied_at, item_at, pick, Table, are_versioned, get_strategy_assignment,
  assign_balanced_exploration, tied_strategies, explored, count_assigned,
}

both : (a b : Bool) → (a && b) ≡ true → (a ≡ true) × (b ≡ true)
both true b h = (refl, h)
both false b h = absurd (cc)

all-insert :
    (p : Str → Bool) (x : Str) (xs : List Str)
    → p x ≡ true
    → all p xs ≡ true
    → all p (insert x xs) ≡ true
unfolding insert
all-insert p x [] h k = rw h refl
all-insert p x (y ∷ ys) h k =
    let (u, k') = both (p y) (all p ys) k in
    elim (Bool-cases (str_le x y)) [
      | inl v ↦ rw v (rw h k)
      | inr v ↦ rw v (rw u (all-insert p x ys h k'))
    ]

minimum_of_le : (f : Str → ℕ) (m : ℕ) (xs : List Str) → minimum_of f m xs ≤ m
unfolding minimum_of
minimum_of_le f m [] = omega arith
minimum_of_le f m (x ∷ xs) =
    let rest = minimum_of_le f (if ltb (f x) m then f x else m) xs in ground arith

minimum_of_below :
    (f : Str → ℕ) (m : ℕ) (xs : List Str) (k : ℕ)
    → k ≤ minimum_of f m xs
    → all (λ x. leb k (f x)) xs ≡ true
unfolding minimum_of
minimum_of_below f m [] k h = refl
minimum_of_below f m (x ∷ xs) k h =
    let rest = minimum_of_below f (if ltb (f x) m then f x else m) xs k h in
    let least = minimum_of_le f (if ltb (f x) m then f x else m) xs in ground arith

tied_at_nonempty :
    (f : Str → ℕ) (m : ℕ) (xs : List Str)
    → (minimum_of f m xs ≡ m) ⊎ (is_empty (tied_at f (minimum_of f m xs) xs) ≡ false)
unfolding minimum_of tied_at
tied_at_nonempty f m [] = inl refl
tied_at_nonempty f m (x ∷ xs) =
    let rest = tied_at_nonempty f (if ltb (f x) m then f x else m) xs in ground arith

insert_nonempty : (x : Str) (xs : List Str) → is_empty (insert x xs) ≡ false
unfolding insert
insert_nonempty x [] = refl
insert_nonempty x (y ∷ ys) = ground arith

sorted_nonempty : (xs : List Str) → is_empty xs ≡ false → is_empty (sorted xs) ≡ false
unfolding sorted
sorted_nonempty [] h = absurd (cc)
sorted_nonempty (x ∷ xs) h = insert_nonempty x (sorted xs)

all-sorted : (p : Str → Bool) (xs : List Str) → all p xs ≡ true → all p (sorted xs) ≡ true
unfolding sorted
all-sorted p [] h = refl
all-sorted p (x ∷ xs) h =
    let (u, k) = both (p x) (all p xs) h in all-insert p x (sorted xs) u (all-sorted p xs k)

either : (b : Bool) → ((b || true) && true) ≡ true
either true = refl
either false = refl

all-mem :
    (is xs : List Str)
    → all (λ x. mem_str x is) xs ≡ true
    → (y : Str) → all (λ x. mem_str x (y ∷ is)) xs ≡ true
unfolding mem_str
all-mem is [] h y = refl
all-mem is (x ∷ xs) h y =
    let (u, k) = both (mem_str x is) (all (λ x'. mem_str x' is) xs) h in
    rw u (rw (all-mem is xs k y) (either (str_eq x y)))

all-mem_self : (is : List Str) → all (λ x. mem_str x is) is ≡ true
unfolding mem_str
all-mem_self [] = refl
all-mem_self (x ∷ xs) = rw (str_eq_self x) (all-mem xs xs (all-mem_self xs) x)

all-tied_at :
    (p : Str → Bool) (f : Str → ℕ) (m : ℕ) (xs : List Str)
    → all p xs ≡ true
    → all (λ x. p x && leb (f x) m) (tied_at f m xs) ≡ true
unfolding tied_at
all-tied_at p f m [] h = refl
all-tied_at p f m (x ∷ xs) h =
    let (u, h') = both (p x) (all p xs) h in let rest = all-tied_at p f m xs h' in ground arith

item_at_holds :
    (p : Str → Bool) (n : ℕ) (xs : List Str)
    → n < length xs
    → all p xs ≡ true
    → (x : Str) × (item_at n xs ≡ some x) × (p x ≡ true)
unfolding item_at
item_at_holds p n [] l h = absurd (omega arith)
item_at_holds p zero (x ∷ xs) l h = (x, refl, (both (p x) (all p xs) h).0)
item_at_holds p (suc n) (x ∷ xs) l h =
    item_at_holds p n xs (omega arith) (both (p x) (all p xs) h).1

pick_holds :
    (p : Str → Bool) (n : ℕ) (xs : List Str)
    → is_empty xs ≡ false
    → all p xs ≡ true
    → (x : Str) × (pick n xs ≡ some x) × (p x ≡ true)
pick_holds p n [] h k = absurd (cc)
pick_holds p n (x ∷ xs) h k = item_at_holds p (n % suc (length xs)) (x ∷ xs) (omega arith) k

minimum-least :
    (f : Str → ℕ) (i : Str) (is : List Str) (k : ℕ)
    → leb k (minimum_of f (f i) is) ≡ true
    → all (λ j. leb k (f j)) (i ∷ is) ≡ true
minimum-least f i is k h =
    let rest = minimum_of_below f (f i) is k (ground arith) in
    let least = minimum_of_le f (f i) is in rw rest (ground arith)

minimum-reached :
    (f : Str → ℕ) (i : Str) (is : List Str)
    → is_empty (tied_at f (minimum_of f (f i) is) (i ∷ is)) ≡ false
unfolding tied_at
minimum-reached f i is = let found = tied_at_nonempty f (f i) is in ground arith

-- Some strategy among the given ones, with the count of none below its own.
chosen_strategy :
    (n : ℕ) (f : Str → ℕ) (i : Str) (is : List Str)
    → (s : Str) × (pick n (sorted (tied_at f (minimum_of f (f i) is) (i ∷ is))) ≡ some s)
      × (mem_str s (i ∷ is) ≡ true)
      × (all (λ j. leb (f s) (f j)) (i ∷ is) ≡ true)
chosen_strategy n f i is =
    let m = minimum_of f (f i) is in
    let tied = tied_at f m (i ∷ is) in
    let member = all-tied_at (λ x. mem_str x (i ∷ is)) f m (i ∷ is) (all-mem_self (i ∷ is)) in
    let (s, picked, holds) =
      pick_holds (λ x. mem_str x (i ∷ is) && leb (f x) m) n (sorted tied)
        (sorted_nonempty tied (minimum-reached f i is))
        (all-sorted (λ x. mem_str x (i ∷ is) && leb (f x) m) tied member) in
    let (among, least) = both (mem_str s (i ∷ is)) (leb (f s) m) holds in
    (s, picked, among, minimum-least f i is (f s) least)

module _ (digest : Str → Str → Str → ℕ) where
  -- For a run without an assignment, at least one strategy, and a positive version of each: an
  -- exploration returns one of the strategies, and adds exactly its row for the run, where none of
  -- the strategies has fewer assignments in the workspace for this kind of task.
  pub assign_balanced_exploration_lem :
      (w k run_id i : Str) (is : List Str) (versions : List (Str × ℕ)) (v now : Str) (t : Table)
      → are_versioned versions (i ∷ is) ≡ true
      → get_strategy_assignment run_id t ≡ none
      → (s : Str) × (assign_balanced_exploration digest w k run_id (i ∷ is) versions v now t
          ≡ ok (s, t ++ explored w k run_id versions v now s ∷ []))
        × (mem_str s (i ∷ is) ≡ true)
        × (all (λ j. leb (count_assigned w k t s) (count_assigned w k t j)) (i ∷ is) ≡ true)
  unfolding assign_balanced_exploration tied_strategies
  assign_balanced_exploration_lem w k run_id i is versions v now t h new =
      let (s, picked, among, least) =
        chosen_strategy (digest w k run_id) (count_assigned w k t) i is in
      (s, rw h (rw new (rw picked refl)), among, least)
