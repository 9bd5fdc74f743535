-- ===== src/Strategies.antt =====
-- agent_os/observations.py: the table of strategy assignments.
pub mod Balance
mod Tests
use agent_os_langgraph.Prelude.{
  ℕ, suc, zero, ◌%◌, Bool, true, false, ◌&&◌, ◌||◌, not, Option, none, some, List, [], ◌∷◌, ◌++◌,
  if◌then◌else◌, Result, ok, err, value_error, other, length, ltb, ◌==◌,
}
use agent_os_langgraph.Text.{Str, text, str_eq, mem_str, str_le}

-- `class StrategyAssignment`, a row of `strategy_assignments`; the evidence is its JSON.
pub record StrategyAssignment : Type 0 where
  pub run_id : Str
  pub workspace_id : Str
  pub task_kind : Str
  pub strategy_id : Str
  pub strategy_version : ℕ
  pub selection_reason : Str
  pub selector_version : Str
  pub evidence_summary : Option Str
  pub selected_at : Str

abbrev pub Table : Type 0
Table = List StrategyAssignment

-- `SELECT … WHERE run_id = ?`, then `fetchone()`
unfoldable pub get_strategy_assignment : Str → Table → Option StrategyAssignment
get_strategy_assignment run_id [] = none
get_strategy_assignment run_id (a ∷ t) =
    let rest = get_strategy_assignment run_id t in if str_eq run_id a.run_id then some a else rest

-- The insert of a run that has no row; the id that is returned, and the table.
unfoldable pub assign_row : StrategyAssignment → Table → Str × Table
assign_row new t = elim (get_strategy_assignment new.run_id t) [
  | none ↦ (new.strategy_id, t ++ new ∷ [])
  | some a ↦ (a.strategy_id, t)
]

-- `COUNT(*)` of the rows of one strategy in a workspace, for one kind of task
unfoldable pub count_assigned : Str → Str → Table → Str → ℕ
count_assigned workspace_id task_kind [] strategy_id = 0
count_assigned workspace_id task_kind (a ∷ t) strategy_id =
    let rest = count_assigned workspace_id task_kind t strategy_id in
    if str_eq workspace_id a.workspace_id
      && str_eq task_kind a.task_kind
      && str_eq strategy_id a.strategy_id
    then suc rest
    else rest

-- `min(f(x) for x in xs)` for a sequence that begins with a value
unfoldable pub minimum_of : (Str → ℕ) → ℕ → List Str → ℕ
minimum_of f m [] = m
minimum_of f m (x ∷ xs) = minimum_of f (if ltb (f x) m then f x else m) xs

unfoldable pub insert : Str → List Str → List Str
insert x [] = x ∷ []
insert x (y ∷ ys) = let rest = insert x ys in if str_le x y then x ∷ y ∷ ys else y ∷ rest

-- `sorted(xs)`
unfoldable pub sorted : List Str → List Str
unfolding insert
sorted [] = []
sorted (x ∷ xs) = insert x (sorted xs)

-- The texts with a given value
unfoldable pub tied_at : (Str → ℕ) → ℕ → List Str → List Str
tied_at f m [] = []
tied_at f m (x ∷ xs) = let rest = tied_at f m xs in if f x == m then x ∷ rest else rest

-- `xs[n]`
unfoldable pub item_at : ℕ → List Str → Option Str
item_at n [] = none
item_at zero (x ∷ xs) = some x
item_at (suc n) (x ∷ xs) = item_at n xs

-- The least assigned ones, in their order
unfoldable pub tied_strategies : Str → Str → Table → Str → List Str → List Str
tied_strategies workspace_id task_kind t i is =
    let f = count_assigned workspace_id task_kind t in
    sorted (tied_at f (minimum_of f (f i) is) (i ∷ is))

-- `strategy_versions[strategy_id]`, which must be positive
unfoldable pub version_of : Str → List (Str × ℕ) → Option ℕ
version_of s [] = none
version_of s ((k, v) ∷ vs) = if str_eq s k then some v else version_of s vs

abbrev is_positive : Option ℕ → Bool
is_positive none = false
is_positive (some v) = ltb 0 v

abbrev pub version_or_zero : Option ℕ → ℕ
version_or_zero none = 0
version_or_zero (some v) = v

unfoldable pub are_versioned : List (Str × ℕ) → List Str → Bool
are_versioned vs [] = true
are_versioned vs (s ∷ ss) = is_positive (version_of s vs) && are_versioned vs ss

-- `tied[n % len(tied)]`, which fails on an empty list
abbrev pub pick : ℕ → List Str → Option Str
pick n [] = none
pick n (x ∷ xs) = item_at (n % suc (length xs)) (x ∷ xs)

-- The row that an exploration inserts
unfoldable pub explored : Str → Str → Str → List (Str × ℕ) → Str → Str → Str → StrategyAssignment
explored workspace_id task_kind run_id versions selector_version now selected = record {
  run_id = run_id;
  workspace_id = workspace_id;
  task_kind = task_kind;
  strategy_id = selected;
  strategy_version = version_or_zero (version_of selected versions);
  selection_reason = text "exploration";
  selector_version = selector_version;
  evidence_summary = none;
  selected_at = now;
}

abbrev pub put_explored : Option Str → (Str → StrategyAssignment) → Table → Result (Str × Table)
put_explored none row t = err (other (text "integer modulo by zero"))
put_explored (some s) row t = ok (s, t ++ row s ∷ [])

-- `digest` is the SHA-256 of the workspace, the kind of task and the run, as a number.
module _ (digest : Str → Str → Str → ℕ) where
  -- `assign_balanced_exploration`
  unfoldable pub assign_balanced_exploration :
      Str → Str → Str → List Str → List (Str × ℕ) → Str → Str → Table → Result (Str × Table)
  assign_balanced_exploration w k run_id [] versions v now t =
      err (value_error (text "strategy_ids must not be empty"))
  assign_balanced_exploration w k run_id (i ∷ is) versions v now t =
      if not (are_versioned versions (i ∷ is))
      then err (
          value_error (text "strategy_versions must provide a positive integer for every strategy"))
      else elim (get_strategy_assignment run_id t) [
        | none ↦
            put_explored (pick (digest w k run_id) (tied_strategies w k t i is))
              (explored w k run_id versions v now) t
        | some a ↦ ok (a.strategy_id, t)
      ]
