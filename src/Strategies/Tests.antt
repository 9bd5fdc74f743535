-- ===== src/Strategies/Tests.antt =====
-- Two strategies, the first with one assignment.
use agent_os_langgraph.Prelude.{ℕ, ◌≡◌, refl, true, [], ◌∷◌, ◌++◌, List, ok, all, leb}
use agent_os_langgraph.Text.{Str, text, mem_str}
use agent_os_langgraph.Strategies.{
  StrategyAssignment, Table, assign_balanced_exploration, assign_row, explored, count_assigned,
  sorted,
}
use agent_os_langgraph.Strategies.Balance.{assign_balanced_exploration_lem}

abbrev digest : Str → Str → Str → ℕ
digest w k r = 7

abbrev versions : List (Str × ℕ)
versions = (text "b", 1) ∷ (text "a", 2) ∷ (text "c", 1) ∷ []

abbrev first : StrategyAssignment
first =
    explored (text "w") (text "workflow") (text "r1") versions (text "v1.0") (text "now") (text "b")

abbrev one_row : Table
one_row = first ∷ []

sorted_runs : sorted (text "b" ∷ text "ab" ∷ text "a" ∷ []) ≡ text "a" ∷ text "ab" ∷ text "b" ∷ []
unfolding sorted agent_os_langgraph.Text.str_le text
sorted_runs = refl

least_assigned :
    assign_balanced_exploration digest
      (text "w")
      (text "workflow")
      (text "r2")
      (text "b" ∷ text "c" ∷ text "a" ∷ [])
      versions
      (text "v1.0")
      (text "now")
      one_row
    ≡ ok (
      text "c",
      one_row
          ++ explored
              (text "w")
              (text "workflow")
              (text "r2")
              versions
              (text "v1.0")
              (text "now")
              (text "c")
            ∷ [],
    )
unfolding assign_balanced_exploration agent_os_langgraph.Strategies.are_versioned
    agent_os_langgraph.Strategies.version_of agent_os_langgraph.Text.str_eq text
    agent_os_langgraph.Strategies.get_strategy_assignment explored
    agent_os_langgraph.Strategies.tied_strategies sorted agent_os_langgraph.Strategies.tied_at
    count_assigned agent_os_langgraph.Strategies.minimum_of agent_os_langgraph.Text.str_le
    agent_os_langgraph.Strategies.item_at
least_assigned = refl

assign_row_again :
    assign_row (record first { strategy_id = text "a" }) one_row ≡ (text "b", one_row)
unfolding assign_row agent_os_langgraph.Strategies.get_strategy_assignment
    agent_os_langgraph.Text.str_eq explored text
assign_row_again = refl

assign_balanced_exploration_lem_example :
    (s : Str) × (assign_balanced_exploration digest
        (text "w")
        (text "workflow")
        (text "r2")
        (text "b" ∷ text "c" ∷ text "a" ∷ [])
        versions
        (text "v1.0")
        (text "now")
        one_row
      ≡ ok (
        s,
        one_row
            ++ explored
                (text "w")
                (text "workflow")
                (text "r2")
                versions
                (text "v1.0")
                (text "now")
                s
              ∷ [],
      ))
    × (mem_str s (text "b" ∷ text "c" ∷ text "a" ∷ []) ≡ true)
    × (all
          (λ j.
            leb
              (count_assigned (text "w") (text "workflow") one_row s)
              (count_assigned (text "w") (text "workflow") one_row j))
          (text "b" ∷ text "c" ∷ text "a" ∷ [])
        ≡ true)
unfolding explored agent_os_langgraph.Strategies.are_versioned
    agent_os_langgraph.Strategies.version_of agent_os_langgraph.Text.str_eq text
    agent_os_langgraph.Strategies.get_strategy_assignment
assign_balanced_exploration_lem_example =
    assign_balanced_exploration_lem digest (text "w") (text "workflow") (text "r2") (text "b")
      (text "c" ∷ text "a" ∷ []) versions (text "v1.0") (text "now") one_row refl refl
