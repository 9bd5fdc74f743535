-- ===== src/RunExecutor/Session.antt =====
-- agent_os/server/run_executor.py: the grants of a session after an execution of its run.
use agent_os_langgraph.Prelude.{
  ℕ, ◌≡◌, refl, ◌∙◌, Bool, true, false, ◌&&◌, ◌||◌, not, Option, none, some, List, is_some,
  is_empty, Bool-cases, Option-cases, inl, inr,
}
use agent_os_langgraph.Text.{Str, str_eq, strip}
use agent_os_langgraph.Policy.Local.Sessions.{Grants, is_granted, is_granted-clear, IsDict}
use agent_os_langgraph.Runs.{Ledger, get_run}
use agent_os_langgraph.Routing.{build_runtime_config}
use agent_os_langgraph.RunExecutor.{
  JsonObject, Snapshot, Happening, Ending, finished, broken, was_stopped, Closing, closed,
  close_failed, close_stopped, conclude, close_run, end_run, left_with, before_closing, run_graph,
  execute_run,
}

module _ (dumps : JsonObject → Str) (loads : Str → Option (Option Str × List Str)) where
  module _ (id : Str) where
    abbrev pub waits_for_human : Ending → Bool
    waits_for_human (finished s) = is_some s.interrupt
    waits_for_human _ = false

    close_run_preserved :
        (ts : ℕ) (c : Closing) (p : Bool × Ledger)
        → (close_run dumps loads id ts c p).preserved ≡ p.0
    close_run_preserved ts closed p = refl
    close_run_preserved ts (close_failed m) p = refl
    close_run_preserved ts close_stopped p = refl

    conclude_preserved :
        (ts : ℕ) (s : Snapshot) (o : Option Str) (l : Ledger)
        → (conclude dumps loads id ts s o l).0 ≡ is_some o
    conclude_preserved ts s none l = refl
    conclude_preserved ts s (some p) l = refl

    before_closing_preserved :
        (ts : ℕ) (e : Ending) (l : Ledger)
        → (before_closing dumps loads id ts e l).0 ≡ waits_for_human e
    before_closing_preserved ts (finished s) l = conclude_preserved ts s s.interrupt l
    before_closing_preserved ts (broken m) l = refl
    before_closing_preserved ts was_stopped l = refl

    end_run_preserved :
        (ts : ℕ) (e : Ending) (c : Closing) (l : Ledger)
        → (end_run dumps loads id ts e c l).preserved ≡ waits_for_human e
    end_run_preserved ts e c l =
        close_run_preserved ts (left_with dumps loads e c) (before_closing dumps loads id ts e l)
        ∙ before_closing_preserved ts e l

    -- An execution of a run that is there clears the grants of its session unless its thread id is blank
    -- or its graph waits for a human, and no other session loses a grant.
    pub is_granted-execute_run :
        (thread_id : Str) (started : ℕ) (hs : List Happening) (ts : ℕ) (e : Ending) (c : Closing)
        (l : Ledger) (g : Grants) (session key : Str)
        → IsDict g
        → is_some (get_run id l) ≡ true
        → is_granted session key (execute_run dumps loads id thread_id started hs ts e c (l, g)).1
          ≡ ((is_empty (strip thread_id) || (waits_for_human e || not (str_eq id session)))
              && is_granted session key g)
    unfolding execute_run run_graph build_runtime_config
    is_granted-execute_run thread_id started hs ts e c l g session key d h =
        elim (Bool-cases (is_empty (strip thread_id))) [
          | inl blank ↦ rw blank refl
          | inr named ↦ rw named (elim (Option-cases (get_run id l)) [
            | inl none_ ↦ absurd (cc (none_, h))
            | inr (r, found) ↦
                rw (found, end_run_preserved)
                  (elim (Bool-cases (waits_for_human e)) [
                    | inl waits ↦ rw waits refl
                    | inr over ↦ rw over (is_granted-clear id g session key d)
                  ])
          ])
        ]
