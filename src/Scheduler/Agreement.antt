-- ===== src/Scheduler/Agreement.antt =====
-- agent_os/scheduler.py, `dispatch_schedule`: a run that a schedule started.
use agent_os_langgraph.Prelude.{
  ℕ, ◌≡◌, refl, ap, ◌∙◌, sym, Bool, true, false, Option, none, some, List, ◌++◌, arith,
  if◌then◌else◌, is_some, is_empty, Result-cases, inl, inr,
}
use agent_os_langgraph.Text.{Str, text, str_eq_self, strip}
use agent_os_langgraph.Runs.{Run, create_run, get_run, creator}
use agent_os_langgraph.Runs.Creation.{create_run_lem, create_run_rest}
use agent_os_langgraph.Routing.{build_runtime_config}
use agent_os_langgraph.RunExecutor.{JsonObject}
use agent_os_langgraph.RunExecutor.Writes.{IsSound}
use agent_os_langgraph.RunExecutor.Status.{
  status_of, status_of-set_status, get_run-append_event, final_status, execute_run-final_status,
}
use agent_os_langgraph.Scheduler.Results.{status_told}
use agent_os_langgraph.Scheduler.{
  World, Work, Execution, Dispatched, reports, shut_down, run_result, after_run, dispatch_run,
}

module _ (dumps : JsonObject → Str) (loads : Str → Option (Option Str × List Str))
    (show : ℕ → Str) where
  abbrev ShowsStatus : Str → Str → Dispatched → Type 0
  ShowsStatus run_id s (w, o) =
      (status_of (get_run run_id w.ledger) ≡ some (status_told o))
      × (status_told o ≡ (if is_some o then s else text "error"))

  run_result_status :
      (run_id : Str) (o : Option Run) (s : Str)
      → status_of o ≡ some s
      → (run_result dumps loads show run_id o).status ≡ s
  run_result_status run_id none s h = absurd (cc)
  run_result_status run_id (some r) s h = ground arith

  after_run-ShowsStatus :
      (now : ℕ) (id run_id : Str) (b : Bool) (w : World) (s : Str)
      → status_of (get_run run_id w.ledger) ≡ some s
      → ShowsStatus run_id s (after_run dumps loads show now id run_id b w)
  unfolding shut_down reports
  after_run-ShowsStatus now id run_id true w s h =
      (status_of-set_status run_id now _ _ _ _ s (rw get_run-append_event h), refl)
  after_run-ShowsStatus now id run_id false w s h =
      let q = run_result_status run_id (get_run run_id w.ledger) s h in
      (h ∙ ap (λ (x : Str). some x) (sym q), q)

  -- Where the ledger is sound, the new id is free and the thread id is not blank, the run that a schedule starts ends in the status
  -- that the dispatch reports, which is the one that the ending of the execution shows, or an error
  -- where the dispatch was stopped.
  pub dispatch_run_agrees :
      (now : ℕ) (id : Str) (p : Work) (x : Execution) (w : World)
      → IsSound w.ledger
      → is_some (get_run x.run_id w.ledger) ≡ false
      → is_empty (strip x.thread_id) ≡ false
      → let (w', o) = dispatch_run dumps loads show now id p x w in
        (status_of (get_run x.run_id w'.ledger) ≡ some (status_told o))
        × (status_told o
            ≡ (if is_some o then final_status dumps loads x.ending x.closing else text "error"))
  unfolding dispatch_run build_runtime_config
  dispatch_run_agrees now id p x w (u, n, a) free named =
      elim (Result-cases (
        create_run x.run_id x.created x.thread_id p.workspace (some p.task) p.workspace
          (creator (some (text "schedule:" ++ id, text "schedule")) none none) w.ledger)) [
            | inl ((run_id, l), e) ↦
                let (same, fresh, queued, found, u') =
                  create_run_lem x.run_id x.created x.thread_id p.workspace (some p.task)
                    p.workspace (creator (some (text "schedule:" ++ id, text "schedule")) none none)
                    w.ledger u e in
                let (ev, as_) =
                  create_run_rest x.run_id x.created x.thread_id p.workspace (some p.task)
                    p.workspace (creator (some (text "schedule:" ++ id, text "schedule")) none none)
                    w.ledger e in
                rw (e, same, named)
                  (after_run-ShowsStatus now id x.run_id _ _
                    (final_status dumps loads x.ending x.closing)
                    (execute_run-final_status dumps loads x.run_id x.thread_id x.started
                        x.happenings x.ended x.ending x.closing l w.grants (u', rw ev n, rw as_ a)
                        (rw (found x.run_id, str_eq_self x.run_id) refl)
                      ∙ rw named refl))
            | inr (f, e) ↦ absurd (unfold create_run in (ground (arith, e, free)))
          ]
