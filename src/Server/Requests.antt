-- ===== src/Server/Requests.antt =====
-- agent_os/server/api.py: what the requests that approve and cancel a run do to the ledger, the tasks
-- and the grants.
use agent_os_langgraph.Prelude.{
  ℕ, suc, ◌≡◌, refl, ap, ◌∙◌, sym, Bool, true, false, ◌&&◌, not, Option, none, some, List,
  if◌then◌else◌, arith, Bool-cases, ◌⊎◌, inl, inr, length, is_some,
}
use agent_os_langgraph.Text.{Str, text, str_eq, str_eq_iff, str_eq_self, mem_str}
use agent_os_langgraph.Policy.Local.Sessions.{is_granted, is_granted-clear, IsDict}
use agent_os_langgraph.Runs.{
  append_event, Run, Ledger, get_run, with_status, status_is, record_approval_and_transition,
  record_cancellation_and_transition, terminal_run_statuses, cancelled,
}
use agent_os_langgraph.Runs.Transitions.{IsUnique, map_run}
use agent_os_langgraph.Runs.Numbering.{AreNumbered}
use agent_os_langgraph.Runs.Approvals.{
  is_live, record_approval_and_transition_lem, record_cancellation_and_transition_lem,
}
use agent_os_langgraph.RunExecutor.{JsonObject}
use agent_os_langgraph.RunExecutor.Status.{get_run-append_event}
use agent_os_langgraph.Server.{
  Api, Response, not_found, conflict, run_status, Asker, start_run_task, refuse, approval,
  approve_transition, approve_seen, approve_run, resumed, cancellation, terminal_detail, cancel_run,
  cancel_seen, cancel_transition,
}

abbrev pub interrupted_text : Str
interrupted_text = text "interrupted"

running-ne-interrupted : str_eq (text "running") interrupted_text ≡ false
unfolding str_eq text
running-ne-interrupted = refl

-- The run of a request is interrupted in the ledger.
abbrev pub is_waiting : Str → Api → Bool
is_waiting id s = status_is interrupted_text (get_run id s.ledger)

start_run_task_lem :
    (id : Str) (s : Api)
    → let (b, s') = start_run_task id s in
      (b ≡ not (mem_str id s.active))
      × (s'.ledger ≡ s.ledger)
      × (s'.grants ≡ s.grants)
      × (mem_str id s'.active ≡ true)
unfolding start_run_task
start_run_task_lem id s = elim (Bool-cases (mem_str id s.active)) [
  | inl on ↦ rw on (refl, refl, refl, on)
  | inr off ↦ rw off (refl, refl, refl, unfold mem_str in (rw (str_eq_self id) refl))
]

and_left : (a b : Bool) → (a && b) ≡ true → a ≡ true
and_left true b h = refl
and_left false b h = absurd (cc)

running_status :
    (now : ℕ) (x : Str) (o : Option Run)
    → status_is x o ≡ true
    → status_is (text "running") (map_run (with_status (text "running") now none false) o) ≡ true
unfolding with_status
running_status now x none h = absurd (cc)
running_status now x (some r) h = str_eq_self (text "running")

approve_seen_running :
    (id : Str) (now : ℕ) (feedback : Str) (p : Asker) (o : Option Run) (s : Api)
    → status_is (text "running") o ≡ true
    → approve_seen id now feedback p o s ≡ refuse (run_status (text "running")) s
approve_seen_running id now feedback p none s h = absurd (cc)
approve_seen_running id now feedback p (some r) s h =
    let q : text "running" ≡ r.status = (str_eq_iff (text "running") r.status).0 h in
    rw (← q, running-ne-interrupted, str_eq_self (text "running")) refl

module _ (id : Str) (now : ℕ) (feedback : Str) (p : Asker) (s : Api) (u : IsUnique s.ledger.runs)
    (n : AreNumbered s.ledger.approvals) where
  abbrev transition : Bool × Ledger
  transition =
      record_approval_and_transition id now (approval feedback p) interrupted_text (text "running")
        none false s.ledger

  approve_seen_waiting :
      (o : Option Run)
      → status_is interrupted_text o ≡ true
      → approve_seen id now feedback p o s ≡ approve_transition id s transition
  approve_seen_waiting none h = absurd (cc)
  approve_seen_waiting (some r) h =
      let same : str_eq r.status interrupted_text ≡ true =
        (str_eq_iff r.status interrupted_text).1
          (sym ((str_eq_iff interrupted_text r.status).0 h)) in
      rw same refl

  approve_seen_refused :
      (o : Option Run)
      → status_is interrupted_text o ≡ false
      → (r : Response) × (approve_seen id now feedback p o s ≡ refuse r s)
  approve_seen_refused none h = (not_found, refl)
  approve_seen_refused (some r) h = elim (Bool-cases (str_eq r.status interrupted_text)) [
    | inl same ↦
        absurd (
          ground
            (arith, str_eq_iff r.status interrupted_text, str_eq_iff interrupted_text r.status))
    | inr differs ↦ elim (Bool-cases (str_eq r.status (text "running"))) [
      | inl runs ↦ (run_status (text "running"), rw (differs, runs) refl)
      | inr over ↦ (conflict (text "Run is not interrupted"), rw (differs, over) refl)
    ]
  ]

  -- The whole of an approval that reads the ledger as it is.
  approve_run_cases :
      let a = approve_run id now feedback p (get_run id s.ledger) s in
      ((is_waiting id s ≡ true)
        × (transition.0 ≡ true)
        × (a ≡ resumed id (start_run_task id (record s { ledger = transition.1 }))))
      ⊎ ((is_waiting id s ≡ false) × ((r : Response) × (a ≡ refuse r s)))
  unfolding approve_run
  approve_run_cases = elim (Bool-cases (is_waiting id s)) [
    | inl waits ↦
        let (won, r1, r2, r3, r4, r5) =
          record_approval_and_transition_lem id now (approval feedback p) s.ledger u n
            interrupted_text (text "running") none false in
        inl (
          waits,
          won ∙ waits,
          approve_seen_waiting (get_run id s.ledger) waits ∙ rw (won ∙ waits) refl,
        )
    | inr other ↦ inr (other, approve_seen_refused (get_run id s.ledger) other)
  ]

  -- An approval that reads the ledger as it is starts a task exactly if the run is interrupted and has
  -- no task that is not done. It sets the run to running, with one more approval, exactly if the run is
  -- interrupted, and changes no other run.
  pub approve_run_lem :
      let a = approve_run id now feedback p (get_run id s.ledger) s in
      (a.started ≡ (is_waiting id s && not (mem_str id s.active)))
      × (length a.api.ledger.approvals ≡ (
          if is_waiting id s then suc (length s.ledger.approvals) else length s.ledger.approvals))
      × ((j : Str)
          → get_run j a.api.ledger ≡ (
              if str_eq j id && is_waiting id s
              then map_run (with_status (text "running") now none false) (get_run j s.ledger)
              else get_run j s.ledger))
  approve_run_lem = elim approve_run_cases [
    | inl (waits, won, same) ↦
        let (w, kept, count, numbered, unique, found) =
          record_approval_and_transition_lem id now (approval feedback p) s.ledger u n
            interrupted_text (text "running") none false in
        let (b, l, g, m) = start_run_task_lem id (record s { ledger = transition.1 }) in
        rw (same, l, waits, b) (refl, rw won at count, λ j. ground (arith, found j, won))
    | inr (other, (r, same)) ↦ rw (same, other) (refl, refl, λ j. ground arith)
  ]

  -- After an approval that has started a task, another approval of the run starts none, records none and
  -- is told that the run is running.
  pub approve_run_again :
      (now' : ℕ) (feedback' : Str) (p' : Asker)
      → let a = approve_run id now feedback p (get_run id s.ledger) s in
        a.started ≡ true
        → approve_run id now' feedback' p' (get_run id a.api.ledger) a.api
          ≡ refuse (run_status (text "running")) a.api
  unfolding approve_run
  approve_run_again now' feedback' p' h =
      let (started, count, found) = approve_run_lem in
      let waits : is_waiting id s ≡ true = and_left _ _ (sym started ∙ h) in
      approve_seen_running id now' feedback' p' _ _ (
        ap (status_is (text "running")) (found id)
        ∙ rw (str_eq_self id, waits)
            (running_status now interrupted_text (get_run id s.ledger) waits))

module _ (id : Str) (now : ℕ) (p : Asker) (s : Api) (u : IsUnique s.ledger.runs)
    (n : AreNumbered s.ledger.approvals) (dumps : JsonObject → Str)
    (loads : Str → Option (Option Str × List Str)) where
  cancel_seen_live :
      (o : Option Run)
      → is_live o ≡ true
      → cancel_seen dumps loads id now p o s
        ≡ cancel_transition dumps loads id now s
            (record_cancellation_and_transition id now (cancellation p) s.ledger)
  cancel_seen_live none h = absurd (cc)
  cancel_seen_live (some r) h =
      let live : mem_str r.status terminal_run_statuses ≡ false = ground arith in rw live refl

  cancel_seen_over :
      (o : Option Run)
      → is_live o ≡ false
      → cancel_seen dumps loads id now p o s
        ≡ ((if is_some o then terminal_detail else not_found), s)
  cancel_seen_over none h = refl
  cancel_seen_over (some r) h =
      let over : mem_str r.status terminal_run_statuses ≡ true = ground arith in rw over refl

  -- A cancellation request that reads the ledger as it is is not found without the run, and a conflict
  -- if the run is terminal; then nothing changes. Otherwise the run alone becomes cancelled, with one
  -- more approval in the ledger, and no grant of its session is left, while other sessions keep theirs.
  pub cancel_run_lem :
      IsDict s.grants
      → let (r, s') = cancel_run dumps loads id now p (get_run id s.ledger) s in
        let live = is_live (get_run id s.ledger) in
        (r ≡ (
          if live
          then run_status (text "cancelled")
          else if is_some (get_run id s.ledger)
          then terminal_detail
          else not_found))
        × ((live ≡ true) ⊎ (s' ≡ s))
        × (length s'.ledger.approvals
            ≡ (if live then suc (length s.ledger.approvals) else length s.ledger.approvals))
        × ((j : Str)
            → get_run j s'.ledger ≡ (
                if str_eq j id && live
                then map_run (cancelled now) (get_run j s.ledger)
                else get_run j s.ledger))
        × ((session key : Str)
            → is_granted session key s'.grants
              ≡ (not (str_eq id session && live) && is_granted session key s.grants))
  unfolding cancel_run
  cancel_run_lem d = elim (Bool-cases (is_live (get_run id s.ledger))) [
    | inl live ↦
        let (won, r1, r2, r3, r4, found) =
          record_cancellation_and_transition_lem id now (cancellation p) s.ledger u n in
        rw (cancel_seen_live (get_run id s.ledger) live, won ∙ live, live)
          (
            refl,
            inl refl,
            unfold append_event in (r2 ∙ rw (won, live) refl),
            λ j. get_run-append_event id now _ _ _ j ∙ ground (arith, found j, live, won),
            λ session key. is_granted-clear id s.grants session key d ∙ ground arith,
          )
    | inr over ↦
        rw (cancel_seen_over (get_run id s.ledger) over, over)
          (refl, inr refl, refl, λ j. ground arith, λ session key. ground arith)
  ]
