-- ===== src/RunExecutor/Status.antt =====
-- agent_os/server/run_executor.py: the status in which an execution leaves its run.
use agent_os_langgraph.Prelude.{
  ℕ, ◌≡◌, refl, ap, ◌∙◌, sym, subst, Bool, true, false, Option, none, some, List, [], ◌∷◌, arith,
  if◌then◌else◌, is_some, is_empty, Bool-cases, Option-cases, ◌⊎◌, inl, inr,
}
use agent_os_langgraph.Text.{Str, text, str_eq, str_eq_self, mem_str, strip}
use agent_os_langgraph.Policy.Local.Sessions.{Grants}
use agent_os_langgraph.Runs.{
  Run, Ledger, Decision, get_run, with_status, append_event, set_status,
  record_cancellation_and_transition, cancelled, terminal_run_statuses,
}
use agent_os_langgraph.Runs.Transitions.{map_run, with_status-id}
use agent_os_langgraph.Runs.Approvals.{record_cancellation_and_transition_lem}
use agent_os_langgraph.Routing.{build_runtime_config}
use agent_os_langgraph.RunExecutor.{
  JsonObject, StreamEvent, Snapshot, Happening, emitted, cancel_requested, Ending, finished, broken,
  was_stopped, Closing, closed, close_failed, close_stopped, append_stream_event, cancel_in_ledger,
  happen, conclude, fail_run, stop_run, end_run, run_graph, execute_run, terminal_tool_failure,
  is_terminal,
}
use agent_os_langgraph.RunExecutor.Writes.{
  IsSound, find_run-set_status, here, updated, Writes-IsSound, stream-Writes,
  cancel_in_ledger-Writes,
}

-- The status of a run that is there.
abbrev pub status_of : Option Run → Option Str
status_of none = none
status_of (some r) = some r.status

abbrev pub is_over : Str → Bool
is_over s = mem_str s terminal_run_statuses

pub status_of-set_status :
    (id : Str) (ts : ℕ) (s : Str) (error : Option Str) (ended : Bool) (l : Ledger) (x : Str)
    → status_of (get_run id l) ≡ some x
    → status_of (get_run id (set_status id ts s error ended l)) ≡ some s
unfolding set_status with_status
status_of-set_status id ts s error ended l x h =
    let q =
      find_run-set_status id (with_status s ts error ended) l.runs id
        (with_status-id s ts error ended) in
    rw (q, str_eq_self id) (ground arith)

pub get_run-append_event :
    (id : Str) (ts : ℕ) (kind payload : Str) (l : Ledger) (j : Str)
    → get_run j (append_event id ts kind payload l).1 ≡ get_run j l
unfolding append_event
get_run-append_event id ts kind payload l j = refl

-- Running, or cancelled meanwhile.
abbrev IsGoing : Str → Ledger → Type 0
IsGoing id l =
    (status_of (get_run id l) ≡ some (text "running"))
    ⊎ (status_of (get_run id l) ≡ some (text "cancelled"))

status_of-cancelled :
    (ts : ℕ) (o : Option Run) (x : Str)
    → status_of o ≡ some x
    → status_of (map_run (cancelled ts) o) ≡ some (text "cancelled")
unfolding cancelled
status_of-cancelled ts none x h = absurd (cc)
status_of-cancelled ts (some r) x h = refl

cancellation-IsGoing :
    (id : Str) (ts : ℕ) (d : Decision) (l : Ledger)
    → IsSound l
    → IsGoing id l
    → IsGoing id (record_cancellation_and_transition id ts d l).1
cancellation-IsGoing id ts d l (u, e, a) g =
    let (won, same, count, a', u', found) = record_cancellation_and_transition_lem id ts d l u a in
    elim same [
      | inl done ↦ inr (
          rw (found id, str_eq_self id, done)
            (elim g [
              | inl r ↦ status_of-cancelled ts (get_run id l) _ r
              | inr c ↦ status_of-cancelled ts (get_run id l) _ c
            ]))
      | inr kept ↦ subst (λ (m : Ledger). IsGoing id m) (sym kept) g
    ]

is_terminal-is_over :
    (o : Option Run) (x : Str)
    → status_of o ≡ some x
    → (elim o [ none ↦ true | some r ↦ is_over r.status ]) ≡ is_over x
is_terminal-is_over none x h = absurd (cc)
is_terminal-is_over (some r) x h = ap is_over (ground arith)

module _ (dumps : JsonObject → Str) (loads : Str → Option (Option Str × List Str)) where
  abbrev pub tool_status : Option (Str × Str) → Str
  tool_status none = text "completed"
  tool_status (some (status, message)) = status

  -- After a stream that ended: waiting for the human, or what the tool result shows.
  abbrev pub snapshot_status : Snapshot → Option Str → Str
  snapshot_status s (some prompt) = text "interrupted"
  snapshot_status s none = tool_status (terminal_tool_failure dumps loads s.tool_result)

  -- The last status, from the endings alone.
  abbrev pub final_status : Ending → Closing → Str
  final_status (finished s) closed = snapshot_status s s.interrupt
  final_status (finished s) (close_failed m) = text "error"
  final_status (finished s) close_stopped =
      let status = snapshot_status s s.interrupt in
      if is_over status then status else text "cancelled"
  final_status (broken m) closed = text "error"
  final_status (broken m) (close_failed n) = text "error"
  final_status (broken m) close_stopped = text "cancelled"
  final_status was_stopped closed = text "cancelled"
  final_status was_stopped (close_failed n) = text "error"
  final_status was_stopped close_stopped = text "cancelled"

  module _ (id : Str) where
    get_run-append_stream_event :
        (ts : ℕ) (e : StreamEvent) (l : Ledger)
        → get_run id (append_stream_event dumps loads id ts e l) ≡ get_run id l
    unfolding append_stream_event append_event
    get_run-append_stream_event ts e l = ground arith

    cancel_in_ledger-IsGoing :
        (ts : ℕ) (d : Decision) (l : Ledger)
        → IsSound l
        → IsGoing id l
        → IsGoing id (cancel_in_ledger dumps loads id ts d l).1
    unfolding cancel_in_ledger append_event
    cancel_in_ledger-IsGoing ts d l s g =
        let k = cancellation-IsGoing id ts d l s g in
        elim (Bool-cases (record_cancellation_and_transition id ts d l).0) [
          | inl won ↦ rw won k
          | inr lost ↦ rw lost k
        ]

    happen-IsGoing :
        (hs : List Happening) (l : Ledger)
        → IsSound l
        → IsGoing id l
        → IsGoing id (happen dumps loads id hs l)
    unfolding happen
    happen-IsGoing [] l s g = g
    happen-IsGoing (emitted ts e ∷ hs) l s g =
        happen-IsGoing hs _ (Writes-IsSound (stream-Writes dumps loads id ts e l l here) s).0
          (rw (get_run-append_stream_event ts e l) g)
    happen-IsGoing (cancel_requested ts d ∷ hs) l s g =
        happen-IsGoing hs _
          (Writes-IsSound (cancel_in_ledger-Writes dumps loads id ts d l l here) s).0
          (cancel_in_ledger-IsGoing ts d l s g)

    fail_run_status :
        (ts : ℕ) (m : Str) (l : Ledger) (x : Str)
        → status_of (get_run id l) ≡ some x
        → status_of (get_run id (fail_run dumps loads id ts m l)) ≡ some (text "error")
    unfolding fail_run
    fail_run_status ts m l x h = status_of-set_status id ts _ _ _ _ x (rw get_run-append_event h)

    stop_run_status :
        (ts : ℕ) (l : Ledger) (x : Str)
        → status_of (get_run id l) ≡ some x
        → status_of (get_run id (stop_run dumps loads id ts l))
          ≡ some (if is_over x then x else text "cancelled")
    unfolding stop_run append_event
    stop_run_status ts l x h =
        let t : is_terminal dumps loads (get_run id l) ≡ is_over x =
          is_terminal-is_over (get_run id l) x h in
        elim (Bool-cases (is_over x)) [
          | inl over ↦ rw (t, over) h
          | inr going ↦ rw (t, going) (status_of-set_status id ts _ _ _ l x h)
        ]

    conclude_status :
        (ts : ℕ) (s : Snapshot) (o : Option Str) (l : Ledger) (x : Str)
        → status_of (get_run id l) ≡ some x
        → status_of (get_run id (conclude dumps loads id ts s o l).1) ≡ some (snapshot_status s o)
    conclude_status ts s (some prompt) l x h =
        status_of-set_status id ts _ _ _ _ x (rw get_run-append_event h)
    conclude_status ts s none l x h =
        elim (Option-cases (terminal_tool_failure dumps loads s.tool_result)) [
          | inl e ↦ rw e (status_of-set_status id ts _ _ _ _ x (rw get_run-append_event h))
          | inr ((status, message), e) ↦
              rw e (status_of-set_status id ts _ _ _ _ x (rw get_run-append_event h))
        ]

    failed_status :
        (ts : ℕ) (m : Str) (l : Ledger)
        → IsGoing id l
        → status_of (get_run id (fail_run dumps loads id ts m l)) ≡ some (text "error")
    failed_status ts m l g = elim g [
      | inl r ↦ fail_run_status ts m l _ r
      | inr r ↦ fail_run_status ts m l _ r
    ]

    stopped_status :
        (ts : ℕ) (l : Ledger)
        → IsGoing id l
        → status_of (get_run id (stop_run dumps loads id ts l)) ≡ some (text "cancelled")
    stopped_status ts l g = elim g [
      | inl r ↦ stop_run_status ts l _ r ∙ (unfold text str_eq mem_str in refl)
      | inr r ↦ stop_run_status ts l _ r ∙ (unfold text str_eq mem_str in refl)
    ]

    end_run_status :
        (ts : ℕ) (e : Ending) (c : Closing) (l : Ledger)
        → IsGoing id l
        → status_of (get_run id (end_run dumps loads id ts e c l).ledger) ≡ some (final_status e c)
    end_run_status ts (finished s) closed l g = elim g [
      | inl r ↦ conclude_status ts s s.interrupt l _ r
      | inr r ↦ conclude_status ts s s.interrupt l _ r
    ]
    end_run_status ts (finished s) (close_failed m) l g = elim g [
      | inl r ↦ fail_run_status ts m _ _ (conclude_status ts s s.interrupt l _ r)
      | inr r ↦ fail_run_status ts m _ _ (conclude_status ts s s.interrupt l _ r)
    ]
    end_run_status ts (finished s) close_stopped l g = elim g [
      | inl r ↦ stop_run_status ts _ _ (conclude_status ts s s.interrupt l _ r)
      | inr r ↦ stop_run_status ts _ _ (conclude_status ts s s.interrupt l _ r)
    ]
    end_run_status ts (broken m) closed l g = failed_status ts m l g
    end_run_status ts (broken m) (close_failed n) l g = failed_status ts n l g
    end_run_status ts (broken m) close_stopped l g = stopped_status ts l g
    end_run_status ts was_stopped closed l g = stopped_status ts l g
    end_run_status ts was_stopped (close_failed n) l g = failed_status ts n l g
    end_run_status ts was_stopped close_stopped l g = stopped_status ts l g

    -- Where the ledger is sound, an execution of a run that is there leaves it in the status that its
    -- ending shows: interrupted or what the tool result says after a stream that ended, error after an
    -- exception, and cancelled after a stop, where an exception or a stop of the closing checkpointer
    -- comes in place of the graph's, and a stop leaves a terminal status. A cancellation that was
    -- recorded during the stream makes no difference to it. Where the thread id is blank the status
    -- stays as it was.
    pub execute_run-final_status :
        (thread_id : Str) (started : ℕ) (hs : List Happening) (ts : ℕ) (e : Ending) (c : Closing)
        (l : Ledger) (g : Grants)
        → IsSound l
        → is_some (get_run id l) ≡ true
        → status_of (get_run id (execute_run dumps loads id thread_id started hs ts e c (l, g)).0)
          ≡ (if is_empty (strip thread_id)
              then status_of (get_run id l)
              else some (final_status e c))
    unfolding execute_run run_graph build_runtime_config
    execute_run-final_status thread_id started hs ts e c l g s h =
        elim (Bool-cases (is_empty (strip thread_id))) [
          | inl blank ↦ rw blank refl
          | inr named ↦ rw named (elim (Option-cases (get_run id l)) [
            | inl none_ ↦ absurd (cc (none_, h))
            | inr (r, found) ↦ rw found (
                end_run_status ts e c _ (
                  happen-IsGoing hs _
                    (Writes-IsSound (updated started (text "running") none false here) s).0
                    (inl (status_of-set_status id started _ _ _ l r.status (rw found refl)))))
          ])
        ]
