-- ===== src/RunExecutor/Writes.antt =====
-- agent_os/server/run_executor.py: the writes of one execution to the ledger, as a relation.
use agent_os_langgraph.Prelude.{
  ℕ, ◌≡◌, refl, Bool, true, false, ◌&&◌, not, Option, none, some, List, [], ◌∷◌, arith,
  if◌then◌else◌, Bool-cases, ◌⊎◌, inl, inr, is_empty,
}
use agent_os_langgraph.Text.{Str, text, str_eq, str_eq_iff}
use agent_os_langgraph.Policy.Local.Sessions.{Grants}
use agent_os_langgraph.Runs.{
  Run, Ledger, Decision, find_run, get_run, update_where, with_status, append_event, set_status,
  record_cancellation_and_transition, cancel_found,
}
use agent_os_langgraph.Runs.Numbering.{IsNumbered, AreNumbered, append_event-IsNumbered}
use agent_os_langgraph.Runs.Transitions.{IsUnique, map_run, with_status-id, update_where-IsUnique}
use agent_os_langgraph.Runs.Approvals.{record_cancellation_and_transition_lem}
use agent_os_langgraph.Routing.{build_runtime_config}
use agent_os_langgraph.RunExecutor.{
  JsonObject, StreamEvent, Snapshot, Happening, emitted, cancel_requested, Ending, finished, broken,
  was_stopped, Closing, closed, close_failed, close_stopped, append_stream_event, cancel_in_ledger,
  happen, set_terminal, conclude, fail_run, stop_run, close_run, end_run, run_found, run_graph,
  execute_run, left_with, is_raised, is_node_event, or_empty,
}

-- One event after another, a new status, or a cancellation, all of the same run.
pub data Writes (id : Str) (l : Ledger) : Ledger → Type 0 where
  here : Writes id l l
  appended :
      {m : Ledger} (ts : ℕ) (kind payload : Str)
      → Writes id l m
      → Writes id l (append_event id ts kind payload m).1
  updated :
      {m : Ledger} (ts : ℕ) (s : Str) (error : Option Str) (ended : Bool)
      → Writes id l m
      → Writes id l (set_status id ts s error ended m)
  cancel_decided :
      {m : Ledger} (ts : ℕ) (d : Decision)
      → Writes id l m
      → Writes id l (record_cancellation_and_transition id ts d m).1

-- No id stands twice, and the events and the approvals of every run are numbered without gaps.
abbrev pub IsSound : Ledger → Type 0
IsSound l = IsUnique l.runs × IsNumbered l.events × AreNumbered l.approvals

pub find_run-set_status :
    (id : Str) (f : Run → Run) (rs : List Run) (j : Str)
    → ((r : Run) → (f r).run_id ≡ r.run_id)
    → find_run j (update_where (λ r. str_eq id r.run_id) f rs).1
      ≡ (if str_eq j id then map_run f (find_run j rs) else find_run j rs)
unfolding find_run update_where
find_run-set_status id f [] j k = ground arith
find_run-set_status id f (r ∷ rs) j k = ground (
  arith,
  find_run-set_status id f rs j k,
  k r,
  str_eq_iff id r.run_id,
  str_eq_iff j r.run_id,
  str_eq_iff j id,
)

append_event_rest :
    (id : Str) (ts : ℕ) (kind payload : Str) (l : Ledger)
    → ((append_event id ts kind payload l).1.runs ≡ l.runs)
      × ((append_event id ts kind payload l).1.approvals ≡ l.approvals)
unfolding append_event
append_event_rest id ts kind payload l = (refl, refl)

cancel_found_events :
    (id : Str) (ts : ℕ) (d : Decision) (l : Ledger) (o : Option Run)
    → (cancel_found id ts d l o).1.events ≡ l.events
cancel_found_events id ts d l none = refl
cancel_found_events id ts d l (some r) = ground arith

cancellation_events :
    (id : Str) (ts : ℕ) (d : Decision) (l : Ledger)
    → (record_cancellation_and_transition id ts d l).1.events ≡ l.events
unfolding record_cancellation_and_transition
cancellation_events id ts d l = cancel_found_events id ts _ l (find_run id l.runs)

pub set_status_parts :
    (id : Str) (ts : ℕ) (s : Str) (error : Option Str) (ended : Bool) (l : Ledger)
    → IsUnique l.runs
    → let l' = set_status id ts s error ended l in
      IsUnique l'.runs
      × (l'.events ≡ l.events)
      × (l'.approvals ≡ l.approvals)
      × ((j : Str)
          → get_run j l' ≡ (
              if str_eq j id
              then map_run (with_status s ts error ended) (get_run j l)
              else get_run j l))
unfolding set_status
set_status_parts id ts s error ended l u =
    let f = with_status s ts error ended in
    let k = with_status-id s ts error ended in
    (
      update_where-IsUnique (λ r. str_eq id r.run_id) f l.runs k u,
      refl,
      refl,
      λ j. find_run-set_status id f l.runs j k,
    )

if-Writes :
    {id : Str} {l m n : Ledger} (b : Bool)
    → Writes id l m
    → Writes id l n
    → Writes id l (if b then m else n)
if-Writes true v w = v
if-Writes false v w = w

-- Every write keeps a sound ledger sound, and leaves the other runs alone.
pub Writes-IsSound :
    {id : Str} {l m : Ledger}
    → Writes id l m
    → IsSound l
    → IsSound m × ((j : Str) → (str_eq j id ≡ true) ⊎ (get_run j m ≡ get_run j l))
Writes-IsSound here s = (s, λ j. inr refl)
Writes-IsSound {id} {l} {m} (appended {m = n} ts kind payload w) s =
    let ((u, e, a), o) = Writes-IsSound w s in
    let (rs, as_) = append_event_rest id ts kind payload n in
    ((rw rs u, (append_event-IsNumbered id ts kind payload n e).1, rw as_ a), λ j. rw rs (o j))
Writes-IsSound {id} {l} {m} (updated {m = n} ts st error ended w) s =
    let ((u, e, a), o) = Writes-IsSound w s in
    let (u', e', a', q) = set_status_parts id ts st error ended n u in
    ((u', rw e' e, rw a' a), λ j. ground (arith, o j, q j))
Writes-IsSound {id} {l} {m} (cancel_decided {m = n} ts d w) s =
    let ((u, e, a), o) = Writes-IsSound w s in
    let (won, same, count, a', u', found) = record_cancellation_and_transition_lem id ts d n u a in
    ((u', rw (cancellation_events id ts d n) e, a'), λ j. ground (arith, o j, found j))

-- What an execution does is such a list of writes.
module _ (dumps : JsonObject → Str) (loads : Str → Option (Option Str × List Str)) (id : Str) where
  pub stream-Writes :
      (ts : ℕ) (e : StreamEvent) (l m : Ledger)
      → Writes id l m
      → Writes id l (append_stream_event dumps loads id ts e m)
  unfolding append_stream_event
  stream-Writes ts e l m w = elim (Bool-cases (is_node_event e)) [
    | inl node ↦ rw node (appended ts _ _ w)
    | inr other ↦ rw other (
        if-Writes
          (str_eq e.event (text "on_chat_model_stream") && not (is_empty (or_empty e.content)))
          (appended ts _ _ w) w)
  ]

  pub cancel_in_ledger-Writes :
      (ts : ℕ) (d : Decision) (l m : Ledger)
      → Writes id l m
      → Writes id l (cancel_in_ledger dumps loads id ts d m).1
  unfolding cancel_in_ledger
  cancel_in_ledger-Writes ts d l m w =
      elim (Bool-cases (record_cancellation_and_transition id ts d m).0) [
        | inl won ↦ rw won (appended ts _ _ (cancel_decided ts d w))
        | inr lost ↦ rw lost (cancel_decided ts d w)
      ]

  happen-Writes :
      (hs : List Happening) (l m : Ledger)
      → Writes id l m
      → Writes id l (happen dumps loads id hs m)
  unfolding happen
  happen-Writes [] l m w = w
  happen-Writes (emitted ts e ∷ hs) l m w = happen-Writes hs l _ (stream-Writes ts e l m w)
  happen-Writes (cancel_requested ts d ∷ hs) l m w =
      happen-Writes hs l _ (cancel_in_ledger-Writes ts d l m w)

  set_terminal-Writes :
      (ts : ℕ) (o : Option (Str × Str)) (l m : Ledger)
      → Writes id l m
      → Writes id l (set_terminal dumps loads id ts o m)
  set_terminal-Writes ts none l m w = updated ts _ _ _ w
  set_terminal-Writes ts (some (s, e)) l m w = updated ts _ _ _ w

  conclude-Writes :
      (ts : ℕ) (s : Snapshot) (o : Option Str) (l m : Ledger)
      → Writes id l m
      → Writes id l (conclude dumps loads id ts s o m).1
  conclude-Writes ts s (some p) l m w = updated ts _ _ _ (appended ts _ _ w)
  conclude-Writes ts s none l m w = set_terminal-Writes ts _ l _ (appended ts _ _ w)

  fail_run-Writes :
      (ts : ℕ) (e : Str) (l m : Ledger)
      → Writes id l m
      → Writes id l (fail_run dumps loads id ts e m)
  unfolding fail_run
  fail_run-Writes ts e l m w = updated ts _ _ _ (appended ts _ _ w)

  stop_run-Writes :
      (ts : ℕ) (l m : Ledger) → Writes id l m → Writes id l (stop_run dumps loads id ts m)
  unfolding stop_run
  stop_run-Writes ts l m w = if-Writes _ w (appended ts _ _ (updated ts _ _ _ w))

  close_run-Writes :
      (ts : ℕ) (c : Closing) (l : Ledger) (b : Bool) (m : Ledger)
      → Writes id l m
      → Writes id l (close_run dumps loads id ts c (b, m)).ledger
  close_run-Writes ts closed l b m w = w
  close_run-Writes ts (close_failed e) l b m w = fail_run-Writes ts e l m w
  close_run-Writes ts close_stopped l b m w = stop_run-Writes ts l m w

  end_run-Writes :
      (ts : ℕ) (e : Ending) (c : Closing) (l m : Ledger)
      → Writes id l m
      → Writes id l (end_run dumps loads id ts e c m).ledger
  end_run-Writes ts (finished s) c l m w =
      close_run-Writes ts c l _ _ (conclude-Writes ts s s.interrupt l m w)
  end_run-Writes ts (broken e) c l m w =
      close_run-Writes ts (left_with dumps loads (broken e) c) l false m w
  end_run-Writes ts was_stopped c l m w =
      close_run-Writes ts (left_with dumps loads was_stopped c) l false m w

  run_found-Writes :
      (started : ℕ) (hs : List Happening) (ts : ℕ) (e : Ending) (c : Closing) (l : Ledger)
      (o : Option Run)
      → Writes id l (run_found dumps loads id started hs ts e c l o).ledger
  run_found-Writes started hs ts e c l none = fail_run-Writes ts _ l l here
  run_found-Writes started hs ts e c l (some r) =
      end_run-Writes ts e c l _ (happen-Writes hs l _ (updated started _ _ _ here))

  -- An execution keeps the ledger sound: no id twice, and the events and approvals of every run
  -- numbered without gaps; and it leaves the rows of all other runs as they are.
  pub execute_run-IsSound :
      (thread_id : Str) (started : ℕ) (hs : List Happening) (ts : ℕ) (e : Ending) (c : Closing)
      (l : Ledger) (g : Grants)
      → IsSound l
      → let (l', g') = execute_run dumps loads id thread_id started hs ts e c (l, g) in
        IsSound l' × ((j : Str) → (str_eq j id ≡ true) ⊎ (get_run j l' ≡ get_run j l))
  unfolding execute_run run_graph
  execute_run-IsSound thread_id started hs ts e c l g s =
      elim (Bool-cases (is_raised (build_runtime_config thread_id))) [
        | inl raised ↦ rw raised (s, λ j. inr refl)
        | inr fine ↦
            rw fine (Writes-IsSound (run_found-Writes started hs ts e c l (get_run id l)) s)
      ]
