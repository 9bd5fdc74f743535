-- ===== src/Runs.antt =====
-- agent_os/runs.py: the run ledger, one function on its three tables for each function of the module.
-- Each call is one transaction; what SQLite itself may raise is not modelled.
pub mod Approvals
pub mod Numbering
pub mod Transitions
pub mod Creation
mod Tests
use agent_os_langgraph.Prelude.{
  ℕ, ◌+◌, ◌≡◌, refl, Bool, true, false, ◌&&◌, not, Option, none, some, List, [], ◌∷◌, ◌++◌, ltb,
  leb, ◌==◌, if◌then◌else◌, Result, ok, err, other, key_error, is_some, select, length,
}
use agent_os_langgraph.Text.{Str, text, str_eq, mem_str}

-- A row of `runs`. A status is a text; times are counted from any origin.
pub record Run : Type 0 where
  pub run_id : Str
  pub thread_id : Str
  pub workspace : Option Str
  pub workspace_id : Option Str
  pub status : Str
  pub task : Option Str
  pub created_by : Option Str
  pub created_by_kind : Option Str
  pub created_at : ℕ
  pub updated_at : ℕ
  pub ended_at : Option ℕ
  pub error : Option Str

-- A row of `run_events`; the payload is its JSON.
pub record RunEvent : Type 0 where
  pub run_id : Str
  pub seq : ℕ
  pub ts : ℕ
  pub kind : Str
  pub payload : Str

-- A row of `run_approvals`.
pub record Approval : Type 0 where
  pub run_id : Str
  pub seq : ℕ
  pub decision : Str
  pub actor_id : Str
  pub actor_kind : Str
  pub on_behalf_of : Option Str
  pub reason : Option Str
  pub decided_at : ℕ

pub record Ledger : Type 0 where
  pub runs : List Run
  pub events : List RunEvent
  pub approvals : List Approval

-- `TERMINAL_RUN_STATUSES`
abbrev pub terminal_run_statuses : List Str
terminal_run_statuses = text "completed" ∷ text "error" ∷ text "cancelled" ∷ []

abbrev pub first_of_ : Option Str → Option Str → Option Str
first_of_ none b = b
first_of_ (some a) b = some a

-- `SELECT * FROM runs WHERE run_id = ?`
unfoldable pub find_run : Str → List Run → Option Run
find_run id [] = none
find_run id (r ∷ rs) = if str_eq id r.run_id then some r else find_run id rs

-- `UPDATE runs SET … WHERE …`, with the number of rows that it changed
unfoldable pub update_where : (Run → Bool) → (Run → Run) → List Run → ℕ × List Run
update_where p f [] = (0, [])
update_where p f (r ∷ rs) =
    let (n, rs') = update_where p f rs in if p r then (n + 1, f r ∷ rs') else (n, r ∷ rs')

abbrev pub get_run : Str → Ledger → Option Run
get_run id l = find_run id l.runs

-- The principal names who created a run; without it the two arguments do.
pub record Creator : Type 0 where
  pub created_by : Option Str
  pub created_by_kind : Option Str

abbrev pub creator : Option (Str × Str) → Option Str → Option Str → Creator
creator (some (id, kind)) by by_kind = record { created_by = some id; created_by_kind = some kind }
creator none by by_kind = record { created_by = by; created_by_kind = by_kind }

unfoldable pub new_run : Str → ℕ → Str → Option Str → Option Str → Option Str → Creator → Run
new_run run_id now thread_id workspace task workspace_id c = record {
  run_id = run_id;
  thread_id = thread_id;
  workspace = first_of_ workspace workspace_id;
  workspace_id = first_of_ workspace_id workspace;
  status = text "queued";
  task = task;
  created_by = c.created_by;
  created_by_kind = c.created_by_kind;
  created_at = now;
  updated_at = now;
  ended_at = none;
  error = none;
}

-- `uuid4` gives the id; the primary key refuses one that is there.
unfoldable pub create_run :
    Str → ℕ → Str → Option Str → Option Str → Option Str → Creator → Ledger → Result (Str × Ledger)
unfolding new_run
create_run run_id now thread_id workspace task workspace_id c l =
    if is_some (find_run run_id l.runs)
    then err (other (text "UNIQUE constraint failed: runs.run_id"))
    else ok (
      run_id,
      record l { runs = l.runs ++ new_run run_id now thread_id workspace task workspace_id c ∷ [] },
    )

-- `MAX(seq)`, 0 for none
unfoldable pub max_of : List ℕ → ℕ
max_of [] = 0
max_of (n ∷ ns) = let m = max_of ns in if ltb m n then n else m

-- The sequence numbers of one run, in the order of insertion.
unfoldable pub event_seqs : Str → List RunEvent → List ℕ
event_seqs id [] = []
event_seqs id (e ∷ es) = if str_eq id e.run_id then e.seq ∷ event_seqs id es else event_seqs id es

unfoldable pub approval_seqs : Str → List Approval → List ℕ
approval_seqs id [] = []
approval_seqs id (a ∷ as_) =
    if str_eq id a.run_id then a.seq ∷ approval_seqs id as_ else approval_seqs id as_

unfoldable pub append_event : Str → ℕ → Str → Str → Ledger → ℕ × Ledger
append_event run_id ts kind payload l =
    let seq = max_of (event_seqs run_id l.events) + 1 in
    (
      seq,
      record l {
        events =
            l.events
            ++ record { run_id = run_id; seq = seq; ts = ts; kind = kind; payload = payload } ∷ [];
      },
    )

-- `SET status = ?, updated_at = ?, ended_at = ?, error = ?`; not ended, `ended_at` is left alone.
unfoldable pub with_status : Str → ℕ → Option Str → Bool → Run → Run
with_status status now error ended r =
    if ended
    then record r { status = status; updated_at = now; ended_at = some now; error = error }
    else record r { status = status; updated_at = now; error = error }

unfoldable pub set_status : Str → ℕ → Str → Option Str → Bool → Ledger → Ledger
unfolding with_status
set_status run_id now status error ended l = record l {
  runs = (update_where (λ r. str_eq run_id r.run_id) (with_status status now error ended) l.runs).1;
}

-- `WHERE run_id = ? AND status = ?`
abbrev pub has_status : Str → Str → Run → Bool
has_status run_id expected r = str_eq run_id r.run_id && str_eq expected r.status

abbrev changed_one : Ledger → ℕ × List Run → Bool × Ledger
changed_one l (n, rs) = (n == 1, record l { runs = rs })

unfoldable pub transition_status : Str → ℕ → Str → Str → Option Str → Bool → Ledger → Bool × Ledger
unfolding with_status
transition_status run_id now expected status error ended l =
    changed_one l
      (update_where (has_status run_id expected) (with_status status now error ended) l.runs)

-- Who decided, and why.
pub record Decision : Type 0 where
  pub decision : Str
  pub actor_id : Str
  pub actor_kind : Str
  pub on_behalf_of : Option Str
  pub reason : Option Str

unfoldable pub insert_approval : Str → ℕ → Decision → List Approval → ℕ × List Approval
insert_approval run_id now d as_ =
    let seq = max_of (approval_seqs run_id as_) + 1 in
    (
      seq,
      as_
          ++ record {
            run_id = run_id;
            seq = seq;
            decision = d.decision;
            actor_id = d.actor_id;
            actor_kind = d.actor_kind;
            on_behalf_of = d.on_behalf_of;
            reason = d.reason;
            decided_at = now;
          }
            ∷ [],
    )

unfoldable pub record_approval : Str → ℕ → Decision → Ledger → Result (ℕ × Ledger)
unfolding insert_approval
record_approval run_id now d l =
    if is_some (find_run run_id l.runs)
    then (let (seq, as_) = insert_approval run_id now d l.approvals in
        ok (seq, record l { approvals = as_ }))
    else err (key_error (text "Run '" ++ (run_id ++ text "' not found")))

abbrev pub status_is : Str → Option Run → Bool
status_is expected none = false
status_is expected (some r) = str_eq expected r.status

unfoldable pub record_approval_and_transition :
    Str → ℕ → Decision → Str → Str → Option Str → Bool → Ledger → Bool × Ledger
unfolding insert_approval with_status
record_approval_and_transition run_id now d expected status error ended l =
    if status_is expected (find_run run_id l.runs)
    then (
      true,
      record l {
        runs =
            (update_where (has_status run_id expected) (with_status status now error ended)
              l.runs).1;
        approvals = (insert_approval run_id now d l.approvals).1;
      },
    )
    else (false, l)

-- `SET status = 'cancelled', updated_at = ?, ended_at = ?`
unfoldable pub cancelled : ℕ → Run → Run
cancelled now r = record r { status = text "cancelled"; updated_at = now; ended_at = some now }

-- The rollback where the update has not changed one row.
abbrev pub commit_if_one : Ledger → List Approval → ℕ × List Run → Bool × Ledger
commit_if_one l as_ (n, rs) =
    if n == 1 then (true, record l { runs = rs; approvals = as_ }) else (false, l)

abbrev pub cancel_found : Str → ℕ → Decision → Ledger → Option Run → Bool × Ledger
cancel_found run_id now d l none = (false, l)
cancel_found run_id now d l (some r) =
    if mem_str r.status terminal_run_statuses
    then (false, l)
    else commit_if_one l (insert_approval run_id now d l.approvals).1
        (update_where (has_status run_id r.status) (cancelled now) l.runs)

unfoldable pub record_cancellation_and_transition : Str → ℕ → Decision → Ledger → Bool × Ledger
unfolding insert_approval cancelled
record_cancellation_and_transition run_id now d l =
    cancel_found run_id now (record d { decision = text "cancelled" }) l (find_run run_id l.runs)

-- `ORDER BY seq ASC`
unfoldable pub insert_by_seq : RunEvent → List RunEvent → List RunEvent
insert_by_seq e [] = e ∷ []
insert_by_seq e (f ∷ fs) = if leb e.seq f.seq then e ∷ f ∷ fs else f ∷ insert_by_seq e fs

unfoldable pub sort_by_seq : List RunEvent → List RunEvent
unfolding insert_by_seq
sort_by_seq [] = []
sort_by_seq (e ∷ es) = insert_by_seq e (sort_by_seq es)

-- `WHERE run_id = ? AND seq > ? ORDER BY seq ASC`
unfoldable pub list_events : Str → ℕ → Ledger → List RunEvent
unfolding sort_by_seq
list_events run_id after l =
    sort_by_seq (select (λ e. str_eq run_id e.run_id && ltb after e.seq) l.events)
