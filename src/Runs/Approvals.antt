-- ===== src/Runs/Approvals.antt =====
-- agent_os/runs.py: the decisions that are recorded with a transition or a cancellation.
use agent_os_langgraph.Prelude.{
  ℕ, suc, ◌≡◌, refl, ap₂, sym, ◌∙◌, Bool, true, false, ◌&&◌, not, Option, none, some, List, arith,
  if◌then◌else◌, Bool-cases, ◌⊎◌, inl, inr, length, length-append,
}
use agent_os_langgraph.Text.{Str, text, str_eq, str_eq_iff, str_eq_self, mem_str}
use agent_os_langgraph.Runs.{
  Run, Ledger, Decision, Approval, find_run, get_run, update_where, with_status, has_status,
  status_is, insert_approval, record_approval_and_transition, record_cancellation_and_transition,
  cancelled, cancel_found, terminal_run_statuses,
}
use agent_os_langgraph.Runs.Transitions.{
  IsUnique, map_run, update_where_count, find_run-update, update_where-IsUnique, with_status-id,
}
use agent_os_langgraph.Runs.Numbering.{AreNumbered, insert_approval-AreNumbered}

-- A run that is there and not in a terminal status.
abbrev pub is_live : Option Run → Bool
is_live none = false
is_live (some r) = not (mem_str r.status terminal_run_statuses)

length-insert_approval :
    (id : Str) (now : ℕ) (d : Decision) (as_ : List Approval)
    → length (insert_approval id now d as_).1 ≡ suc (length as_)
unfolding insert_approval
length-insert_approval id now d as_ = rw length-append (omega arith)

cancelled-id : (now : ℕ) (r : Run) → (cancelled now r).run_id ≡ r.run_id
unfolding cancelled
cancelled-id now r = refl

module _ (id : Str) (now : ℕ) (d : Decision) (l : Ledger) (u : IsUnique l.runs)
    (n : AreNumbered l.approvals) where
  -- The cases of the row that the cancellation finds.
  cancel_found_lem :
      (o : Option Run)
      → find_run id l.runs ≡ o
      → let (won, l') = cancel_found id now d l o in
        (won ≡ is_live o)
        × ((won ≡ true) ⊎ (l' ≡ l))
        × (length l'.approvals ≡ (if won then suc (length l.approvals) else length l.approvals))
        × AreNumbered l'.approvals
        × IsUnique l'.runs
        × ((j : Str)
            → get_run j l'
              ≡ (if str_eq j id && won then map_run (cancelled now) (get_run j l) else get_run j l))
  cancel_found_lem none e = (refl, inr refl, refl, n, u, λ j. ground arith)
  cancel_found_lem (some r) e = elim (Bool-cases (mem_str r.status terminal_run_statuses)) [
    | inl over ↦ rw over (refl, inr refl, refl, n, u, λ j. ground arith)
    | inr live ↦
        let found : status_is r.status (find_run id l.runs) ≡ true = rw e (str_eq_self r.status) in
        let count : (update_where (has_status id r.status) (cancelled now) l.runs).0 ≡ 1 =
          update_where_count id r.status (cancelled now) l.runs u ∙ rw found in
        rw (live, count)
          (
            refl,
            inl refl,
            length-insert_approval id now d l.approvals,
            insert_approval-AreNumbered id now d l.approvals n,
            update_where-IsUnique (has_status id r.status) (cancelled now) l.runs (cancelled-id now)
                u,
            λ j.
                find_run-update id r.status (cancelled now) l.runs j (cancelled-id now) u
                ∙ ground (arith, found),
          )
  ]

module _ (id : Str) (now : ℕ) (d : Decision) (l : Ledger) (u : IsUnique l.runs)
    (n : AreNumbered l.approvals) where
  -- The decision and the transition are one: they happen exactly if the run has the expected status,
  -- with one more numbered approval and the new status for that run alone; otherwise the whole ledger
  -- is as it was.
  pub record_approval_and_transition_lem :
      (expected status : Str) (error : Option Str) (ended : Bool)
      → let (won, l') = record_approval_and_transition id now d expected status error ended l in
        (won ≡ status_is expected (get_run id l))
        × ((won ≡ true) ⊎ (l' ≡ l))
        × (length l'.approvals ≡ (if won then suc (length l.approvals) else length l.approvals))
        × AreNumbered l'.approvals
        × IsUnique l'.runs
        × ((j : Str)
            → get_run j l' ≡ (
                if str_eq j id && won
                then map_run (with_status status now error ended) (get_run j l)
                else get_run j l))
  unfolding record_approval_and_transition
  record_approval_and_transition_lem expected status error ended =
      elim (Bool-cases (status_is expected (find_run id l.runs))) [
        | inl matches ↦
            let f = with_status status now error ended in
            let k = with_status-id status now error ended in
            rw matches (
              refl,
              inl refl,
              length-insert_approval id now d l.approvals,
              insert_approval-AreNumbered id now d l.approvals n,
              update_where-IsUnique (has_status id expected) f l.runs k u,
              λ j. find_run-update id expected f l.runs j k u ∙ ground (arith, matches),
            )
        | inr differs ↦ rw differs (refl, inr refl, refl, n, u, λ j. ground arith)
      ]

  -- A cancellation happens exactly if the run is there and not in a terminal status; it then sets
  -- that run alone to cancelled with one more numbered approval, and otherwise leaves the ledger.
  pub record_cancellation_and_transition_lem :
      let (won, l') = record_cancellation_and_transition id now d l in
      (won ≡ is_live (get_run id l))
      × ((won ≡ true) ⊎ (l' ≡ l))
      × (length l'.approvals ≡ (if won then suc (length l.approvals) else length l.approvals))
      × AreNumbered l'.approvals
      × IsUnique l'.runs
      × ((j : Str)
          → get_run j l'
            ≡ (if str_eq j id && won then map_run (cancelled now) (get_run j l) else get_run j l))
  unfolding record_cancellation_and_transition
  record_cancellation_and_transition_lem =
      cancel_found_lem id now (record d { decision = text "cancelled" }) l u n (find_run id l.runs)
        refl

cancelled-status :
    (now : ℕ) (o : Option Run)
    → is_live o ≡ true
    → status_is (text "cancelled") (map_run (cancelled now) o) ≡ true
unfolding cancelled
cancelled-status now none h = absurd (cc)
cancelled-status now (some r) h = str_eq_self (text "cancelled")

status_is_unique :
    (a b : Str) (o : Option Run) → status_is a o ≡ true → str_eq b a ≡ false → status_is b o ≡ false
status_is_unique a b none h k = refl
status_is_unique a b (some r) h k =
    ground (arith, str_eq_iff a r.status, str_eq_iff b r.status, str_eq_iff b a)

interrupted-ne-cancelled : str_eq (text "interrupted") (text "cancelled") ≡ false
unfolding str_eq text
interrupted-ne-cancelled = refl

-- Once a run has been cancelled, an approval that would resume it from 'interrupted' is refused, and
-- no decision is recorded for it.
pub cancelled_run_stays :
    (id : Str) (now : ℕ) (d : Decision) (l : Ledger) (later : ℕ) (e : Decision) (status : Str)
    (error : Option Str) (ended : Bool)
    → IsUnique l.runs
    → AreNumbered l.approvals
    → (record_cancellation_and_transition id now d l).0 ≡ true
    → let l' = (record_cancellation_and_transition id now d l).1 in
      (status_is (text "cancelled") (get_run id l') ≡ true)
      × (record_approval_and_transition id later e (text "interrupted") status error ended l'
          ≡ (false, l'))
cancelled_run_stays id now d l later e status error ended u n won =
    let (w, same, count, n', u', found) = record_cancellation_and_transition_lem id now d l u n in
    let l' = (record_cancellation_and_transition id now d l).1 in
    let done : status_is (text "cancelled") (get_run id l') ≡ true =
      rw (found id, str_eq_self id, won) (cancelled-status now (get_run id l) (sym w ∙ won)) in
    let (w', same', c2, n2, u2, f2) =
      record_approval_and_transition_lem id later e l' u' n' (text "interrupted") status error
        ended in
    let lost =
      w'
      ∙ status_is_unique (text "cancelled") (text "interrupted") (get_run id l') done
          interrupted-ne-cancelled in
    elim same' [
      | inl again ↦ absurd (cc (again, lost))
      | inr kept ↦ (done, ap₂ (λ (b : Bool) (k : Ledger). (b, k)) lost kept)
    ]
