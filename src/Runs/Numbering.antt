-- ===== src/Runs/Numbering.antt =====
-- agent_os/runs.py: the numbers of the events and of the approvals of a run.
use agent_os_langgraph.Prelude.{
  ℕ, zero, suc, ◌+◌, ◌-◌, ◌≡◌, refl, ap, sym, ◌≤◌, ◌&&◌, List, [], ◌∷◌, ◌++◌, arith, ltb, ◌⊎◌, inl,
  inr, length, drop, select, if◌then◌else◌, Bool-cases,
}
use native.Mathlib.Nat.{add-zero, add-suc, suc-add}
use agent_os_langgraph.Text.{Str, str_eq, str_eq_iff}
use agent_os_langgraph.Runs.{
  RunEvent, Approval, Ledger, Decision, max_of, event_seqs, approval_seqs, append_event,
  insert_approval, sort_by_seq, list_events,
}

abbrev pub CountsFrom : ℕ → List ℕ → Type 0
CountsFrom k [] = Unit
CountsFrom k (n ∷ ns) = (n ≡ k) × CountsFrom (suc k) ns

abbrev pub IsNumbered : List RunEvent → Type 0
IsNumbered es = (id : Str) → CountsFrom 1 (event_seqs id es)

abbrev pub AreNumbered : List Approval → Type 0
AreNumbered as_ = (id : Str) → CountsFrom 1 (approval_seqs id as_)

max_of-CountsFrom :
    (k : ℕ) (ns : List ℕ) → CountsFrom (suc k) ns → (ns ≡ []) ⊎ (max_of ns ≡ k + length ns)
unfolding max_of
max_of-CountsFrom k [] c = inl refl
max_of-CountsFrom k (n ∷ []) c = inr (ground arith)
max_of-CountsFrom k (n ∷ m ∷ ns) c = inr (ground (arith, max_of-CountsFrom (suc k) (m ∷ ns) c.1))

max_of-length : (ns : List ℕ) → CountsFrom 1 ns → max_of ns ≡ length ns
unfolding max_of
max_of-length [] c = refl
max_of-length (n ∷ ns) c = ground (arith, max_of-CountsFrom 0 (n ∷ ns) c)

CountsFrom-append :
    (k : ℕ) (ns : List ℕ) (n : ℕ)
    → CountsFrom k ns
    → n ≡ k + length ns
    → CountsFrom k (ns ++ n ∷ [])
CountsFrom-append k [] n c e = (omega arith, tt)
CountsFrom-append k (m ∷ ns) n c e = (c.0, CountsFrom-append (suc k) ns n c.1 (omega arith))

event_seqs-append :
    (id : Str) (es : List RunEvent) (e : RunEvent)
    → event_seqs id (es ++ e ∷ [])
      ≡ (if str_eq id e.run_id then event_seqs id es ++ e.seq ∷ [] else event_seqs id es)
unfolding event_seqs
event_seqs-append id [] e = ground arith
event_seqs-append id (f ∷ es) e = ground (arith, event_seqs-append id es e)

approval_seqs-append :
    (id : Str) (as_ : List Approval) (a : Approval)
    → approval_seqs id (as_ ++ a ∷ [])
      ≡ (if str_eq id a.run_id then approval_seqs id as_ ++ a.seq ∷ [] else approval_seqs id as_)
unfolding approval_seqs
approval_seqs-append id [] a = ground arith
approval_seqs-append id (b ∷ as_) a = ground (arith, approval_seqs-append id as_ a)

next_number :
    (seqs : Str → List ℕ) (owner id : Str)
    → ((j : Str) → CountsFrom 1 (seqs j))
    → id ≡ owner
    → CountsFrom 1 (seqs id ++ (max_of (seqs owner) + 1) ∷ [])
next_number seqs owner id c e =
    CountsFrom-append 1 (seqs id) _ (c id)
      (rw e (omega (arith, max_of-length (seqs owner) (c owner))))

-- A new event gets the number after those of its run, and every run stays numbered without gaps.
pub append_event-IsNumbered :
    (run_id : Str) (ts : ℕ) (kind payload : Str) (l : Ledger)
    → IsNumbered l.events
    → let (seq, l') = append_event run_id ts kind payload l in
      (seq ≡ length (event_seqs run_id l.events) + 1) × IsNumbered l'.events
unfolding append_event
append_event-IsNumbered run_id ts kind payload l h = (
  omega (arith, max_of-length (event_seqs run_id l.events) (h run_id)),
  λ id. rw event_seqs-append (elim (Bool-cases (str_eq id run_id)) [
    | inl same ↦
        rw same
          (next_number (λ j. event_seqs j l.events) run_id id h ((str_eq_iff id run_id).0 same))
    | inr differs ↦ rw differs (h id)
  ]),
)

pub insert_approval-AreNumbered :
    (run_id : Str) (now : ℕ) (d : Decision) (as_ : List Approval)
    → AreNumbered as_
    → AreNumbered (insert_approval run_id now d as_).1
unfolding insert_approval
insert_approval-AreNumbered run_id now d as_ h id =
    rw approval_seqs-append (elim (Bool-cases (str_eq id run_id)) [
      | inl same ↦
          rw same
            (next_number (λ j. approval_seqs j as_) run_id id h ((str_eq_iff id run_id).0 same))
      | inr differs ↦ rw differs (h id)
    ])

abbrev of_run : Str → List RunEvent → List RunEvent
of_run id = select (λ e. str_eq id e.run_id)

abbrev seqs_of : List RunEvent → List ℕ
seqs_of [] = []
seqs_of (e ∷ es) = e.seq ∷ seqs_of es

seqs_of-of_run : (id : Str) (es : List RunEvent) → seqs_of (of_run id es) ≡ event_seqs id es
unfolding event_seqs
seqs_of-of_run id [] = refl
seqs_of-of_run id (e ∷ es) = ground (arith, seqs_of-of_run id es)

select-and :
    (id : Str) (after : ℕ) (es : List RunEvent)
    → select (λ e. str_eq id e.run_id && ltb after e.seq) es
      ≡ select (λ e. ltb after e.seq) (of_run id es)
select-and id after [] = refl
select-and id after (e ∷ es) = ground (arith, select-and id after es)

drop-nil : (n : ℕ) → drop {A = RunEvent} n [] ≡ []
drop-nil zero = refl
drop-nil (suc n) = refl

select-after :
    (k after : ℕ) (es : List RunEvent)
    → CountsFrom (suc k) (seqs_of es)
    → select (λ e. ltb after e.seq) es ≡ drop (after - k) es
select-after k after [] c = sym (drop-nil (after - k))
select-after k after (e ∷ es) c =
    let rest = select-after (suc k) after es c.1 in
    elim (Bool-cases (ltb after e.seq)) [
      | inl later ↦
          let small : after ≤ k = ground arith in
          let none_ : after - k ≡ zero = omega arith in
          let none' : after - suc k ≡ zero = omega arith in
          rw (later, none_) (ap (λ (xs : List RunEvent). e ∷ xs) (rw none' at rest))
      | inr seen ↦
          let big : suc k ≤ after = ground arith in
          let one : after - k ≡ suc (after - suc k) = omega arith in rw (seen, one) rest
    ]

drop-CountsFrom :
    (k n : ℕ) (es : List RunEvent)
    → CountsFrom k (seqs_of es)
    → CountsFrom (k + n) (seqs_of (drop n es))
drop-CountsFrom k zero es c = rw add-zero c
drop-CountsFrom k (suc n) [] c = tt
drop-CountsFrom k (suc n) (e ∷ es) c = rw (add-suc, ← suc-add) (drop-CountsFrom (suc k) n es c.1)

sort-CountsFrom : (k : ℕ) (es : List RunEvent) → CountsFrom k (seqs_of es) → sort_by_seq es ≡ es
unfolding sort_by_seq
sort-CountsFrom k [] c = refl
sort-CountsFrom k (e ∷ []) c = refl
sort-CountsFrom k (e ∷ f ∷ es) c = rw (sort-CountsFrom (suc k) (f ∷ es) c.1) (ground arith)

-- Reading after a number that was seen gives exactly the later events of the run, in the order in
-- which they were appended: none is repeated and none is lost.
pub list_events_lem :
    (run_id : Str) (after : ℕ) (l : Ledger)
    → IsNumbered l.events
    → list_events run_id after l ≡ drop after (select (λ e. str_eq run_id e.run_id) l.events)
unfolding list_events
list_events_lem run_id after l h =
    let c : CountsFrom 1 (seqs_of (of_run run_id l.events)) = rw seqs_of-of_run (h run_id) in
    let zero_off : after ≡ after - 0 = omega arith in
    rw
      (
        select-and run_id after l.events,
        select-after 0 after (of_run run_id l.events) c,
        ← zero_off,
      )
      (sort-CountsFrom (1 + after) _ (drop-CountsFrom 1 after (of_run run_id l.events) c))
