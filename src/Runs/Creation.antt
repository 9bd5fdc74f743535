-- ===== src/Runs/Creation.antt =====
-- agent_os/runs.py: `create_run`.
use agent_os_langgraph.Prelude.{
  ℕ, ◌≡◌, refl, ap, ◌∙◌, true, false, Option, none, some, List, [], ◌∷◌, ◌++◌, arith, if◌then◌else◌,
  Bool-cases, inl, inr, is_some, ok,
}
use agent_os_langgraph.Text.{Str, text, str_eq, str_eq_iff, str_eq_self}
use agent_os_langgraph.Runs.{
  Run, Ledger, Creator, find_run, get_run, status_is, create_run, new_run,
}
use agent_os_langgraph.Runs.Transitions.{IsUnique}

find_run-append :
    (j : Str) (rs : List Run) (r : Run)
    → find_run j (rs ++ r ∷ []) ≡ (
        if is_some (find_run j rs)
        then find_run j rs
        else if str_eq j r.run_id
        then some r
        else none)
unfolding find_run
find_run-append j [] r = refl
find_run-append j (s ∷ rs) r = ground (arith, find_run-append j rs r)

head_differs :
    (s : Run) (rs : List Run) (id : Str) → find_run id (s ∷ rs) ≡ none → str_eq id s.run_id ≡ false
unfolding find_run
head_differs s rs id h = ground arith

tail_absent :
    (s : Run) (rs : List Run) (id : Str) → find_run id (s ∷ rs) ≡ none → find_run id rs ≡ none
unfolding find_run
tail_absent s rs id h = ground arith

append-IsUnique :
    (rs : List Run) (r : Run) → IsUnique rs → find_run r.run_id rs ≡ none → IsUnique (rs ++ r ∷ [])
append-IsUnique [] r u h = (unfold find_run in refl, tt)
append-IsUnique (s ∷ rs) r u h = (
  find_run-append s.run_id rs r
      ∙ ground (
        arith,
        u.0,
        str_eq_iff s.run_id r.run_id,
        str_eq_iff r.run_id s.run_id,
        head_differs s rs r.run_id h,
      ),
  append-IsUnique rs r u.1 (tail_absent s rs r.run_id h),
)

none_of_is_some : (o : Option Run) → is_some o ≡ false → o ≡ none
none_of_is_some none h = refl
none_of_is_some (some r) h = absurd (cc)

new_run_fields :
    (id : Str) (now : ℕ) (thread_id : Str) (workspace task workspace_id : Option Str) (c : Creator)
    → ((new_run id now thread_id workspace task workspace_id c).run_id ≡ id)
      × ((new_run id now thread_id workspace task workspace_id c).status ≡ text "queued")
unfolding new_run
new_run_fields id now thread_id workspace task workspace_id c = (refl, refl)

-- A created run is queued, under an id that no run had; the lookup of any other id stays.
pub create_run_lem :
    (id : Str) (now : ℕ) (thread_id : Str) (workspace task workspace_id : Option Str) (c : Creator)
    (l : Ledger) {out : Str} {l' : Ledger}
    → IsUnique l.runs
    → create_run id now thread_id workspace task workspace_id c l ≡ ok (out, l')
    → (out ≡ id)
      × (get_run id l ≡ none)
      × (status_is (text "queued") (get_run id l') ≡ true)
      × ((j : Str)
          → get_run j l' ≡ (
              if str_eq j id
              then some (new_run id now thread_id workspace task workspace_id c)
              else get_run j l))
      × IsUnique l'.runs
unfolding create_run
create_run_lem id now thread_id workspace task workspace_id c l {out} {l'} u h =
    let r = new_run id now thread_id workspace task workspace_id c in
    let (rid, rs) = new_run_fields id now thread_id workspace task workspace_id c in
    elim (Bool-cases (is_some (find_run id l.runs))) [
      | inl taken ↦ absurd (ground arith)
      | inr free ↦
          let fresh : find_run id l.runs ≡ none = none_of_is_some _ free in
          let same : l'.runs ≡ l.runs ++ r ∷ [] = ground arith in
          (
            ground arith,
            fresh,
            rw (same, find_run-append id l.runs r)
                (ground (arith, fresh, rid, rs, str_eq_self id, str_eq_self (text "queued"))),
            λ j.
                rw (same, find_run-append j l.runs r)
                  (ground (
                    arith,
                    str_eq_iff j id,
                    rid,
                    none_of_is_some (find_run j l.runs),
                    ap (λ (i : Str). find_run i l.runs),
                    free,
                    ap (λ (i : Str). str_eq j i) rid,
                  )),
            rw same (append-IsUnique l.runs r u (rw rid fresh)),
          )
    ]

pub create_run_rest :
    (id : Str) (now : ℕ) (thread_id : Str) (workspace task workspace_id : Option Str) (c : Creator)
    (l : Ledger) {out : Str} {l' : Ledger}
    → create_run id now thread_id workspace task workspace_id c l ≡ ok (out, l')
    → (l'.events ≡ l.events) × (l'.approvals ≡ l.approvals)
unfolding create_run
create_run_rest id now thread_id workspace task workspace_id c l h =
    elim (Bool-cases (is_some (find_run id l.runs))) [
      | inl taken ↦ absurd (ground arith)
      | inr free ↦ (ground arith, ground arith)
    ]
