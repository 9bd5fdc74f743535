-- ===== src/Runs/Transitions.antt =====
-- agent_os/runs.py: `transition_status`, and the lookups after an update.
use agent_os_langgraph.Prelude.{
  ℕ, ◌≡◌, ◌≢◌, refl, ap, sym, ◌∙◌, Bool, true, false, ◌&&◌, Option, none, some, List, [], ◌∷◌,
  arith, if◌then◌else◌,
}
use agent_os_langgraph.Text.{Str, str_eq, str_eq_iff, str_eq_self}
use agent_os_langgraph.Runs.{
  Run, Ledger, find_run, get_run, update_where, with_status, has_status, status_is,
  transition_status,
}

-- The primary key of `runs`.
abbrev pub IsUnique : List Run → Type 0
IsUnique [] = Unit
IsUnique (r ∷ rs) = (find_run r.run_id rs ≡ none) × IsUnique rs

abbrev pub map_run : (Run → Run) → Option Run → Option Run
map_run f none = none
map_run f (some r) = some (f r)

abbrev KeepsId : (Run → Run) → Type 0
KeepsId f = (r : Run) → (f r).run_id ≡ r.run_id

find_run-same : (i j : Str) (rs : List Run) → str_eq i j ≡ true → find_run i rs ≡ find_run j rs
find_run-same i j rs h = ap (λ (s : Str). find_run s rs) ((str_eq_iff i j).0 h)

update_where_absent :
    (id expected : Str) (f : Run → Run) (rs : List Run)
    → find_run id rs ≡ none
    → update_where (has_status id expected) f rs ≡ (0, rs)
unfolding find_run update_where
update_where_absent id expected f [] h = refl
update_where_absent id expected f (r ∷ rs) h = ground (arith, update_where_absent id expected f rs)

-- The number of rows, and every lookup afterwards.
pub update_where_count :
    (id expected : Str) (f : Run → Run) (rs : List Run)
    → IsUnique rs
    → (update_where (has_status id expected) f rs).0
      ≡ (if status_is expected (find_run id rs) then 1 else 0)
unfolding find_run update_where
update_where_count id expected f [] u = refl
update_where_count id expected f (r ∷ rs) u = ground (
  arith,
  update_where_count id expected f rs u.1,
  find_run-same id r.run_id rs,
  update_where_absent id expected f rs,
)

pub find_run-update :
    (id expected : Str) (f : Run → Run) (rs : List Run) (j : Str)
    → KeepsId f
    → IsUnique rs
    → find_run j (update_where (has_status id expected) f rs).1 ≡ (
        if str_eq j id && status_is expected (find_run id rs)
        then map_run f (find_run j rs)
        else find_run j rs)
unfolding find_run update_where
find_run-update id expected f [] j k u = ground arith
find_run-update id expected f (r ∷ rs) j k u = ground (
  arith,
  find_run-update id expected f rs j k u.1,
  k r,
  str_eq_iff id r.run_id,
  str_eq_iff j r.run_id,
  str_eq_iff j id,
  find_run-same id r.run_id rs,
  update_where_absent id expected f rs,
)

find_run-update_none :
    (p : Run → Bool) (f : Run → Run) (rs : List Run) (j : Str)
    → KeepsId f
    → find_run j rs ≡ none
    → find_run j (update_where p f rs).1 ≡ none
unfolding find_run update_where
find_run-update_none p f [] j k h = refl
find_run-update_none p f (r ∷ rs) j k h = ground (arith, find_run-update_none p f rs j k, k r)

pub update_where-IsUnique :
    (p : Run → Bool) (f : Run → Run) (rs : List Run)
    → KeepsId f
    → IsUnique rs
    → IsUnique (update_where p f rs).1
unfolding update_where
update_where-IsUnique p f [] k u = tt
update_where-IsUnique p f (r ∷ rs) k u =
    ground
      (arith, update_where-IsUnique p f rs k u.1, find_run-update_none p f rs r.run_id k u.0, k r)

pub with_status-id :
    (status : Str) (now : ℕ) (error : Option Str) (ended : Bool)
    → (r : Run) → (with_status status now error ended r).run_id ≡ r.run_id
unfolding with_status
with_status-id status now error ended r = ground arith

module _ (id : Str) (now : ℕ) (expected status : Str) (error : Option Str) (ended : Bool)
    (l : Ledger) (u : IsUnique l.runs) where
  -- A transition succeeds exactly if the run has the expected status; then that run alone gets the
  -- new status, and otherwise no run changes. Events and approvals stay.
  pub transition_status_lem :
      let (won, l') = transition_status id now expected status error ended l in
      (won ≡ status_is expected (get_run id l))
      × ((j : Str)
          → get_run j l' ≡ (
              if str_eq j id && status_is expected (get_run id l)
              then map_run (with_status status now error ended) (get_run j l)
              else get_run j l))
      × IsUnique l'.runs
      × (l'.events ≡ l.events)
      × (l'.approvals ≡ l.approvals)
  unfolding transition_status
  transition_status_lem =
      let f = with_status status now error ended in
      let k = with_status-id status now error ended in
      (
        ground (arith, update_where_count id expected f l.runs u),
        λ j. find_run-update id expected f l.runs j k u,
        update_where-IsUnique (has_status id expected) f l.runs k u,
        refl,
        refl,
      )

with_status-status :
    (status : Str) (now : ℕ) (error : Option Str) (ended : Bool) (r : Run)
    → (with_status status now error ended r).status ≡ status
unfolding with_status
with_status-status status now error ended r = ground arith

status_is-changed :
    (expected status : Str) (now : ℕ) (error : Option Str) (ended : Bool) (o : Option Run)
    → status ≢ expected
    → status_is expected (map_run (with_status status now error ended) o) ≡ false
status_is-changed expected status now error ended none d = refl
status_is-changed expected status now error ended (some r) d =
    ground (arith, str_eq_iff expected status, with_status-status status now error ended r)

-- Of two callers who expect the same status, the second changes nothing once the first has won and
-- set another status.
pub transition_status_race :
    (id expected : Str) (now : ℕ) (status : Str) (error : Option Str) (ended : Bool) (now' : ℕ)
    (status' : Str) (error' : Option Str) (ended' : Bool) (l : Ledger)
    → IsUnique l.runs
    → status ≢ expected
    → (transition_status id now expected status error ended l).0 ≡ true
    → let l' = (transition_status id now expected status error ended l).1 in
      ((transition_status id now' expected status' error' ended' l').0 ≡ false)
      × ((j : Str)
          → get_run j (transition_status id now' expected status' error' ended' l').1
            ≡ get_run j l')
transition_status_race id expected now status error ended now' status' error' ended' l u d won =
    let (w, found, u', e, a) = transition_status_lem id now expected status error ended l u in
    let l' = (transition_status id now expected status error ended l).1 in
    let (w', found', u'', e', a') =
      transition_status_lem id now' expected status' error' ended' l' u' in
    let lost : status_is expected (get_run id l') ≡ false =
      rw (found id, str_eq_self id, sym w ∙ won)
        (status_is-changed expected status now error ended (get_run id l) d) in
    (w' ∙ lost, λ j. found' j ∙ ground (arith, lost))
