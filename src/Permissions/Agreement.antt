-- ===== src/Permissions/Agreement.antt =====
-- agent_os/permission_store.py: sequences of calls, made on the in-memory store and on the SQLite
-- store.
use agent_os_langgraph.Prelude.{
  ℕ, ◌≡◌, ◌≢◌, ◌++◌, false, refl, ap, Bool, true, Option, none, List, [], ◌∷◌, arith, Result, ok,
  err, ltb, is_some,
}
use agent_os_langgraph.Text.{Str, str_eq, str_eq_iff}
use agent_os_langgraph.Permissions.{PermissionRule}
use agent_os_langgraph.Permissions.InMemory
use agent_os_langgraph.Permissions.InMemory.{
  Rules, find, upsert_rules, modify, pop, new_rule, taught_again, approved_once, denied_once,
}
use agent_os_langgraph.Permissions.Sqlite
use agent_os_langgraph.Permissions.Sqlite.{
  Rows, values_row, on_conflict, add_approval, add_denial, select_row, update_rows, delete_rows,
  upsert_rows as upsert_sql,
}

-- The calls of the protocol.
pub data Call : Type 0 where
  get delete approve deny : Str → Call
  upsert : PermissionRule → Call
  list : Call

pub data Reply : Type 0 where
  rule : Option PermissionRule → Reply
  rules : List PermissionRule → Reply
  deleted : Bool → Reply
  done : Reply

-- One call at a time; a call that raises leaves the table alone.
abbrev settle {ℓ} :
    {T : Type ℓ} → (T → Reply) → (T → Rules) → Rules → Result T → Result Reply × Rules
settle reply table d (ok x) = (ok (reply x), table x)
settle reply table d (err e) = (err e, d)

abbrev settle_sql {ℓ} :
    {T : Type ℓ} → (T → Reply) → (T → Rows) → Rows → Result T → Result Reply × Rows
settle_sql reply table t (ok x) = (ok (reply x), table x)
settle_sql reply table t (err e) = (err e, t)

unfoldable pub call_memory : ℕ → Call → Rules → Result Reply × Rules
call_memory now (get k) d = settle rule (λ _. d) d (InMemory.get k d)
call_memory now list d = (ok (rules (InMemory.list d)), d)
call_memory now (upsert r) d = settle (λ _. done) (λ d'. d') d (InMemory.upsert now r d)
call_memory now (delete k) d = settle (λ p. deleted p.0) (λ p. p.1) d (InMemory.delete k d)
call_memory now (approve k) d = settle (λ _. done) (λ d'. d') d (InMemory.increment_approve now k d)
call_memory now (deny k) d = settle (λ _. done) (λ d'. d') d (InMemory.increment_deny now k d)

unfoldable pub call_sqlite : ℕ → Call → Rows → Result Reply × Rows
call_sqlite now (get k) t = settle_sql rule (λ _. t) t (Sqlite.get k t)
call_sqlite now list t = (ok (rules (Sqlite.list t)), t)
call_sqlite now (upsert r) t = settle_sql (λ _. done) (λ t'. t') t (Sqlite.upsert now r t)
call_sqlite now (delete k) t = settle_sql (λ p. deleted p.0) (λ p. p.1) t (Sqlite.delete k t)
call_sqlite now (approve k) t =
    settle_sql (λ _. done) (λ t'. t') t (Sqlite.increment_approve now k t)
call_sqlite now (deny k) t = settle_sql (λ _. done) (λ t'. t') t (Sqlite.increment_deny now k t)

-- A script of calls, each with the time at which it is made.
unfoldable pub run_memory : List (ℕ × Call) → Rules → List (Result Reply)
run_memory [] d = []
run_memory ((now, c) ∷ cs) d = let (r, d') = call_memory now c d in r ∷ run_memory cs d'

unfoldable pub run_sqlite : List (ℕ × Call) → Rows → List (Result Reply)
run_sqlite [] t = []
run_sqlite ((now, c) ∷ cs) t = let (r, t') = call_sqlite now c t in r ∷ run_sqlite cs t'

-- Each rule stands under its own key, once.
abbrev pub IsKeyed : Rules → Type 0
IsKeyed [] = Unit
IsKeyed ((k, r) ∷ d) = (k ≡ r.permission_key) × (find k d ≡ none) × IsKeyed d

abbrev pub rows : Rules → Rows
rows [] = []
rows ((k, r) ∷ d) = r ∷ rows d

values-rows : (d : Rules) → InMemory.values d ≡ rows d
unfolding InMemory.values
values-rows [] = refl
values-rows ((k, r) ∷ d) = ap (λ (t : Rows). r ∷ t) (values-rows d)

select_row-rows : (k : Str) (d : Rules) → IsKeyed d → select_row k (rows d) ≡ find k d
unfolding find select_row
select_row-rows k [] h = refl
select_row-rows k ((j, r) ∷ d) h = ground (arith, select_row-rows k d h.2, ap (str_eq k) h.0)

-- Where a key is not in the table, an update changes no row.
update_rows_absent :
    (k : Str) (f : PermissionRule → PermissionRule) (t : Rows)
    → select_row k t ≡ none
    → update_rows k f t ≡ t
unfolding select_row update_rows
update_rows_absent k f [] h = refl
update_rows_absent k f (r ∷ t) h = ground (arith, update_rows_absent k f t)

delete_rows_absent : (k : Str) (t : Rows) → select_row k t ≡ none → delete_rows k t ≡ (0, t)
unfolding select_row delete_rows
delete_rows_absent k [] h = refl
delete_rows_absent k (r ∷ t) h = ground (arith, delete_rows_absent k t)

find-same : (k j : Str) (d : Rules) → str_eq k j ≡ true → find k d ≡ find j d
find-same k j d h = ap (λ (s : Str). find s d) ((str_eq_iff k j).0 h)

update_rows-rows :
    (k : Str) (f : PermissionRule → PermissionRule) (d : Rules)
    → IsKeyed d
    → update_rows k f (rows d) ≡ rows (modify k f d)
unfolding update_rows modify
update_rows-rows k f [] h = refl
update_rows-rows k f ((j, r) ∷ d) h = ground (
  arith,
  ap (str_eq k) h.0,
  find-same k j d,
  select_row-rows k d h.2,
  update_rows_absent k f (rows d),
  update_rows-rows k f d h.2,
)

delete_rows-rows :
    (k : Str) (d : Rules)
    → IsKeyed d
    → (ltb 0 (delete_rows k (rows d)).0 ≡ is_some (find k d))
      × ((delete_rows k (rows d)).1 ≡ rows (pop k d))
unfolding delete_rows pop find
delete_rows-rows k [] h = (refl, refl)
delete_rows-rows k ((j, r) ∷ d) h = ground (
  arith,
  ap (str_eq k) h.0,
  find-same k j d,
  select_row-rows k d h.2,
  delete_rows_absent k (rows d),
  delete_rows-rows k d h.2,
)

-- The two clauses of `DO UPDATE SET` and of the in-memory upsert say the same.
on_conflict-taught_again :
    (now : ℕ) (r : PermissionRule) → on_conflict (values_row now r) ≡ taught_again now r
unfolding on_conflict values_row taught_again
on_conflict-taught_again now r = refl

values_row-new_rule : (now : ℕ) (r : PermissionRule) → values_row now r ≡ new_rule now r
unfolding values_row new_rule
values_row-new_rule now r = refl

add_approval-approved_once : (now : ℕ) → add_approval now ≡ approved_once now
unfolding add_approval approved_once
add_approval-approved_once now = refl

add_denial-denied_once : (now : ℕ) → add_denial now ≡ denied_once now
unfolding add_denial denied_once
add_denial-denied_once now = refl

upsert_rules_absent :
    (now : ℕ) (r : PermissionRule) (d : Rules)
    → find r.permission_key d ≡ none
    → rows (upsert_rules now r d) ≡ rows d ++ new_rule now r ∷ []
unfolding upsert_rules find
upsert_rules_absent now r [] h = refl
upsert_rules_absent now r ((j, x) ∷ d) h = ground (arith, upsert_rules_absent now r d)

upsert_rules_present :
    (now : ℕ) (r : PermissionRule) (d : Rules)
    → find r.permission_key d ≢ none
    → upsert_rules now r d ≡ modify r.permission_key (taught_again now r) d
unfolding upsert_rules find modify
upsert_rules_present now r [] h = absurd (h refl)
upsert_rules_present now r ((j, x) ∷ d) h = ground (arith, upsert_rules_present now r d)

upsert-rows :
    (now : ℕ) (r : PermissionRule) (d : Rules)
    → IsKeyed d
    → upsert_sql now r (rows d) ≡ rows (upsert_rules now r d)
unfolding upsert_sql
upsert-rows now r d h = ground (
  arith,
  select_row-rows r.permission_key d h,
  on_conflict-taught_again now r,
  values_row-new_rule now r,
  upsert_rules_absent now r d,
  upsert_rules_present now r d,
  update_rows-rows r.permission_key (taught_again now r) d h,
)

find-upsert_none :
    (now : ℕ) (r : PermissionRule) (j : Str) (d : Rules)
    → str_eq r.permission_key j ≡ false
    → find j d ≡ none
    → find j (upsert_rules now r d) ≡ none
unfolding find upsert_rules
find-upsert_none now r j [] h e =
    ground (arith, str_eq_iff j r.permission_key, str_eq_iff r.permission_key j)
find-upsert_none now r j ((i, x) ∷ d) h e = ground (
  arith,
  find-upsert_none now r j d h,
  str_eq_iff r.permission_key i,
  str_eq_iff j i,
  str_eq_iff r.permission_key j,
)

upsert-IsKeyed :
    (now : ℕ) (r : PermissionRule) (d : Rules) → IsKeyed d → IsKeyed (upsert_rules now r d)
unfolding upsert_rules find new_rule taught_again
upsert-IsKeyed now r [] h = (refl, refl, tt)
upsert-IsKeyed now r ((j, x) ∷ d) h =
    ground (arith, upsert-IsKeyed now r d h.2, find-upsert_none now r j d)

find-modify-none :
    (f : PermissionRule → PermissionRule) (k j : Str) (d : Rules)
    → find j d ≡ none
    → find j (modify k f d) ≡ none
unfolding find modify
find-modify-none f k j [] h = refl
find-modify-none f k j ((i, x) ∷ d) h = ground (arith, find-modify-none f k j d)

modify-IsKeyed :
    (f : PermissionRule → PermissionRule) (k : Str) (d : Rules)
    → ((r : PermissionRule) → (f r).permission_key ≡ r.permission_key)
    → IsKeyed d
    → IsKeyed (modify k f d)
unfolding modify
modify-IsKeyed f k [] e h = tt
modify-IsKeyed f k ((j, x) ∷ d) e h =
    ground (arith, modify-IsKeyed f k d e h.2, find-modify-none f k j d h.1, e x)

find-pop-none : (k j : Str) (d : Rules) → find j d ≡ none → find j (pop k d) ≡ none
unfolding find pop
find-pop-none k j [] h = refl
find-pop-none k j ((i, x) ∷ d) h = ground (arith, find-pop-none k j d)

pop-IsKeyed : (k : Str) (d : Rules) → IsKeyed d → IsKeyed (pop k d)
unfolding pop
pop-IsKeyed k [] h = tt
pop-IsKeyed k ((j, x) ∷ d) h = ground (arith, pop-IsKeyed k d h.2, find-pop-none k j d h.1)

-- One call: the same reply, and tables that still correspond.
pub call_agrees :
    (now : ℕ) (c : Call) (d : Rules)
    → IsKeyed d
    → let (r, d') = call_memory now c d in (call_sqlite now c (rows d) ≡ (r, rows d')) × IsKeyed d'
unfolding call_memory call_sqlite InMemory.get InMemory.upsert InMemory.delete
    InMemory.increment_approve InMemory.increment_deny Sqlite.get Sqlite.upsert Sqlite.delete
    Sqlite.increment_approve Sqlite.increment_deny
call_agrees now (get k) d h = ground (arith, select_row-rows k d h)
call_agrees now list d h = unfold InMemory.list Sqlite.list in (rw (values-rows d) refl, h)
call_agrees now (delete k) d h = ground (arith, delete_rows-rows k d h, pop-IsKeyed k d h)
call_agrees now (approve k) d h = ground (
  arith,
  update_rows-rows k (approved_once now) d h,
  add_approval-approved_once now,
  modify-IsKeyed (approved_once now) k d (λ r. unfold approved_once in refl) h,
)
call_agrees now (deny k) d h = ground (
  arith,
  update_rows-rows k (denied_once now) d h,
  add_denial-denied_once now,
  modify-IsKeyed (denied_once now) k d (λ r. unfold denied_once in refl) h,
)
call_agrees now (upsert r) d h = ground (arith, upsert-rows now r d h, upsert-IsKeyed now r d h)

-- From tables that hold the same rules, any sequence of calls at any times gets the same replies,
-- exceptions included, from the in-memory store and from the SQLite store.
pub stores_agree :
    (cs : List (ℕ × Call)) (d : Rules) → IsKeyed d → run_sqlite cs (rows d) ≡ run_memory cs d
unfolding run_memory run_sqlite
stores_agree [] d h = refl
stores_agree ((now, c) ∷ cs) d h = rw (call_agrees now c d h).0 (
    ap (λ rest. (call_memory now c d).0 ∷ rest)
      (stores_agree cs (call_memory now c d).1 (call_agrees now c d h).1))
