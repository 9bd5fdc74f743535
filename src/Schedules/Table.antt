-- ===== src/Schedules/Table.antt =====
-- Lookups after updates of the table of schedules, and which rows a selection keeps.
use agent_os_langgraph.Prelude.{
  ℕ, zero, suc, ◌≤◌, ◌≡◌, refl, ap, ◌∙◌, Bool, true, false, ◌||◌, Option, none, some, List, [], ◌∷◌,
  arith, if◌then◌else◌, select, take, length,
}
use agent_os_langgraph.Text.{Str, str_eq, str_eq_iff}
use agent_os_langgraph.Schedules.{
  Schedule, get_schedule, update_schedule, is_due, insert_by_next, sort_by_next, due_rows,
}

-- The primary key of `schedules`.
abbrev pub IsUnique : List Schedule → Type 0
IsUnique [] = Unit
IsUnique (s ∷ ss) = (get_schedule s.schedule_id ss ≡ none) × IsUnique ss

abbrev pub map_schedule : (Schedule → Schedule) → Option Schedule → Option Schedule
map_schedule f none = none
map_schedule f (some s) = some (f s)

abbrev pub KeepsId : (Schedule → Schedule) → Type 0
KeepsId f = (s : Schedule) → (f s).schedule_id ≡ s.schedule_id

-- A row of some rows has this id.
abbrev pub has_id : Str → List Schedule → Bool
has_id id [] = false
has_id id (s ∷ ss) = str_eq id s.schedule_id || has_id id ss

get_schedule-same :
    (i j : Str) (t : List Schedule) → str_eq i j ≡ true → get_schedule i t ≡ get_schedule j t
get_schedule-same i j t h = ap (λ (k : Str). get_schedule k t) ((str_eq_iff i j).0 h)

-- An update changes the row of its id alone.
pub get_schedule-update :
    (id : Str) (f : Schedule → Schedule) (t : List Schedule) (j : Str)
    → KeepsId f
    → get_schedule j (update_schedule id f t).1
      ≡ (if str_eq j id then map_schedule f (get_schedule j t) else get_schedule j t)
unfolding get_schedule update_schedule
get_schedule-update id f [] j k = ground arith
get_schedule-update id f (s ∷ t) j k = ground (
  arith,
  get_schedule-update id f t j k,
  k s,
  str_eq_iff id s.schedule_id,
  str_eq_iff j s.schedule_id,
  str_eq_iff j id,
)

pub update-IsUnique :
    (id : Str) (f : Schedule → Schedule) (t : List Schedule)
    → KeepsId f
    → IsUnique t
    → IsUnique (update_schedule id f t).1
unfolding update_schedule
update-IsUnique id f [] k u = tt
update-IsUnique id f (s ∷ t) k u =
    ground
      (arith, update-IsUnique id f t k u.1, get_schedule-update id f t s.schedule_id k, k s, u.0)

-- What the lookup says of a row that is selected: it is the row of its id.
pub has_id-select :
    (p : Schedule → Bool) (id : Str) (t : List Schedule)
    → IsUnique t
    → has_id id (select p t) ≡ (elim (get_schedule id t) [ none ↦ false | some s ↦ p s ])
unfolding get_schedule
has_id-select p id [] u = refl
has_id-select p id (s ∷ t) u =
    ground (arith, has_id-select p id t u.1, u.0, get_schedule-same id s.schedule_id t)

has_id-insert :
    (id : Str) (s : Schedule) (t : List Schedule)
    → has_id id (insert_by_next s t) ≡ (str_eq id s.schedule_id || has_id id t)
unfolding insert_by_next
has_id-insert id s [] = refl
has_id-insert id s (r ∷ t) = ground (arith, has_id-insert id s t)

has_id-sort : (id : Str) (t : List Schedule) → has_id id (sort_by_next t) ≡ has_id id t
unfolding sort_by_next
has_id-sort id [] = refl
has_id-sort id (s ∷ t) = ground (arith, has_id-sort id t, has_id-insert id s (sort_by_next t))

length-insert : (s : Schedule) (t : List Schedule) → length (insert_by_next s t) ≡ suc (length t)
unfolding insert_by_next
length-insert s [] = refl
length-insert s (r ∷ t) = ground (arith, length-insert s t)

length-sort : (t : List Schedule) → length (sort_by_next t) ≡ length t
unfolding sort_by_next
length-sort [] = refl
length-sort (s ∷ t) = ground (arith, length-sort t, length-insert s (sort_by_next t))

has_id-take :
    (id : Str) (n : ℕ) (t : List Schedule) → has_id id t ≡ false → has_id id (take n t) ≡ false
has_id-take id zero t h = refl
has_id-take id (suc n) [] h = refl
has_id-take id (suc n) (s ∷ t) h = ground (arith, has_id-take id n t)

take_all : (n : ℕ) (t : List Schedule) → length t ≤ n → take n t ≡ t
take_all zero [] h = refl
take_all zero (s ∷ t) h = absurd (omega arith)
take_all (suc n) [] h = refl
take_all (suc n) (s ∷ t) h = ap (λ (r : List Schedule). s ∷ r) (take_all n t (omega arith))

-- The row of an id is due.
abbrev pub due_at : ℕ → Option Schedule → Bool
due_at now none = false
due_at now (some s) = is_due now s

-- A claim selects no row that is not due.
pub due_rows-due :
    (id : Str) (now limit : ℕ) (t : List Schedule)
    → IsUnique t
    → due_at now (get_schedule id t) ≡ false
    → has_id id (due_rows now limit t) ≡ false
unfolding due_rows
due_rows-due id now limit t u h =
    has_id-take id limit _ (has_id-sort id _ ∙ has_id-select (is_due now) id t u ∙ h)

-- Where the limit covers them, it selects all that are.
pub due_rows-all :
    (id : Str) (now limit : ℕ) (t : List Schedule)
    → IsUnique t
    → length (select (is_due now) t) ≤ limit
    → has_id id (due_rows now limit t) ≡ due_at now (get_schedule id t)
unfolding due_rows
due_rows-all id now limit t u h =
    ap (has_id id) (take_all limit _ (rw length-sort h))
    ∙ has_id-sort id _
    ∙ has_id-select (is_due now) id t u
