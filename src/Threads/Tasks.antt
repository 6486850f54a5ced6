-- ===== src/Threads/Tasks.antt =====
-- ppc/threading_ppc.c, TW_ScheduleTask and _tw_dispatch_handler: what becomes of a task that is scheduled.
-- Nothing in the repository writes `_tw_highest_schedule`, which is 0 from the start.
use libtwilight.Prelude.{
  ℕ, zero, suc, ◌+◌, ◌*◌, ◌/◌, ◌%◌, ◌^◌, ◌≡◌, refl, ap, ◌∙◌, bit_and, bit_or, Bool, true, false,
  List, [], ◌∷◌, Option, none, some, set, leb, if◌then◌else◌, Bool-cases, inl, inr,
}
use mathlib.Core.List.{map}
use libtwilight.Prelude.Int.{ℤ, pos, negsuc}
use libtwilight.Threads.{
  Task, Schedule, dispatch, dispatch_loop, Answer, ran, refused, stored, slot_loop, schedule_task,
}

-- Calls of `TW_ScheduleTask`, each with its duration, user data, entry and time.
pub record Call : Type 0 where
  pub duration : ℤ
  pub user_data : ℕ
  pub task_entry : ℕ
  pub now : ℕ

abbrev pub schedule : Schedule → Call → Answer × Schedule
schedule s c = schedule_task s c.duration c.user_data c.task_entry c.now

-- The list behind some calls, and what each call did.
pub schedule_all : Schedule → List Call → Schedule
schedule_all s [] = s
schedule_all s (c ∷ calls) = schedule_all (schedule s c).1 calls

pub answers : Schedule → List Call → List Answer
answers s [] = []
answers s (c ∷ calls) = (schedule s c).0 ∷ answers (schedule s c).1 calls

-- The list as every run of the program has it.
abbrev pub unraised : List Task → Option ℕ → Schedule
unraised tasks timer = record { highest = 0; tasks = tasks; timer = timer }

-- What a call does, by its duration in microseconds of 243 cycles.
abbrev pub answer_to : ℤ → Answer
answer_to (pos zero) = ran
answer_to (pos (suc n)) = if leb (243 * suc n) (2 ^ 31) then refused else stored
answer_to (negsuc n) = ran

abbrev pub is_stored : Answer → Bool
is_stored stored = true
is_stored refused = false
is_stored ran = false

abbrev cycles : ℤ → ℕ
cycles (pos n) = 243 * n
cycles (negsuc n) = 0

abbrev pub task_of : Call → Task
task_of c =
    let ready = (c.now + cycles c.duration) % 2 ^ 64 in
    record {
      entry_point = bit_or c.task_entry 1;
      user_data = c.user_data;
      time_ready_high = ready / 2 ^ 32;
      time_ready_low = bit_and ready 0xffffffff;
    }

-- The last call whose task is stored.
abbrev pub last_stored : List Call → Option Call
last_stored [] = none
last_stored (c ∷ calls) = elim (last_stored calls) [
  | none ↦ if is_stored (answer_to c.duration) then some c else none
  | some d ↦ some d
]

-- The slots with that task in the first.
abbrev pub with_task : List Task → Option Call → List Task
with_task tasks none = tasks
with_task tasks (some c) = set tasks 0 (task_of c)

schedule_one : Call → Option Call
schedule_one c = if is_stored (answer_to c.duration) then some c else none

schedule-unraised :
    (tasks : List Task) (timer : Option ℕ) (c : Call)
    → schedule (unraised tasks timer) c
      ≡ (answer_to c.duration, unraised (with_task tasks (schedule_one c)) timer)
unfolding schedule_task slot_loop schedule_one
schedule-unraised tasks timer c = by_duration c.duration c.user_data c.task_entry c.now
  where
    by_duration :
        (d : ℤ) (u e now : ℕ)
        → let call : Call = record { duration = d; user_data = u; task_entry = e; now = now } in
          schedule_task (unraised tasks timer) d u e now
          ≡ (answer_to d, unraised (with_task tasks (schedule_one call)) timer)
    by_duration (pos zero) u e now = refl
    by_duration (pos (suc n)) u e now = elim (Bool-cases (leb (243 * suc n) (2 ^ 31))) [
      | inl short ↦ rw short refl
      | inr long ↦ rw long refl
    ]
    by_duration (negsuc n) u e now = refl

set-set_first : (tasks : List Task) (t u : Task) → set (set tasks 0 t) 0 u ≡ set tasks 0 u
set-set_first [] t u = refl
set-set_first (x ∷ tasks) t u = refl

with_task-later :
    (tasks : List Task) (first last : Option Call)
    → with_task (with_task tasks first) last
      ≡ with_task tasks (elim last [ none ↦ first | some d ↦ some d ])
with_task-later tasks first none = refl
with_task-later tasks none (some d) = refl
with_task-later tasks (some c) (some d) = set-set_first tasks (task_of c) (task_of d)

schedule_all-unraised :
    (tasks : List Task) (timer : Option ℕ) (calls : List Call)
    → schedule_all (unraised tasks timer) calls
      ≡ unraised (with_task tasks (last_stored calls)) timer
unfolding schedule_all schedule_one
schedule_all-unraised tasks timer [] = refl
schedule_all-unraised tasks timer (c ∷ calls) =
    ap (λ (r : Answer × Schedule). schedule_all r.1 calls) (schedule-unraised tasks timer c)
    ∙ schedule_all-unraised (with_task tasks (schedule_one c)) timer calls
    ∙ ap (λ (ts : List Task). unraised ts timer)
        (with_task-later tasks (schedule_one c) (last_stored calls))

answers-unraised :
    (tasks : List Task) (timer : Option ℕ) (calls : List Call)
    → answers (unraised tasks timer) calls ≡ map (λ (c : Call). answer_to c.duration) calls
unfolding answers
answers-unraised tasks timer [] = refl
answers-unraised tasks timer (c ∷ calls) =
    ap (λ (r : Answer × Schedule). r.0 ∷ answers r.1 calls) (schedule-unraised tasks timer c)
    ∙ ap (λ (rest : List Answer). answer_to c.duration ∷ rest)
        (answers-unraised (with_task tasks (schedule_one c)) timer calls)

-- What becomes of tasks, by any calls of `TW_ScheduleTask` on a list whose `_tw_highest_schedule` is 0, as in
-- every run: a task with a duration of 0 or less is run at once by its call, one with at most 2^31 cycles is
-- refused, and any other is stored in slot 0, over the one stored before; all other slots and the timer are
-- as they were. No stored task is ever run: behind any calls `_tw_dispatch_handler` calls nothing.
pub dispatch-schedule_all :
    (tasks : List Task) (timer : Option ℕ) (calls : List Call)
    → let s = schedule_all (unraised tasks timer) calls in
      (answers (unraised tasks timer) calls ≡ map (λ (c : Call). answer_to c.duration) calls)
      × (s ≡ unraised (with_task tasks (last_stored calls)) timer)
      × (dispatch s ≡ none)
unfolding dispatch dispatch_loop
dispatch-schedule_all tasks timer calls =
    let same = schedule_all-unraised tasks timer calls in
    (answers-unraised tasks timer calls, same, ap dispatch same)
