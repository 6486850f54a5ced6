-- ===== src/Threads/Examples.antt =====
-- The theorems about mutexes, tasks and threads at concrete ones.
use libtwilight.Prelude.{
  ℕ, suc, ◌≡◌, ◌≢◌, ◌⊎◌, refl, List, [], ◌∷◌, none, some, get_elem?, true, false,
}
use libtwilight.Prelude.Int.{pos}
use libtwilight.Threads.{
  inside, Mutex, try_lock, Task, ran, refused, stored, dispatch, Thread, Table, is_active,
  start_thread, get_and_set,
}
use libtwilight.Threads.Lock.{locks, created, Reached, at_start, behind, Reached-exclusive}
use libtwilight.Threads.Tasks.{
  Call, schedule_all, answers, unraised, with_task, last_stored, dispatch-schedule_all,
}
use libtwilight.Threads.Start.{IsFirst, IsStarted, start_thread-starts}

-- Thread 0 has locked the mutex, and thread 1 tries to.
abbrev contended : Mutex
contended = try_lock (try_lock created 0) 1

contended-Reached : Reached contended
unfolding try_lock get_and_set
contended-Reached =
    behind (behind at_start (locks created 0 refl)) (locks (try_lock created 0) 1 refl)

Reached-exclusive_example :
    ((i j : ℕ) → contended.phase i ≡ inside → contended.phase j ≡ inside → i ≡ j)
    × (((i : ℕ) → contended.phase i ≢ inside) → (t : ℕ) → (try_lock contended t).phase t ≡ inside)
Reached-exclusive_example = Reached-exclusive contended contended-Reached

-- As the program starts, but with four of the 1024 slots.
abbrev slots : List Task
slots =
    let free : Task = record {
      entry_point = 0;
      user_data = 0;
      time_ready_high = 0;
      time_ready_low = 0;
    } in
    free ∷ free ∷ free ∷ free ∷ []

-- No time at all, ten seconds, one second, and twenty seconds.
abbrev calls : List Call
calls =
    record { duration = pos 0; user_data = 0; task_entry = 0x80000100; now = 4 }
    ∷ record { duration = pos 10000000; user_data = 1; task_entry = 0x80001000; now = 5 }
    ∷ record { duration = pos 1000000; user_data = 3; task_entry = 0x80003000; now = 5 }
    ∷ record { duration = pos 20000000; user_data = 2; task_entry = 0x80002000; now = 6 }
    ∷ []

dispatch-schedule_all_example :
    let s = schedule_all (unraised slots none) calls in
    (answers (unraised slots none) calls ≡ ran ∷ stored ∷ refused ∷ stored ∷ [])
    × (s ≡ unraised (with_task slots (last_stored calls)) none)
    × (dispatch s ≡ none)
dispatch-schedule_all_example = dispatch-schedule_all slots none calls

abbrev thread : ℕ → Thread
thread flags = record {
  flags = flags;
  id = 0;
  stack_start = 0;
  user_data = 0;
  waiting_cv = 0;
  registers = 0;
}

abbrev table : Table
table = record {
  threads = thread 3 ∷ thread 1 ∷ thread 0 ∷ [];
  thread_count = 2;
  contexts = (λ a. record { stack = 0; toc = 0; argument = 0; small_data = 0; pc = 0; lr = 0 });
}

start_thread-starts_example :
    let ts = thread 1 ∷ thread 0 ∷ [] in
    let r = start_thread table 7 0x80003000 1 2 0x90000000 0x90008000 in
    ((r ≡ (false, table)) × ((j : ℕ) (u : Thread) → get_elem? ts j ≡ some u → is_active u ≡ true))
    ⊎ ((i : ℕ) × (t : Thread) × IsFirst ts i t
        × (r.0 ≡ true)
        × IsStarted table r.1 (suc i) 7 0x80003000)
start_thread-starts_example =
    start_thread-starts table (thread 3) (thread 1 ∷ thread 0 ∷ []) 7 0x80003000 1 2 0x90000000
      0x90008000 refl
