-- ===== src/Threads.antt =====
-- ppc/threading_ppc.c: mutexes, the list of scheduled tasks, and the table of threads. Interrupts are
-- disabled while the list and the table change, so a change is one step.
pub mod Lock
pub mod Tasks
pub mod Start
mod Examples
use libtwilight.Prelude.{
  ℕ, zero, suc, ◌+◌, ◌-◌, ◌*◌, ◌/◌, ◌%◌, ◌^◌, bit_and, bit_or, Bool, true, false, ◌&&◌, ◌||◌, not,
  List, [], ◌∷◌, Option, none, some, ltb, leb, ◌==◌, if◌then◌else◌, get_elem?, set, length, take,
  drop,
}
use libtwilight.Prelude.Int.{ℤ, pos, negsuc}
use libtwilight.Prelude.Bits.{complement}

-- Where a thread is with one mutex: it does not want it, it is in the loop of `TW_LockMutex`, or that call
-- has returned.
pub data Phase : Type 0 where
  away trying inside : Phase

-- The word of the mutex, and the phase of each thread.
pub record Mutex : Type 0 where
  pub word : ℕ
  pub phase : ℕ → Phase

-- `TW_GetAndSetAtomic`: the value before, and the value behind.
pub get_and_set : ℕ → ℕ → ℕ × ℕ
get_and_set word value = (word, value)

abbrev pub set_phase : (ℕ → Phase) → ℕ → Phase → ℕ → Phase
set_phase phase t p i = if i == t then p else phase i

-- One evaluation of `TW_GetAndSetAtomic(mutex, 1)` in `TW_LockMutex` by the thread `t`, at its start or in
-- its loop.
pub try_lock : Mutex → ℕ → Mutex
unfolding get_and_set
try_lock m t =
    let (prev, word) = get_and_set m.word 1 in
    record { word = word; phase = set_phase m.phase t (if prev == 0 then inside else trying) }

-- `TW_UnlockMutex` by the thread `t`.
pub unlock : Mutex → ℕ → Mutex
unfolding get_and_set
unlock m t =
    let (prev, word) = get_and_set m.word 0 in
    record { word = word; phase = set_phase m.phase t away }

-- `struct _tw_schedule`.
pub record Task : Type 0 where
  pub entry_point : ℕ
  pub user_data : ℕ
  pub time_ready_high : ℕ
  pub time_ready_low : ℕ

-- `_tw_highest_schedule`, `_tw_thread_schedule_list` and the timer interrupt that was asked for last.
pub record Schedule : Type 0 where
  pub highest : ℕ
  pub tasks : List Task
  pub timer : Option ℕ

-- `(s->entryPoint & 1) == 0`.
pub is_free : Task → Bool
is_free s = bit_and s.entry_point 1 == 0

-- `((unsigned long long)timeReadyHigh << 32) | (timeReadyLow & 0xffffFFFF)`.
pub ready_time : Task → ℕ
ready_time s = bit_or (s.time_ready_high * 2 ^ 32) (bit_and s.time_ready_low 0xffffffff)

-- The loop of `_tw_dispatch_handler` over the rest of the list: the lowest time so far, and the task with
-- that time.
pub dispatch_loop : List Task → ℕ → Option (ℕ × ℕ) → ℕ × Option (ℕ × ℕ)
unfolding is_free ready_time
dispatch_loop [] lowest found = (lowest, found)
dispatch_loop (s ∷ tasks) lowest found =
    let t = ready_time s in
    let skip = dispatch_loop tasks lowest found in
    let take_it =
      dispatch_loop tasks t (some (bit_and s.entry_point (complement 32 1), s.user_data)) in
    if is_free s then skip else if not (t == 0) && ltb t lowest then take_it else skip

-- `if (taskEntry)`.
abbrev pub called : Option (ℕ × ℕ) → Option (ℕ × ℕ)
called none = none
called (some (entry, user_data)) = if entry == 0 then none else some (entry, user_data)

-- `_tw_dispatch_handler`: the function that it calls, and its argument.
pub dispatch : Schedule → Option (ℕ × ℕ)
unfolding dispatch_loop
dispatch s = called (dispatch_loop (take s.highest s.tasks) (2 ^ 64 - 1) none).1

-- The loop of `TW_ScheduleTask` from index `i` on: the slot, and whether to set the timer. It ends when both
-- are known.
pub slot_loop : List Task → ℕ → ℕ → Option ℕ → Bool → Option ℕ × Bool
unfolding is_free ready_time
slot_loop [] ready i slot should = (slot, should)
slot_loop (s ∷ tasks) ready i none should =
    let free = slot_loop tasks ready (suc i) (some i) should in
    let next = slot_loop tasks ready (suc i) none (should || ltb ready (ready_time s)) in
    if is_free s then free else next
slot_loop (s ∷ tasks) ready i (some slot) true = (some slot, true)
slot_loop (s ∷ tasks) ready i (some slot) false =
    let free = slot_loop tasks ready (suc i) (some i) false in
    let next = slot_loop tasks ready (suc i) (some slot) (ltb ready (ready_time s)) in
    if is_free s then free else next

-- What a call of `TW_ScheduleTask` did: it called the task at once, it refused it, or it stored it.
pub data Answer : Type 0 where
  ran refused stored : Answer

abbrev pub slot_or : Option ℕ → ℕ → ℕ
slot_or none highest = bit_and highest 0x3ff
slot_or (some i) highest = i

-- `TW_ScheduleTask`, at the time `now`.
pub schedule_task : Schedule → ℤ → (user_data task_entry now : ℕ) → Answer × Schedule
unfolding slot_loop
schedule_task s (pos (suc n)) user_data task_entry now =
    let delta = 243 * suc n in
    let ready = (now + delta) % 2 ^ 64 in
    let (slot, should) = slot_loop (take s.highest s.tasks) ready 0 none false in
    let task : Task = record {
      entry_point = bit_or task_entry 1;
      user_data = user_data;
      time_ready_high = ready / 2 ^ 32;
      time_ready_low = bit_and ready 0xffffffff;
    } in
    if leb delta (2 ^ 31) then (refused, s) else (
      stored,
      record s {
        tasks = set s.tasks (slot_or slot s.highest) task;
        timer = (if should then some delta else s.timer);
      },
    )
schedule_task s duration user_data task_entry now = (ran, s)

-- `struct _tw_thread`; `registers` is the address of its context.
pub record Thread : Type 0 where
  pub flags : ℕ
  pub id : ℕ
  pub stack_start : ℕ
  pub user_data : ℕ
  pub waiting_cv : ℕ
  pub registers : ℕ

-- The registers of a context that a new thread starts with.
pub record Context : Type 0 where
  pub stack : ℕ
  pub toc : ℕ
  pub argument : ℕ
  pub small_data : ℕ
  pub pc : ℕ
  pub lr : ℕ

-- `_tw_threads`, `_tw_thread_count` and the contexts by their addresses.
pub record Table : Type 0 where
  pub threads : List Thread
  pub thread_count : ℕ
  pub contexts : ℕ → Context

-- `(t->flags & TW_THREAD_FLAG_ACTIVE) != 0`.
pub is_active : Thread → Bool
is_active t = not (bit_and t.flags 1 == 0)

-- The loop of `TW_StartThread` from index `i` on: the index of a thread that is not active.
pub find_thread : List Thread → ℕ → Option (ℕ × Thread)
unfolding is_active
find_thread [] i = none
find_thread (t ∷ ts) i =
    let rest = find_thread ts (suc i) in if is_active t then rest else some (i, t)

-- `if (!stackStart) stackStart = ...`, with what the heap gives.
abbrev pub or_allocated : ℕ → ℕ → ℕ
or_allocated pointer allocated = if pointer == 0 then allocated else pointer

-- The rest of `TW_StartThread`, which takes the thread it found.
pub start_found :
    Table
    → (user_data entry_point toc end_thread new_stack new_registers : ℕ) → Option (ℕ × Thread)
    → Bool × Table
start_found s user_data entry_point toc end_thread new_stack new_registers none = (false, s)
start_found s user_data entry_point toc end_thread new_stack new_registers (some (i, t)) =
    let stack_start = or_allocated t.stack_start new_stack in
    let registers = or_allocated t.registers new_registers in
    let context : Context = record {
      stack = stack_start;
      toc = toc;
      argument = user_data;
      small_data = toc;
      pc = entry_point;
      lr = end_thread;
    } in
    let thread : Thread = record {
      flags = bit_or (bit_or t.flags 1) 2;
      id = i;
      stack_start = stack_start;
      user_data = user_data;
      waiting_cv = t.waiting_cv;
      registers = registers;
    } in
    (
      true,
      record {
        threads = set s.threads i thread;
        thread_count = (if leb s.thread_count i then i + 1 else s.thread_count);
        contexts = (λ a. if a == registers then context else s.contexts a);
      },
    )

-- `TW_StartThread`: the number returned, and the table; the stack and the context that the heap gives, the
-- TOC pointer and the address of `TW_EndThisThread` are arguments.
pub start_thread :
    Table → (user_data entry_point toc end_thread new_stack new_registers : ℕ) → Bool × Table
unfolding find_thread start_found
start_thread s user_data entry_point toc end_thread new_stack new_registers =
    start_found s user_data entry_point toc end_thread new_stack new_registers
      (find_thread (drop 1 s.threads) 1)
