-- ===== src/Future.antt =====
-- common/structures.c, TwFuture: a result and an error word, guarded by a mutex and a condition word
-- whose bit 1 says that the future was reached. ppc/threading_ppc.c, TW_AwaitCondition: the wait for
-- bit 0 of the word to be cleared. What the other threads do between two looks at the word is a list
-- of actions.
pub mod Reached
pub mod Late
mod Examples
use libtwilight.Prelude.{
  ℕ, ◌+◌, ◌*◌, ◌%◌, ◌^◌, bit_and, bit_or, Bool, true, false, not, List, [], ◌∷◌, Option, none, some,
  leb, ◌==◌, if◌then◌else◌,
}

-- `struct _tw_future_st`, less its mutex.
pub record Future : Type 0 where
  pub cv_value : ℕ
  pub result : ℕ
  pub error : ℕ

-- `TW_CreateFuture`.
pub create : ℕ → ℕ → Future
create initial_result initial_error = record {
  cv_value = 0;
  result = initial_result;
  error = initial_error;
}

-- `(future->cvValue & 2) != 0`.
pub is_done : Future → Bool
is_done f = not (bit_and f.cv_value 2 == 0)

-- `((unsigned long long)error << 32) | (unsigned long long)result`.
pub result_error : Future → ℕ
result_error f = bit_or (f.error * 2 ^ 32) f.result

-- `TW_ReachFuture`.
pub reach : Future → ℕ → ℕ → Future
reach f result error = record { cv_value = 3; result = result; error = error }

-- `TW_PeekFuture`: the number returned, and what it stores at the pointer, if there is one.
pub peek : Future → Bool → Bool × Option ℕ
unfolding is_done result_error
peek f has_pointer =
    (is_done f, if is_done f then (if has_pointer then some (result_error f) else none) else none)

-- `TW_OrAtomic(cv, 1)` at the start of `TW_AwaitCondition`, and `TW_BroadcastCondition`.
pub start_waiting : ℕ → ℕ
start_waiting cv = bit_or cv 1

pub broadcast : ℕ → ℕ
broadcast cv = bit_and cv 0xfffffffe

-- What another thread may do to a future.
pub data Action : Type 0 where
  reaching : ℕ → ℕ → Action
  waits broadcasts : Action

pub act : Future → Action → Future
unfolding reach start_waiting broadcast
act f (reaching result error) = reach f result error
act f waits = record f { cv_value = start_waiting f.cv_value }
act f broadcasts = record f { cv_value = broadcast f.cv_value }

pub act_all : Future → List Action → Future
act_all f [] = f
act_all f (a ∷ actions) = act_all (act f a) actions

-- One return of `TW_AwaitCondition`: whether it timed out, and what happened since the last look.
pub record Wake : Type 0 where
  pub timed_out : Bool
  pub actions : List Action

-- A call returned, or it still waits when the list of wake-ups ends.
pub data Outcome (A : Type 0) : Type 0 where
  returned : A → Outcome A
  waiting : Outcome A

-- `TW_AwaitFuture`: it looks at the word again after each return of `TW_AwaitCondition`.
pub await : Future → List Wake → Outcome ℕ
unfolding is_done result_error
await f [] = if is_done f then returned (result_error f) else waiting
await f (w ∷ wakes) =
    let again = await (act_all (act f waits) w.actions) wakes in
    if is_done f then returned (result_error f) else again

-- `TW_AwaitFutureForTheNext`: it gives up after a time-out.
pub await_for_the_next : Future → Bool → List Wake → Outcome (Bool × Option ℕ)
unfolding is_done peek
await_for_the_next f has_pointer [] = if is_done f then returned (peek f has_pointer) else waiting
await_for_the_next f has_pointer (w ∷ wakes) =
    let later = act_all (act f waits) w.actions in
    let again = await_for_the_next later has_pointer wakes in
    if is_done f
    then returned (peek f has_pointer)
    else if w.timed_out
    then returned (peek later has_pointer)
    else again

-- One look of `TW_AwaitCondition` at the word and at the clock.
pub record Look : Type 0 where
  pub value : ℕ
  pub time : ℕ

-- The loop of `TW_AwaitCondition`: the result is 1 on a time-out and 0 on a signal.
pub look_loop : ℕ → List Look → Outcome Bool
look_loop ready_time [] = waiting
look_loop ready_time (l ∷ looks) =
    let again = look_loop ready_time looks in
    if bit_and l.value 1 == 1
    then (if leb ready_time l.time then returned true else again)
    else returned false

-- `TW_AwaitCondition`, less the mutex and the switches to other threads.
pub await_condition : ℕ → ℕ → List Look → Outcome Bool
await_condition duration_us start_time looks =
    look_loop ((start_time + 243 * duration_us % 2 ^ 64) % 2 ^ 64) looks
