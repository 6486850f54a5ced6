-- ===== src/Queue.antt =====
-- common/structures.c, TwQueue: a byte queue over a ring buffer, guarded by a mutex, whose pushes
-- and pulls wait on a condition. Positions and sizes are non-negative `int`s here. What the other
-- threads do while a call waits is the list of its wake-ups; each call runs under the mutex between
-- two of them.
pub mod Ring
pub mod Push
pub mod Pull
pub mod Idle
mod Examples
use libtwilight.Prelude.{
  ℕ, ◌+◌, ◌-◌, ◌%◌, Bool, List, [], ◌∷◌, ◌++◌, ltb, if◌then◌else◌, take, drop,
}
use libtwilight.Memory.{copy_bytes, slice}

-- `TwQueue`, less its condition value and its mutex.
pub record Queue : Type 0 where
  pub buffer : List ℕ
  pub capacity : ℕ
  pub read_pos : ℕ
  pub write_pos : ℕ

-- One return of `TW_AwaitCondition`: whether it timed out, and the queue as the other threads left it.
pub record Wake : Type 0 where
  pub timed_out : Bool
  pub queue : Queue

-- A call returned a number, or it still waits when the list of wake-ups ends.
pub data Outcome : Type 0 where
  returned : ℕ → List ℕ → Queue → Outcome
  waiting : Queue → Outcome

-- `TW_CreateQueue`.
pub create : List ℕ → ℕ → Queue
create buf capacity = record { buffer = buf; capacity = capacity; read_pos = 0; write_pos = 0 }

-- `(q->readPos - q->writePos + q->capacity) % q->capacity`.
pub space_left : Queue → ℕ
space_left q = (q.read_pos + q.capacity - q.write_pos) % q.capacity

-- `(q->writePos - q->readPos + q->capacity) % q->capacity`.
pub available : Queue → ℕ
available q = (q.write_pos + q.capacity - q.read_pos) % q.capacity

-- The part of `TW_PushToQueue` behind its loop.
pub store : Queue → List ℕ → ℕ → Queue
unfolding copy_bytes
store q obj size =
    let after = q.write_pos + size - q.capacity in
    record q {
      write_pos = (q.write_pos + size) % q.capacity;
      buffer =
          if ltb 0 after
          then copy_bytes (copy_bytes q.buffer q.write_pos obj (size - after)) 0
              (drop (size - after) obj) after
          else copy_bytes q.buffer q.write_pos obj size;
    }

pub push_loop : Queue → List ℕ → ℕ → List Wake → Outcome
push_loop q obj size [] =
    if ltb (space_left q) size then waiting q else returned size [] (store q obj size)
push_loop q obj size (w ∷ wakes) =
    let again = push_loop w.queue obj size wakes in
    if ltb (space_left q) size
    then (if w.timed_out then returned 0 [] w.queue else again)
    else returned size [] (store q obj size)

-- `TW_PushToQueue`.
pub push : Queue → List ℕ → ℕ → List Wake → Outcome
push q obj size wakes = if ltb q.capacity size then returned 0 [] q else push_loop q obj size wakes

-- The part of `TW_PullFromQueue` behind its loop: the bytes read, and the queue.
pub fetch : Queue → ℕ → List ℕ × Queue
fetch q to_read =
    let after = q.read_pos + to_read - q.capacity in
    (
      if ltb 0 after
          then slice q.buffer q.read_pos (to_read - after) ++ slice q.buffer 0 after
          else slice q.buffer q.read_pos to_read,
      record q { read_pos = (q.read_pos + to_read) % q.capacity },
    )

pub pull_loop : Queue → ℕ → List Wake → Outcome
pull_loop q to_read [] =
    if ltb (available q) to_read
    then waiting q
    else returned to_read (fetch q to_read).0 (fetch q to_read).1
pull_loop q to_read (w ∷ wakes) =
    let again = pull_loop w.queue to_read wakes in
    if ltb (available q) to_read
    then (if w.timed_out then returned 0 [] w.queue else again)
    else returned to_read (fetch q to_read).0 (fetch q to_read).1

-- `TW_PullFromQueue`: the number returned, and the bytes written to `obj`.
pub pull : Queue → ℕ → List Wake → Outcome
pull q size wakes = pull_loop q (if ltb size q.capacity then size else q.capacity) wakes
