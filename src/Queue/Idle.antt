-- ===== src/Queue/Idle.antt =====
-- A queue as `TW_CreateQueue` makes it. Equal positions count as "no room" in a push and as "nothing
-- there" in a pull, so neither ever goes through.
use libtwilight.Prelude.{
  ℕ, ◌+◌, ◌-◌, ◌%◌, ◌≤◌, ◌<◌, ◌≡◌, refl, ◌⊎◌, inl, inr, List, [], ◌∷◌, arith, ltb, if◌then◌else◌,
  lt→ltb, Bool-cases, true, ap, ◌∙◌,
}
use native.Mathlib.Nat.{mod_self}
use libtwilight.Queue.{
  Queue, Wake, Outcome, waiting, returned, create, space_left, available, store, fetch, push, pull,
  push_loop, pull_loop,
}

-- What a thread can do to the queue under the mutex: the end of a push or of a pull of at least one
-- byte, once the test of its loop lets it pass.
pub data Step : Queue → Queue → Type 0 where
  pushed :
      (q : Queue) (obj : List ℕ) (size : ℕ)
      → 0 < size
      → size ≤ space_left q
      → Step q (store q obj size)
  pulled : (q : Queue) (size : ℕ) → 0 < size → size ≤ available q → Step q (fetch q size).1

-- The queues that any number of threads can bring about, in any order.
pub data Reach (q : Queue) : Queue → Type 0 where
  here : Reach q q
  next : {r s : Queue} → Reach q r → Step r s → Reach q s

-- The other threads left a queue that they can reach.
abbrev pub AllReach : Queue → List Wake → Type 0
AllReach q [] = Unit {0}
AllReach q (w ∷ wakes) = Reach q w.queue × AllReach q wakes

-- The call moved no byte: it still waits, or it gave up, and the queue is `q`.
abbrev pub NoTransfer : Queue → Outcome → Type 0
NoTransfer q r = (r ≡ waiting q) ⊎ (r ≡ returned 0 [] q)

created_space : (buf : List ℕ) (capacity : ℕ) → space_left (create buf capacity) ≡ 0
unfolding space_left create
created_space buf capacity =
    let e : 0 + capacity - 0 ≡ capacity = omega arith in
    ap (λ (t : ℕ). t % capacity) e ∙ mod_self capacity

created_available : (buf : List ℕ) (capacity : ℕ) → available (create buf capacity) ≡ 0
unfolding available create
created_available buf capacity =
    let e : 0 + capacity - 0 ≡ capacity = omega arith in
    ap (λ (t : ℕ). t % capacity) e ∙ mod_self capacity

Step-created :
    (buf : List ℕ) (capacity : ℕ) {r s : Queue}
    → r ≡ create buf capacity
    → Step r s
    → s ≡ create buf capacity
Step-created buf capacity e (pushed q obj size pos room) =
    absurd (omega (arith, created_space buf capacity, ap space_left e))
Step-created buf capacity e (pulled q size pos enough) =
    absurd (omega (arith, created_available buf capacity, ap available e))

-- However threads push and pull, a queue stays exactly as `TW_CreateQueue` made it.
Reach-created :
    (buf : List ℕ) (capacity : ℕ) {q : Queue}
    → Reach (create buf capacity) q
    → q ≡ create buf capacity
Reach-created buf capacity here = refl
Reach-created buf capacity (next r st) = Step-created buf capacity (Reach-created buf capacity r) st

module _ (buf : List ℕ) (capacity : ℕ) where
  push_loop_stuck :
      (q : Queue) (obj : List ℕ) (size : ℕ) (wakes : List Wake)
      → q ≡ create buf capacity
      → 0 < size
      → AllReach (create buf capacity) wakes
      → NoTransfer (create buf capacity) (push_loop q obj size wakes)
  unfolding push_loop
  push_loop_stuck q obj size [] e pos _ =
      let none_left : ltb (space_left q) size ≡ true =
        lt→ltb _ _ (omega (arith, created_space buf capacity, ap space_left e)) in
      inl (rw none_left (ap waiting e))
  push_loop_stuck q obj size (w ∷ wakes) e pos (r, rs) =
      let none_left : ltb (space_left q) size ≡ true =
        lt→ltb _ _ (omega (arith, created_space buf capacity, ap space_left e)) in
      let same = Reach-created buf capacity r in
      elim (Bool-cases w.timed_out) [
        | inl out ↦ inr (rw (none_left, out) (ap (returned 0 []) same))
        | inr again ↦ rw (none_left, again) (push_loop_stuck w.queue obj size wakes same pos rs)
      ]

  pull_loop_stuck :
      (q : Queue) (size : ℕ) (wakes : List Wake)
      → q ≡ create buf capacity
      → 0 < size
      → AllReach (create buf capacity) wakes
      → NoTransfer (create buf capacity) (pull_loop q size wakes)
  unfolding pull_loop
  pull_loop_stuck q size [] e pos _ =
      let nothing : ltb (available q) size ≡ true =
        lt→ltb _ _ (omega (arith, created_available buf capacity, ap available e)) in
      inl (rw nothing (ap waiting e))
  pull_loop_stuck q size (w ∷ wakes) e pos (r, rs) =
      let nothing : ltb (available q) size ≡ true =
        lt→ltb _ _ (omega (arith, created_available buf capacity, ap available e)) in
      let same = Reach-created buf capacity r in
      elim (Bool-cases w.timed_out) [
        | inl out ↦ inr (rw (nothing, out) (ap (returned 0 []) same))
        | inr again ↦ rw (nothing, again) (pull_loop_stuck w.queue size wakes same pos rs)
      ]

  -- No push of at least one byte into a created queue ever goes through, whatever other threads push
  -- and pull while it waits: it waits on, or it times out and returns 0.
  pub push_stuck :
      (obj : List ℕ) (size : ℕ) (wakes : List Wake)
      → 0 < size
      → AllReach (create buf capacity) wakes
      → NoTransfer (create buf capacity) (push (create buf capacity) obj size wakes)
  unfolding push
  push_stuck obj size wakes pos rs = elim (Bool-cases (ltb (create buf capacity).capacity size)) [
    | inl large ↦ inr (rw large refl)
    | inr fits ↦ rw fits (push_loop_stuck (create buf capacity) obj size wakes refl pos rs)
  ]

  -- No pull of at least one byte from a created queue ever goes through either.
  pull_stuck :
      (size : ℕ) (wakes : List Wake)
      → 0 < size
      → 0 < capacity
      → AllReach (create buf capacity) wakes
      → NoTransfer (create buf capacity) (pull (create buf capacity) size wakes)
  unfolding pull create
  pull_stuck size wakes pos room rs =
      pull_loop_stuck (create buf capacity) (if ltb size capacity then size else capacity) wakes
        refl (ground arith) rs
