-- ===== src/Future/Late.antt =====
-- TW_ReachFuture sets the whole word to 3, so that bit 0, which TW_AwaitCondition waits for, stays set.
use libtwilight.Prelude.{
  ◌⊎◌, inl, inr, ℕ, ◌+◌, ◌*◌, ◌%◌, ◌^◌, ◌≡◌, refl, ap, ◌∙◌, Bool, true, false, List, [], ◌∷◌, leb,
  if◌then◌else◌, bit_and, ◌==◌,
}
use libtwilight.Future.{
  Future, Action, reaching, waits, broadcasts, act, act_all, start_waiting, reach, Look, Outcome,
  returned, waiting, look_loop, await_condition,
}
use libtwilight.Future.Reached.{word_of}

-- What others do to the future between two looks, and the time of the second.
abbrev pub Round : Type 0
Round = List Action × ℕ

-- The looks of a thread that waits for `f` while others act on it.
pub looks_of : Future → List Round → List Look
looks_of f [] = []
looks_of f ((actions, time) ∷ rounds) =
    record { value = (act_all f actions).cv_value; time = time }
    ∷ looks_of (act_all f actions) rounds

abbrev pub NoBroadcast : List Action → Type 0
NoBroadcast [] = Unit {0}
NoBroadcast (reaching result error ∷ actions) = NoBroadcast actions
NoBroadcast (waits ∷ actions) = NoBroadcast actions
NoBroadcast (broadcasts ∷ actions) = ⊥

abbrev pub AllQuiet : List Round → Type 0
AllQuiet [] = Unit {0}
AllQuiet ((actions, time) ∷ rounds) = NoBroadcast actions × AllQuiet rounds

-- The outcome of a wait that only the clock ends.
pub by_clock : ℕ → List Round → Outcome Bool
by_clock ready_time [] = waiting
by_clock ready_time ((actions, time) ∷ rounds) =
    if leb ready_time time then returned true else by_clock ready_time rounds

-- Bit 0 is set: the word is 1 or 3.
abbrev IsAwaited : Future → Type 0
IsAwaited f = (d : Bool) × (f.cv_value ≡ word_of d true)

act-IsAwaited :
    (f : Future) (actions : List Action)
    → NoBroadcast actions
    → IsAwaited f
    → IsAwaited (act_all f actions)
unfolding act_all act start_waiting reach
act-IsAwaited f [] h v = v
act-IsAwaited f (reaching x y ∷ actions) h v =
    act-IsAwaited (act f (reaching x y)) actions h (true, refl)
act-IsAwaited f (waits ∷ actions) h (d, e) =
    act-IsAwaited (act f waits) actions h (d, ap start_waiting e ∙ waits_awaited d)
  where
    waits_awaited : (d : Bool) → start_waiting (word_of d true) ≡ word_of d true
    waits_awaited true = refl
    waits_awaited false = refl
act-IsAwaited f (broadcasts ∷ actions) h v = absurd h

awaited_bit : (f : Future) → IsAwaited f → (bit_and f.cv_value 1 == 1) ≡ true
awaited_bit f (true, e) = ap (λ (n : ℕ). bit_and n 1 == 1) e
awaited_bit f (false, e) = ap (λ (n : ℕ). bit_and n 1 == 1) e

look_loop-by_clock :
    (ready_time : ℕ) (f : Future) (rounds : List Round)
    → AllQuiet rounds
    → IsAwaited f
    → look_loop ready_time (looks_of f rounds) ≡ by_clock ready_time rounds
unfolding look_loop looks_of by_clock
look_loop-by_clock ready f [] h v = refl
look_loop-by_clock ready f ((actions, time) ∷ rounds) (h, hs) v =
    let v' = act-IsAwaited f actions h v in
    rw
      (
        awaited_bit (act_all f actions) v',
        look_loop-by_clock ready (act_all f actions) rounds hs v',
      )
      refl

-- A thread in TW_AwaitCondition on a future that others only reach and wait for, never broadcast, is
-- not woken by TW_ReachFuture: only the clock ends its wait, with a time-out, at the first look at or
-- behind the time that the call computed. It waits on if there is no such look.
await_condition-by_clock :
    (duration_us start_time : ℕ) (f : Future) (rounds : List Round)
    → AllQuiet rounds
    → (f.cv_value ≡ 0) ⊎ (f.cv_value ≡ 2)
    → await_condition duration_us start_time (looks_of (act f waits) rounds)
      ≡ by_clock ((start_time + 243 * duration_us % 2 ^ 64) % 2 ^ 64) rounds
unfolding await_condition act start_waiting
await_condition-by_clock duration start f rounds h (inl e) =
    look_loop-by_clock _ (act f waits) rounds h (false, ap start_waiting e)
await_condition-by_clock duration start f rounds h (inr e) =
    look_loop-by_clock _ (act f waits) rounds h (true, ap start_waiting e)
