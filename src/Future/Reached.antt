-- ===== src/Future/Reached.antt =====
-- What the callers of TW_PeekFuture and TW_AwaitFuture see of a future that other threads reach, wait
-- for and broadcast.
use libtwilight.Prelude.{
  ℕ, ◌*◌, ◌<◌, ◌^◌, ◌%◌, ◌/◌, ◌==◌, not, bit_or, bit_and, ◌≡◌, refl, ap, ◌∙◌, Bool, true, false,
  List, [], ◌∷◌, Option, none, some, arith,
}
use libtwilight.Prelude.Bits.{bit_or_concat}
use libtwilight.Future.{
  Future, create, is_done, result_error, reach, peek, start_waiting, broadcast, Action, reaching,
  waits, broadcasts, act, act_all, Wake, Outcome, returned, waiting, await,
}

-- The specification: the last result and error that the future was reached with.
unfoldable pub last_reached : Option (ℕ × ℕ) → List Action → Option (ℕ × ℕ)
last_reached r [] = r
last_reached r (reaching result error ∷ actions) = last_reached (some (result, error)) actions
last_reached r (waits ∷ actions) = last_reached r actions
last_reached r (broadcasts ∷ actions) = last_reached r actions

-- The word of a future: bit 0 is the Boolean, bit 1 whether it was reached.
abbrev pub word_of : Bool → Bool → ℕ
word_of true true = 3
word_of true false = 2
word_of false true = 1
word_of false false = 0

-- What a future that was last reached with `r` holds.
abbrev pub Holds : Option (ℕ × ℕ) → Future → Type 0
Holds none f = (b : Bool) × (f.cv_value ≡ word_of false b)
Holds (some (result, error)) f =
    (b : Bool) × (f.cv_value ≡ word_of true b) × (f.result ≡ result) × (f.error ≡ error)

waits_word : (d b : Bool) → start_waiting (word_of d b) ≡ word_of d true
unfolding start_waiting
waits_word true true = refl
waits_word true false = refl
waits_word false true = refl
waits_word false false = refl

broadcast_word : (d b : Bool) → broadcast (word_of d b) ≡ word_of d false
unfolding broadcast
broadcast_word true true = refl
broadcast_word true false = refl
broadcast_word false true = refl
broadcast_word false false = refl

act-Holds :
    (r : Option (ℕ × ℕ)) (f : Future) (a : Action)
    → Holds r f
    → Holds (last_reached r (a ∷ [])) (act f a)
unfolding act last_reached reach
act-Holds r f (reaching result error) h = (true, refl, refl, refl)
act-Holds none f waits (b, e) = (true, ap start_waiting e ∙ waits_word false b)
act-Holds none f broadcasts (b, e) = (false, ap broadcast e ∙ broadcast_word false b)
act-Holds (some (x, y)) f waits (b, e, same, same') =
    (true, ap start_waiting e ∙ waits_word true b, same, same')
act-Holds (some (x, y)) f broadcasts (b, e, same, same') =
    (false, ap broadcast e ∙ broadcast_word true b, same, same')

pub act_all-Holds :
    (r : Option (ℕ × ℕ)) (f : Future) (actions : List Action)
    → Holds r f
    → Holds (last_reached r actions) (act_all f actions)
unfolding act_all last_reached
act_all-Holds r f [] h = h
act_all-Holds r f (reaching x y ∷ actions) h =
    act_all-Holds (some (x, y)) (act f (reaching x y)) actions (act-Holds r f (reaching x y) h)
act_all-Holds r f (waits ∷ actions) h =
    act_all-Holds r (act f waits) actions (act-Holds r f waits h)
act_all-Holds r f (broadcasts ∷ actions) h =
    act_all-Holds r (act f broadcasts) actions (act-Holds r f broadcasts h)

-- What a look at the future gives: nothing, or both words.
abbrev pub seen : Option (ℕ × ℕ) → Bool × Option ℕ
seen none = (false, none)
seen (some (result, error)) = (true, some (bit_or (error * 2 ^ 32) result))

done_word : (d b : Bool) → not (bit_and (word_of d b) 2 == 0) ≡ d
done_word true true = refl
done_word true false = refl
done_word false true = refl
done_word false false = refl

is_done-Holds-none : (f : Future) → Holds none f → is_done f ≡ false
unfolding is_done
is_done-Holds-none f (b, e) = ap (λ (n : ℕ). not (bit_and n 2 == 0)) e ∙ done_word false b

is_done-Holds-some :
    (result error : ℕ) (f : Future) → Holds (some (result, error)) f → is_done f ≡ true
unfolding is_done
is_done-Holds-some result error f (b, e, _, _) =
    ap (λ (n : ℕ). not (bit_and n 2 == 0)) e ∙ done_word true b

result_error-Holds :
    (result error : ℕ) (f : Future)
    → Holds (some (result, error)) f
    → result_error f ≡ bit_or (error * 2 ^ 32) result
unfolding result_error
result_error-Holds result error f (b, e, same, same') = rw (same, same') refl

peek-Holds : (r : Option (ℕ × ℕ)) (f : Future) → Holds r f → peek f true ≡ seen r
unfolding peek
peek-Holds none f h = rw (is_done-Holds-none f h) refl
peek-Holds (some (x, y)) f h = rw (is_done-Holds-some x y f h, result_error-Holds x y f h) refl

-- Whatever threads do to a future since TW_CreateFuture, in any order, TW_PeekFuture says that it was
-- reached exactly if TW_ReachFuture was called, and gives the result and the error of its last call.
peek-act_all :
    (initial_result initial_error : ℕ) (actions : List Action)
    → peek (act_all (create initial_result initial_error) actions) true
      ≡ seen (last_reached none actions)
unfolding create
peek-act_all x y actions =
    peek-Holds (last_reached none actions) (act_all (create x y) actions)
      (act_all-Holds none (create x y) actions (false, refl))

-- The specification of a wait: the first wake-up behind which the future was reached ends it.
unfoldable pub first_result : Option (ℕ × ℕ) → List Wake → Outcome ℕ
first_result (some (result, error)) wakes = returned (bit_or (error * 2 ^ 32) result)
first_result none [] = waiting
first_result none (w ∷ wakes) = first_result (last_reached none w.actions) wakes

await-Holds :
    (r : Option (ℕ × ℕ)) (f : Future) (wakes : List Wake)
    → Holds r f
    → await f wakes ≡ first_result r wakes
unfolding await first_result last_reached
await-Holds none f [] h = rw (is_done-Holds-none f h) refl
await-Holds (some (x, y)) f [] h = rw (is_done-Holds-some x y f h, result_error-Holds x y f h) refl
await-Holds none f (w ∷ wakes) h = rw (is_done-Holds-none f h) (
    await-Holds (last_reached none w.actions) (act_all (act f waits) w.actions) wakes
      (act_all-Holds none (act f waits) w.actions (act-Holds none f waits h)))
await-Holds (some (x, y)) f (w ∷ wakes) h =
    rw (is_done-Holds-some x y f h, result_error-Holds x y f h) refl

pub await-create :
    (initial_result initial_error : ℕ) (wakes : List Wake)
    → await (create initial_result initial_error) wakes ≡ first_result none wakes
unfolding create
await-create x y wakes = await-Holds none (create x y) wakes (false, refl)

-- TW_AwaitFuture on a new future, whatever other threads do between its wake-ups and whether these
-- time out or not: it returns at the first wake-up behind a call of TW_ReachFuture, with the result
-- and the error of the last such call before, and it waits as long as there is none.
pub await-first_result :
    (initial_result initial_error : ℕ) (before : List Action) (wakes : List Wake)
    → await (act_all (create initial_result initial_error) before) wakes
      ≡ first_result (last_reached none before) wakes
unfolding create
await-first_result x y before wakes =
    await-Holds (last_reached none before) (act_all (create x y) before) wakes
      (act_all-Holds none (create x y) before (false, refl))

-- The two words that a caller takes from the result of TW_AwaitFuture are those that TW_ReachFuture
-- was given.
result_error-reach :
    (f : Future) (result error : ℕ)
    → result < 2 ^ 32
    → let both = result_error (reach f result error) in
      (both % 2 ^ 32 ≡ result) × (both / 2 ^ 32 ≡ error)
unfolding result_error reach
result_error-reach f result error h =
    let whole = bit_or_concat 32 error result h in (omega (arith, whole), omega (arith, whole))
