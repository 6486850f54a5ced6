-- ===== src/File/Sync.antt =====
-- The synchronous calls give the result that the driver completes with.
use libtwilight.Prelude.{
  ℕ, ◌/◌, ◌%◌, ◌<◌, ◌^◌, ◌≡◌, refl, ap, ap₂, ◌∙◌, List, [], ◌∷◌, ◌++◌, Option, none, some, arith,
}
use libtwilight.Prelude.Bits.{bit_and_mask, bit_or_concat}
use libtwilight.Future.{Action, reaching, waits, broadcasts, Wake, returned}
use libtwilight.Future.Reached.{last_reached, first_result, await-first_result}
use libtwilight.File.{completion, sync, low_word, low_sync, seek_file_sync}

-- No call of the completion handler.
abbrev pub NoReach : List Action → Type 0
NoReach [] = Unit {0}
NoReach (reaching result error ∷ actions) = ⊥
NoReach (waits ∷ actions) = NoReach actions
NoReach (broadcasts ∷ actions) = NoReach actions

-- The driver calls the handler with `result` once among these actions.
pub data CompletesIn (result : ℕ) : List Action → Type 0 where
  completed :
      (xs ys : List Action)
      → NoReach xs
      → NoReach ys
      → CompletesIn result (xs ++ completion result ∷ ys)

-- It does so before it returns, or between two wake-ups of the waiting thread.
pub data Completes (result : ℕ) : List Action → List Wake → Type 0 where
  at_once :
      {before : List Action}
      → CompletesIn result before
      → (wakes : List Wake) → Completes result before wakes
  later :
      {before : List Action} {w : Wake} {wakes : List Wake}
      → NoReach before
      → Completes result w.actions wakes
      → Completes result before (w ∷ wakes)

last_reached-NoReach : (r : Option (ℕ × ℕ)) (xs : List Action) → NoReach xs → last_reached r xs ≡ r
unfolding last_reached
last_reached-NoReach r [] h = refl
last_reached-NoReach r (reaching x y ∷ xs) h = absurd h
last_reached-NoReach r (waits ∷ xs) h = last_reached-NoReach r xs h
last_reached-NoReach r (broadcasts ∷ xs) h = last_reached-NoReach r xs h

last_reached-append :
    (r : Option (ℕ × ℕ)) (xs ys : List Action)
    → last_reached r (xs ++ ys) ≡ last_reached (last_reached r xs) ys
unfolding last_reached
last_reached-append r [] ys = refl
last_reached-append r (reaching x y ∷ xs) ys = last_reached-append (some (x, y)) xs ys
last_reached-append r (waits ∷ xs) ys = last_reached-append r xs ys
last_reached-append r (broadcasts ∷ xs) ys = last_reached-append r xs ys

last_reached-CompletesIn :
    (result : ℕ) (xs : List Action)
    → result < 2 ^ 64
    → CompletesIn result xs
    → last_reached none xs ≡ some (result % 2 ^ 32, result / 2 ^ 32)
unfolding completion last_reached
last_reached-CompletesIn result _ h (completed xs ys hx hy) =
    last_reached-append none xs (completion result ∷ ys)
    ∙ last_reached-NoReach _ ys hy
    ∙ ap some (
        ap₂ (λ (x y : ℕ). (x, y)) (bit_and_mask 32 result)
          (bit_and_mask 32 (result / 2 ^ 32 % 2 ^ 32) ∙ omega arith))

first_result-Completes :
    (result : ℕ) {before : List Action} {wakes : List Wake}
    → result < 2 ^ 64
    → Completes result before wakes
    → first_result (last_reached none before) wakes ≡ returned result
unfolding first_result
first_result-Completes result h (at_once c wakes) =
    ap (λ (r : Option (ℕ × ℕ)). first_result r wakes) (last_reached-CompletesIn result _ h c)
    ∙ ap returned (bit_or_concat 32 (result / 2 ^ 32) (result % 2 ^ 32) (omega arith) ∙ omega arith)
first_result-Completes result h (later {before = before} {w = w} {wakes = wakes} quiet c) =
    ap (λ (r : Option (ℕ × ℕ)). first_result r (w ∷ wakes)) (last_reached-NoReach none before quiet)
    ∙ first_result-Completes result h c

sync-returned :
    (result : ℕ) {before : List Action} {wakes : List Wake}
    → result < 2 ^ 64
    → Completes result before wakes
    → sync before wakes ≡ returned result
unfolding sync
sync-returned result {before = before} {wakes = wakes} h c =
    await-first_result 0 0 before wakes ∙ first_result-Completes result h c

low_sync-returned :
    (result : ℕ) (before : List Action) (wakes : List Wake)
    → sync before wakes ≡ returned result
    → low_sync before wakes ≡ returned (result % 2 ^ 32)
unfolding low_sync
low_sync-returned result before wakes e = ap low_word e ∙ ap returned (bit_and_mask 32 result)

-- When a driver completes with a 64-bit result once, at once or at any later time, TW_SeekFileSync
-- returns that result, and the calls that return an `int` its low 32 bits.
pub sync-Completes :
    (result : ℕ) {before : List Action} {wakes : List Wake}
    → result < 2 ^ 64
    → Completes result before wakes
    → (seek_file_sync before wakes ≡ returned result)
      × (low_sync before wakes ≡ returned (result % 2 ^ 32))
unfolding seek_file_sync
sync-Completes result {before = before} {wakes = wakes} h c =
    let same = sync-returned result h c in (same, low_sync-returned result before wakes same)
