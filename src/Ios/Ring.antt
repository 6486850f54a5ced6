-- ===== src/Ios/Ring.antt =====
-- ppc/wii/ios.c: the buffers and completion contexts as a ring of 32 slots.
use mathlib.Core.Path.{subst}
use libtwilight.Prelude.{
  ℕ, zero, suc, ◌+◌, ◌*◌, ◌%◌, ◌^◌, ◌<◌, ◌≤◌, ◌≡◌, ◌≢◌, ◌⊎◌, inl, inr, refl, ap, ◌∙◌, arith, List,
  [], ◌∷◌, length, ◌==◌, if◌then◌else◌, ne→==, lt_or_gt,
}
use libtwilight.Prelude.Bits.{bit_and_mask}
use libtwilight.Ios.{
  Ios, Completion, View, Event, Request, aligned_buffer, store_words, slot_of, take_slot, submit,
  request_words, request_syncs, issue, reboot, open_request, reading, writing, seeking, ioctl,
  ioctlv, closing,
}
use libtwilight.Ios.Slots.{Fits, aligned_buffer-eq}

-- The calls that take a slot.
pub data Call : Type 0 where
  issues : (file fd user_data handler : ℕ) → Request → Call
  reboots : (fd method : ℕ) → (inputs outputs : List View) → (array : ℕ) → Call
  opens : (future on_open flags path : ℕ) → Call

pub run_call : Ios → Call → Ios
run_call s (issues file fd user_data handler request) = issue s file fd user_data handler request
run_call s (reboots fd method inputs outputs array) = (reboot s fd method inputs outputs array).0
run_call s (opens future on_open flags path) = open_request s future on_open flags path

pub run_calls : Ios → List Call → Ios
unfolding run_call
run_calls s [] = s
run_calls s (c ∷ cs) = run_calls (run_call s c) cs

-- The 64 bytes of the buffer `j`, and the completion context of that number, are the same in both states.
abbrev pub SameSlot : ℕ → Ios → Ios → Type 0
SameSlot j s s' =
    ((y : ℕ)
      → aligned_buffer s.buffers j ≤ y
      → y < aligned_buffer s.buffers j + 64
      → s'.words y ≡ s.words y)
    × (s'.completions j ≡ s.completions j)

store_words-outside :
    (words : ℕ → ℕ) (address : ℕ) (xs : List ℕ) (y : ℕ)
    → (y < address) ⊎ (address + 4 * length xs ≤ y)
    → store_words words address xs y ≡ words y
unfolding store_words
store_words-outside words address [] y h = refl
store_words-outside words address (x ∷ xs) y h =
    let other : y ≢ address = λ e. elim h [ inl l ↦ omega arith | inr r ↦ omega arith ] in
    let onward : (y < address + 4) ⊎ (address + 4 + 4 * length xs ≤ y) = elim h [
      | inl l ↦ inl (omega arith)
      | inr r ↦ inr (omega arith)
    ] in
    store_words-outside (λ z. if z == address then x else words z) (address + 4) xs y onward
    ∙ ap (λ t. if t then x else words y) (ne→== y address other)

slot_of-eq : (s : Ios) → slot_of s ≡ s.write_head % 32
unfolding slot_of
slot_of-eq s = bit_and_mask 5 s.write_head

-- Up to 16 words in the buffer of one slot leave those of another as they are.
store_words-other :
    (s : Ios) (xs : List ℕ) (j : ℕ)
    → Fits s.buffers
    → length xs ≤ 16
    → j < 32
    → j ≢ slot_of s
    → (y : ℕ) → aligned_buffer s.buffers j ≤ y
    → y < aligned_buffer s.buffers j + 64
    → store_words s.words (aligned_buffer s.buffers (slot_of s)) xs y ≡ s.words y
store_words-other s xs j fits short small other y low high =
    let at_slot = aligned_buffer-eq s.buffers (slot_of s) fits (omega (arith, slot_of-eq s)) in
    let at_j = aligned_buffer-eq s.buffers j fits small in
    let apart : (y < aligned_buffer s.buffers (slot_of s))
        ⊎ (aligned_buffer s.buffers (slot_of s) + 4 * length xs ≤ y) =
      elim (lt_or_gt j (slot_of s) other) [
        | inl l ↦ inl (omega arith)
        | inr r ↦ inr (omega arith)
      ] in
    store_words-outside s.words (aligned_buffer s.buffers (slot_of s)) xs y apart

submit-other :
    (s : Ios) (c : Completion) (xs : List ℕ) (es : List Event) (j : ℕ)
    → Fits s.buffers
    → length xs ≤ 16
    → j < 32
    → j ≢ slot_of s
    → SameSlot j s (submit (take_slot s c) (slot_of s) xs es)
unfolding submit take_slot
submit-other s c xs es j fits short small other = (
  store_words-other s xs j fits short small other,
  ap (λ t. if t then c else s.completions j) (ne→== j (slot_of s) other),
)

request_words-short : (fd : ℕ) (r : Request) → length (request_words fd r) ≤ 16
unfolding request_words
request_words-short fd (reading data_at size) = omega arith
request_words-short fd (writing data_at size) = omega arith
request_words-short fd (seeking seek_amount whence) = omega arith
request_words-short fd (ioctl method input input_size output output_size) = omega arith
request_words-short fd (ioctlv method inputs outputs array) = omega arith
request_words-short fd closing = omega arith

run_call-other :
    (s : Ios) (c : Call) (j : ℕ)
    → Fits s.buffers
    → j < 32
    → j ≢ slot_of s
    → SameSlot j s (run_call s c)
unfolding run_call issue reboot open_request
run_call-other s (issues file fd user_data handler request) j fits small other =
    submit-other s _ _ (request_syncs request) j fits (request_words-short fd request) small other
run_call-other s (reboots fd method inputs outputs array) j fits small other =
    let xs = 7 ∷ 0 ∷ fd ∷ method ∷ length inputs ∷ length outputs ∷ array ∷ [] in
    let short : length xs ≤ 16 = omega arith in
    (store_words-other s xs j fits short small other, refl)
run_call-other s (opens future on_open flags path) j fits small other =
    let xs = 1 ∷ 0 ∷ 0 ∷ path ∷ flags ∷ [] in
    let short : length xs ≤ 16 = omega arith in submit-other s _ xs [] j fits short small other

-- A call moves the head to the next slot.
run_call-head :
    (s : Ios) (c : Call)
    → ((run_call s c).buffers ≡ s.buffers)
      × ((run_call s c).write_head ≡ (s.write_head + 1) % 2 ^ 32)
unfolding run_call issue reboot open_request submit take_slot
run_call-head s (issues file fd user_data handler request) = (refl, refl)
run_call-head s (reboots fd method inputs outputs array) = (refl, refl)
run_call-head s (opens future on_open flags path) = (refl, refl)

run_calls-far :
    (s : Ios) (cs : List Call) (d : ℕ)
    → Fits s.buffers
    → d < 32
    → length cs ≤ d
    → SameSlot ((s.write_head + d) % 32) s (run_calls s cs)
unfolding run_calls
run_calls-far s [] d fits small short = (λ y low high. refl, refl)
run_calls-far s (c ∷ cs) zero fits small short = absurd (omega arith)
run_calls-far s (c ∷ cs) (suc d) fits small short =
    let j = (s.write_head + suc d) % 32 in
    let (same_buffers, head) = run_call-head s c in
    let fits' : Fits (run_call s c).buffers = omega (arith, same_buffers) in
    let now = run_call-other s c j fits (omega arith) (λ e. omega (arith, slot_of-eq s, e)) in
    let index : ((run_call s c).write_head + d) % 32 ≡ j = omega (arith, head) in
    let later = run_calls-far (run_call s c) cs d fits' (omega arith) (omega arith) in
    let (words, completion) : SameSlot j (run_call s c) (run_calls (run_call s c) cs) =
      subst (λ t. SameSlot t (run_call s c) (run_calls (run_call s c) cs)) index later in
    let same_start = ap (λ t. aligned_buffer t j) same_buffers in
    (
      λ y low high.
          words y (omega (arith, same_start)) (omega (arith, same_start)) ∙ now.0 y low high,
      completion ∙ now.1,
    )

module _ (s : Ios) (fits : Fits s.buffers) where
  -- A call that takes a slot has 31 further calls to wait for its answer: up to 31 calls of any kind that
  -- follow it leave the 64 bytes of its buffer and its completion context as it left them. The array
  -- `_ios_buffers` must fit the address space.
  pub run_calls-SameSlot :
      (c : Call) (cs : List Call)
      → length cs ≤ 31
      → SameSlot (slot_of s) (run_call s c) (run_calls (run_call s c) cs)
  run_calls-SameSlot c cs short =
      let (same_buffers, head) = run_call-head s c in
      let fits' : Fits (run_call s c).buffers = omega (arith, same_buffers) in
      let back : ((run_call s c).write_head + 31) % 32 ≡ slot_of s =
        omega (arith, head, slot_of-eq s) in
      subst (λ t. SameSlot t (run_call s c) (run_calls (run_call s c) cs)) back
        (run_calls-far (run_call s c) cs 31 fits' (omega arith) short)
