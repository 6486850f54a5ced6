-- ===== src/Ios/Complete.antt =====
-- ppc/wii/ios.c, TW_InvokeMatchingIosCompletionHandler: which handler an answer of IOS reaches.
use libtwilight.Prelude.{
  ℕ, ◌+◌, ◌-◌, ◌*◌, ◌/◌, ◌%◌, ◌^◌, ◌<◌, ◌≤◌, ◌≡◌, ◌≢◌, ap, sym, ◌∙◌, arith, Option, none, some,
  ◌==◌, if◌then◌else◌, eq→==, ne→==, lt→ltb, le→ltb,
}
use libtwilight.Prelude.Bits.{bit_and_mask}
use libtwilight.Prelude.Int.{pos, negsuc, signed32}
use libtwilight.Ios.{
  Ios, Completion, Request, aligned_buffer, physical, slot_of, take_slot, submit, method_of, issue,
  index_of, invoke, invoke_matching,
}
use libtwilight.Ios.Slots.{Fits, aligned_buffer-eq}

-- IOS has stored its answer in the second word of the buffer `iob`.
pub answered : Ios → ℕ → ℕ → Ios
answered s iob result = record s { words = (λ y. if y == iob + 4 then result else s.words y) }

-- The handler of a context is called with a result, if there is a handler.
abbrev pub called : Completion → ℕ → Option (Completion × ℕ)
called ch result = if ch.handler == 0 then none else some (ch, result)

abbrev pub index_in : Ios → ℕ → Option ℕ
index_in s iob = index_of (signed32 ((iob + (2 ^ 32 - aligned_buffer s.buffers 0)) % 2 ^ 32))

index_of-small : (x : ℕ) → x < 2 ^ 31 → index_of (signed32 x) ≡ some (x / 4 / 64)
unfolding index_of
index_of-small x h =
    ap (λ t. index_of (if t then pos x else negsuc (2 ^ 32 - x - 1))) (lt→ltb x (2 ^ 31) h)

index_of-large : (x : ℕ) → 2 ^ 31 ≤ x → index_of (signed32 x) ≡ none
unfolding index_of
index_of-large x h =
    ap (λ t. index_of (if t then pos x else negsuc (2 ^ 32 - x - 1))) (le→ltb x (2 ^ 31) h)

physical-eq : (x : ℕ) → physical x ≡ x % 2 ^ 30
unfolding physical
physical-eq x = bit_and_mask 30 x

-- The index that the buffer `idx` is looked up at.
index_in-buffer :
    (s : Ios) (idx : ℕ)
    → Fits s.buffers
    → idx < 32
    → index_in s (aligned_buffer s.buffers idx) ≡ some (idx / 4)
index_in-buffer s idx fits small =
    let at_idx = aligned_buffer-eq s.buffers idx fits small in
    let at_0 = aligned_buffer-eq s.buffers 0 fits (omega arith) in
    let d = (aligned_buffer s.buffers idx + (2 ^ 32 - aligned_buffer s.buffers 0)) % 2 ^ 32 in
    let offset : d ≡ idx * 64 = omega (arith, at_idx, at_0) in
    index_of-small d (omega (arith, offset)) ∙ ap (λ t. some t) (omega (arith, offset))

invoke-answered :
    (s : Ios) (iob result i : ℕ)
    → i < 32
    → invoke (answered s iob result) iob (some i) ≡ called (s.completions i) result
unfolding invoke answered
invoke-answered s iob result i small = ground arith

-- The answer of IOS to the buffer of the slot `idx` reaches the handler of the slot `idx / 4`, if that has
-- one, when the interrupt handler is given the address of the buffer, and no handler at all when it is given
-- the physical address, by which the request was sent. The array `_ios_buffers` lies in cached memory.
pub invoke_matching-answered :
    (s : Ios) (idx result : ℕ)
    → 2 ^ 31 ≤ s.buffers
    → s.buffers + 2112 ≤ 2 ^ 31 + 2 ^ 30
    → idx < 32
    → let iob = aligned_buffer s.buffers idx in
      (invoke_matching (answered s iob result) iob ≡ called (s.completions (idx / 4)) result)
      × (invoke_matching (answered s iob result) (physical iob) ≡ none)
unfolding invoke_matching answered
invoke_matching-answered s idx result cached below small =
    let fits : Fits s.buffers = omega arith in
    let iob = aligned_buffer s.buffers idx in
    let at_idx = aligned_buffer-eq s.buffers idx fits small in
    let at_0 = aligned_buffer-eq s.buffers 0 fits (omega arith) in
    let far = (physical iob + (2 ^ 32 - aligned_buffer s.buffers 0)) % 2 ^ 32 in
    let offset : far ≡ 2 ^ 31 + idx * 64 = omega (arith, physical-eq iob, at_idx, at_0) in
    (
      ap (λ t. invoke (answered s iob result) iob t) (index_in-buffer s idx fits small)
          ∙ invoke-answered s iob result (idx / 4) (omega arith),
      ap (λ t. invoke (answered s iob result) (physical iob) t)
          (index_of-large far (omega (arith, offset))),
    )

-- A request that takes slot 0 is completed by the handler that it was issued with: the interrupt handler,
-- given the address of its buffer with the answer of IOS, calls that handler with the file, the user data,
-- the number of the method and the answer. The handler must not be the null pointer, and the array
-- `_ios_buffers` lies in cached memory.
invoke_matching-issue :
    (s : Ios) (file fd user_data handler result : ℕ) (request : Request)
    → 2 ^ 31 ≤ s.buffers
    → s.buffers + 2112 ≤ 2 ^ 31 + 2 ^ 30
    → slot_of s ≡ 0
    → handler ≢ 0
    → let iob = aligned_buffer s.buffers 0 in
      let c : Completion = record {
        handler = handler;
        file = file;
        user_data = user_data;
        method = method_of request;
      } in
      invoke_matching (answered (issue s file fd user_data handler request) iob result) iob
      ≡ some (c, result)
unfolding issue submit take_slot
invoke_matching-issue s file fd user_data handler result request cached below first some_handler =
    let s' = issue s file fd user_data handler request in
    let c : Completion = record {
      handler = handler;
      file = file;
      user_data = user_data;
      method = method_of request;
    } in
    (invoke_matching-answered s' 0 result cached below (omega arith)).0
    ∙ ap (λ t. called (if t then c else s.completions 0) result) (eq→== 0 (slot_of s) (sym first))
    ∙ ap (λ t. if t then none else some (c, result)) (ne→== handler 0 some_handler)
