-- ===== src/Ios/Open.antt =====
-- ppc/wii/ios.c, TW_OpenIosDevice: the device that it returns for the answer of IOS.
use libtwilight.Prelude.{
  ℕ, zero, suc, ◌-◌, ◌%◌, ◌^◌, bit_and, ◌<◌, ◌≡◌, ◌≢◌, refl, ap, sym, ◌∙◌, arith, List, [], ◌∷◌,
  ◌==◌, if◌then◌else◌, true, false, none, ltb, ne→==, Bool-cases, inl, inr, bit_or,
}
use libtwilight.Prelude.Bits.{bit_and_mask, bit_or_concat}
use libtwilight.Prelude.Int.{pos, negsuc, signed32}
use libtwilight.Future.{create, broadcasts, Wake, returned, await}
use libtwilight.Future.Reached.{first_result, last_reached, await-create}
use libtwilight.Ios.{
  Ios, Device, no_device, await_ios_open, opened, opened_by, open_request, open_device,
}

-- The device for the answer of IOS: an `int` that is positive is the descriptor, any other is an error.
abbrev pub device_for : ℕ → Device
device_for answer =
    if ltb answer (2 ^ 31)
    then (if answer == 0 then no_device else record { file_type = 3; fd = answer })
    else no_device

-- While the call waits, threads wake it `idle` times before IOS answers.
abbrev pub quiet : ℕ → List Wake → List Wake
quiet zero wakes = wakes
quiet (suc n) wakes = record { timed_out = true; actions = broadcasts ∷ [] } ∷ quiet n wakes

opened-pos :
    (n : ℕ) → opened (pos n) ≡ (if n == 0 then no_device else record { file_type = 3; fd = n })
unfolding opened
opened-pos zero = refl
opened-pos (suc n) =
    ap (λ t. if t then no_device else record { file_type = 3; fd = suc n })
      (sym (ne→== (suc n) 0 (omega arith)))

opened-device_for : (answer : ℕ) → opened (signed32 answer) ≡ device_for answer
unfolding opened
opened-device_for answer =
    let n = 2 ^ 32 - answer - 1 in
    elim (Bool-cases (ltb answer (2 ^ 31))) [
      | inl e ↦
          ap (λ t. opened (if t then pos answer else negsuc n)) e
          ∙ opened-pos answer
          ∙ ap
              (λ t.
                if t
                then (if answer == 0 then no_device else record { file_type = 3; fd = answer })
                else no_device)
              (sym e)
      | inr e ↦
          ap (λ t. opened (if t then pos answer else negsuc n)) e
          ∙ ap
              (λ t.
                if t
                then (if answer == 0 then no_device else record { file_type = 3; fd = answer })
                else no_device)
              (sym e)
    ]

zero_or : (x : ℕ) → x < 2 ^ 32 → bit_or 0 x ≡ x
zero_or x h = bit_or_concat 32 0 x h ∙ omega arith

first_result-quiet :
    (n answer : ℕ)
    → answer < 2 ^ 32
    → first_result none
        (quiet n (record { timed_out = false; actions = await_ios_open answer ∷ [] } ∷ []))
      ≡ returned answer
unfolding await_ios_open first_result last_reached
first_result-quiet zero answer h =
    let low : answer % 2 ^ 32 ≡ answer = omega arith in
    ap (λ t. returned (bit_or 0 t)) low ∙ ap (λ t. returned t) (zero_or answer h)
first_result-quiet (suc n) answer h = first_result-quiet n answer h

module _ (s : Ios) (future on_open flags path n answer : ℕ) where
  -- `TW_OpenIosDevice` of a path that is not null and not empty, when the handler of its request is called
  -- with the answer of IOS after any number of idle wake-ups: it sends one request and returns a device with
  -- the answer as its descriptor, or no device when the answer is 0 or, as an `int`, negative. For a null
  -- path or a length that is not positive it returns no device at once, and nothing is sent.
  pub open_device-device_for :
      (path_len : ℕ)
      → path ≢ 0
      → answer < 2 ^ 32
      → let wakes =
          quiet n (record { timed_out = false; actions = await_ios_open answer ∷ [] } ∷ []) in
        (open_device s future on_open flags path (pos (suc path_len)) wakes
          ≡ (open_request s future on_open flags path, returned (device_for answer)))
        × (open_device s future on_open flags 0 (pos (suc path_len)) wakes
            ≡ (s, returned no_device))
        × (open_device s future on_open flags path (pos 0) wakes ≡ (s, returned no_device))
        × (open_device s future on_open flags path (negsuc path_len) wakes
            ≡ (s, returned no_device))
  unfolding open_device opened_by
  open_device-device_for path_len some_path h =
      let wakes =
        quiet n (record { timed_out = false; actions = await_ios_open answer ∷ [] } ∷ []) in
      let sent = open_request s future on_open flags path in
      let low : bit_and answer 0xffffffff ≡ answer = bit_and_mask 32 answer ∙ omega arith in
      (
        ap
              (λ t.
                if t then (s, returned no_device) else (sent, opened_by (await (create 0 0) wakes)))
              (ne→== path 0 some_path)
            ∙ ap (λ t. (sent, opened_by t)) (await-create 0 0 wakes ∙ first_result-quiet n answer h)
            ∙ ap (λ t. (sent, returned (opened (signed32 t)))) low
            ∙ ap (λ t. (sent, returned t)) (opened-device_for answer),
        refl,
        refl,
        refl,
      )
