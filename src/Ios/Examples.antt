-- ===== src/Ios/Examples.antt =====
-- The theorems about IOS requests at concrete ones.
use libtwilight.Prelude.{◌+◌, ◌-◌, ◌%◌, ◌^◌, ◌≤◌, ◌≡◌, arith, [], ◌∷◌, false, none, some}
use libtwilight.Prelude.Int.{pos, negsuc}
use libtwilight.Future.{returned}
use libtwilight.Ios.{
  Ios, View, aligned_buffer, physical, slot_of, reading, invoke_matching, await_ios_open,
  open_request, open_device, no_device,
}
use libtwilight.Ios.Slots.{aligned_buffer-IsSlot}
use libtwilight.Ios.Ring.{Call, issues, opens, run_call, run_calls, SameSlot, run_calls-SameSlot}
use libtwilight.Ios.Complete.{answered, invoke_matching-answered}
use libtwilight.Ios.Open.{open_device-device_for, quiet}

-- The head is at slot 31; the array starts at 0x80001004.
abbrev s : Ios
s = record {
  buffers = 0x80001004;
  words = (λ y. 0);
  completions = (λ i. record { handler = 100 + i; file = 0; user_data = 0; method = 0 });
  write_head = 31;
  events = [];
}

abbrev read : Call
read = issues 500 3 0 700 (reading 0x80002000 64)

abbrev device : Call
device = opens 600 701 1 0x80003000

aligned_buffer-IsSlot_example :
    (aligned_buffer 0x80001004 3 % 64 ≡ 0)
    × (0x80001004 ≤ aligned_buffer 0x80001004 3)
    × (aligned_buffer 0x80001004 3 + 64 ≤ aligned_buffer 0x80001004 31)
    × (aligned_buffer 0x80001004 31 + 64 ≤ 0x80001004 + 2112)
aligned_buffer-IsSlot_example =
    aligned_buffer-IsSlot 0x80001004 (omega arith) 3 31 (omega arith) (omega arith)

run_calls-SameSlot_example :
    SameSlot (slot_of s) (run_call s read) (run_calls (run_call s read) (device ∷ read ∷ []))
run_calls-SameSlot_example =
    run_calls-SameSlot s (omega arith) read (device ∷ read ∷ []) (omega arith)

invoke_matching-answered_example :
    let iob = aligned_buffer 0x80001004 9 in
    (invoke_matching (answered s iob 12) iob
      ≡ some (record { handler = 102; file = 0; user_data = 0; method = 0 }, 12))
    × (invoke_matching (answered s iob 12) (physical iob) ≡ none)
invoke_matching-answered_example =
    invoke_matching-answered s 9 12 (omega arith) (omega arith) (omega arith)

abbrev input : View
input = record { data_at = 0x80004000; size = 8 }

abbrev empty : View
empty = record { data_at = 0x80005000; size = 0 }

-- IOS answers -6 after two idle wake-ups.
open_device-device_for_example :
    let wakes =
      quiet 2 (record { timed_out = false; actions = await_ios_open (2 ^ 32 - 6) ∷ [] } ∷ []) in
    (open_device s 600 701 1 0x80003000 (pos 9) wakes
      ≡ (open_request s 600 701 1 0x80003000, returned no_device))
    × (open_device s 600 701 1 0 (pos 9) wakes ≡ (s, returned no_device))
    × (open_device s 600 701 1 0x80003000 (pos 0) wakes ≡ (s, returned no_device))
    × (open_device s 600 701 1 0x80003000 (negsuc 8) wakes ≡ (s, returned no_device))
open_device-device_for_example =
    open_device-device_for s 600 701 1 0x80003000 2 (2 ^ 32 - 6) 8 (omega arith) (omega arith)
