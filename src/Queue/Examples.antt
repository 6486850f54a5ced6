-- ===== src/Queue/Examples.antt =====
-- The theorems about queues at concrete ones.
use libtwilight.Prelude.{◌≡◌, refl, [], ◌∷◌, ◌++◌, arith, false, length}
use libtwilight.Queue.{
  Queue, Wake, create, store, fetch, push, pull, returned, space_left, available,
}
use libtwilight.Queue.Ring.{IsValid, contents}
use libtwilight.Queue.Push.{push-contents}
use libtwilight.Queue.Pull.{pull-contents}
use libtwilight.Queue.Idle.{here, NoTransfer, push_stuck}

-- 8, 9 and 1, round the end of the array.
abbrev wrapped : Queue
wrapped = record { buffer = 1 ∷ 0 ∷ 0 ∷ 0 ∷ 8 ∷ 9 ∷ []; capacity = 6; read_pos = 4; write_pos = 1 }

abbrev nudge : Wake
nudge = record { timed_out = false; queue = create (0 ∷ 0 ∷ 0 ∷ []) 3 }

contents-wrapped : contents wrapped ≡ 8 ∷ 9 ∷ 1 ∷ []
unfolding available
contents-wrapped = refl

pull-wrapped : (fetch wrapped 3).0 ≡ 8 ∷ 9 ∷ 1 ∷ []
unfolding fetch
pull-wrapped = refl

push-contents_example :
    let q' = store wrapped (5 ∷ 6 ∷ []) 2 in
    (push wrapped (5 ∷ 6 ∷ []) 2 [] ≡ returned 2 [] q')
    × (contents q' ≡ contents wrapped ++ 5 ∷ 6 ∷ [])
    × IsValid q'
unfolding space_left
push-contents_example = push-contents wrapped (5 ∷ 6 ∷ []) [] (omega arith) (omega arith)

pull-contents_example :
    let (bytes, q') = fetch wrapped 2 in
    (pull wrapped 2 [] ≡ returned 2 bytes q')
    × (contents wrapped ≡ bytes ++ contents q')
    × (length bytes ≡ 2)
    × IsValid q'
unfolding available
pull-contents_example = pull-contents wrapped 2 [] (omega arith) (omega arith)

push_stuck_example :
    NoTransfer
      (create (0 ∷ 0 ∷ 0 ∷ []) 3)
      (push (create (0 ∷ 0 ∷ 0 ∷ []) 3) (7 ∷ []) 1 (nudge ∷ []))
push_stuck_example = push_stuck (0 ∷ 0 ∷ 0 ∷ []) 3 (7 ∷ []) 1 (nudge ∷ []) (omega arith) (here, tt)
