-- ===== src/Queue/Push.antt =====
-- `TW_PushToQueue`: a push that finds room appends its bytes to the contents of the queue.
use libtwilight.Prelude.{
  ℕ, ◌+◌, ◌-◌, ◌%◌, ◌≤◌, ◌<◌, ◌≡◌, refl, sym, ap, ap₂, ◌∙◌, List, [], ◌∷◌, ◌++◌, arith, le→ltb,
  lt→ltb, length, set, take, drop, length-set, length-take, length-drop, take_all, take-append-drop,
}
use native.Mathlib.Nat.{mod_self, mod-lt}
use native.Mathlib.Decide.{dec_lt}
use libtwilight.Memory.{store_at, copy_bytes}
use libtwilight.Queue.Ring.{
  contents, ring, write_ring, IsValid, store_at-write_ring, write_ring-append, ring-write_ring,
  available_distance, space_left_distance, write_pos_lem, wrap_once,
}
use libtwilight.Queue.{push_loop, Queue, space_left, available, store, push, returned, Wake}

-- Storing is writing round the end of the array.
store-write_ring :
    (q : Queue) (obj : List ℕ) (size : ℕ)
    → IsValid q
    → size ≡ length obj
    → size ≤ q.capacity
    → (store q obj size).buffer ≡ write_ring q.buffer q.capacity q.write_pos obj
unfolding store
store-write_ring q obj size v e le = elim (dec_lt q.capacity (q.write_pos + size)) [
  | yes p ↦ rw (lt→ltb 0 (q.write_pos + size - q.capacity) (omega arith)) (wrapped p)
  | no p ↦ rw (le→ltb 0 (q.write_pos + size - q.capacity) (omega arith)) (straight p)
]
  where
    straight :
        ¬ (q.capacity < q.write_pos + size)
        → copy_bytes q.buffer q.write_pos obj size ≡ write_ring q.buffer q.capacity q.write_pos obj
    straight p =
        unfold copy_bytes in
        rw (take_all size obj (omega arith))
          (store_at-write_ring obj q.buffer q.capacity q.write_pos (omega arith))

    wrapped :
        q.capacity < q.write_pos + size
        → copy_bytes
            (copy_bytes q.buffer q.write_pos obj (size - (q.write_pos + size - q.capacity)))
            0
            (drop (size - (q.write_pos + size - q.capacity)) obj)
            (q.write_pos + size - q.capacity)
          ≡ write_ring q.buffer q.capacity q.write_pos obj
    wrapped p =
        let k : ℕ = size - (q.write_pos + size - q.capacity) in
        let front = length-take k obj in
        let back = length-drop k obj in
        let turn : (q.write_pos + length (take k obj)) % q.capacity ≡ 0 =
          ap (λ (t : ℕ). t % q.capacity) (omega (arith, front)) ∙ mod_self q.capacity in
        unfold copy_bytes in
        ap₂ (λ (b l : List ℕ). store_at b 0 l)
          (store_at-write_ring (take k obj) q.buffer q.capacity q.write_pos (omega (arith, front)))
          (take_all (q.write_pos + size - q.capacity) (drop k obj) (omega (arith, back)))
        ∙ store_at-write_ring (drop k obj) _ q.capacity 0 (omega (arith, back))
        ∙ ap
            (λ (t : ℕ).
              write_ring (write_ring q.buffer q.capacity q.write_pos (take k obj)) q.capacity t
                (drop k obj))
            (sym turn)
        ∙ sym
            (write_ring-append (take k obj) (drop k obj) q.buffer q.capacity q.write_pos v.write_in)
        ∙ ap (write_ring q.buffer q.capacity q.write_pos) (take-append-drop k obj)

length-write_ring : (xs buf : List ℕ) (cap w : ℕ) → length (write_ring buf cap w xs) ≡ length buf
length-write_ring [] buf cap w = refl
length-write_ring (x ∷ xs) buf cap w =
    omega (arith, length-write_ring xs (set buf w x) cap ((w + 1) % cap), length-set buf w x)

store_fields :
    (q : Queue) (obj : List ℕ) (size : ℕ)
    → ((store q obj size).capacity ≡ q.capacity)
      × ((store q obj size).read_pos ≡ q.read_pos)
      × ((store q obj size).write_pos ≡ (q.write_pos + size) % q.capacity)
unfolding store
store_fields q obj size = (refl, refl, refl)

pub store-IsValid :
    (q : Queue) (obj : List ℕ) (size : ℕ)
    → IsValid q
    → size ≡ length obj
    → size ≤ q.capacity
    → IsValid (store q obj size)
store-IsValid q obj size v e le =
    let (same_cap, same_read, new_write) = store_fields q obj size in
    record {
      room = omega (
        arith,
        same_cap,
        ap length (store-write_ring q obj size v e le),
        length-write_ring obj q.buffer q.capacity q.write_pos,
      );
      read_in = omega (arith, same_cap, same_read);
      write_in =
          omega (
            arith,
            same_cap,
            new_write,
            mod-lt (q.write_pos + size) {m = q.capacity} (omega arith),
          );
    }

available-store :
    (q : Queue) (obj : List ℕ)
    → IsValid q
    → length obj < space_left q
    → available (store q obj (length obj)) ≡ available q + length obj
available-store q obj v room =
    let (same_cap, same_read, new_write) = store_fields q obj (length obj) in
    let small = space_left_distance q v in
    ground (
      arith,
      available_distance (store q obj (length obj))
          (store-IsValid q obj (length obj) v refl (ground arith)),
      available_distance q v,
      small,
      wrap_once q.capacity (q.write_pos + length obj),
      same_cap,
      same_read,
      new_write,
    )

pub push_returns :
    (q : Queue) (obj : List ℕ) (size : ℕ) (wakes : List Wake)
    → size ≤ q.capacity
    → size ≤ space_left q
    → push q obj size wakes ≡ returned size [] (store q obj size)
unfolding push push_loop
push_returns q obj size [] fits room =
    rw (le→ltb q.capacity size fits, le→ltb (space_left q) size room) refl
push_returns q obj size (w ∷ wakes) fits room =
    rw (le→ltb q.capacity size fits, le→ltb (space_left q) size room) refl

-- The behaviour of `TW_PushToQueue` when there is room: it returns `size` at once, and the queue
-- holds what it held and behind it the bytes of `obj` in order. The size must be less than the room
-- that the call computes, since a queue filled to the last byte counts as empty.
pub push-contents :
    (q : Queue) (obj : List ℕ) (wakes : List Wake)
    → IsValid q
    → length obj < space_left q
    → let q' = store q obj (length obj) in
      (push q obj (length obj) wakes ≡ returned (length obj) [] q')
      × (contents q' ≡ contents q ++ obj)
      × IsValid q'
push-contents q obj wakes v room =
    let fits : length obj ≤ q.capacity = ground (arith, space_left_distance q v) in
    (
      push_returns q obj (length obj) wakes fits (omega arith),
      stored fits,
      store-IsValid q obj (length obj) v refl fits,
    )
  where
    stored : length obj ≤ q.capacity → contents (store q obj (length obj)) ≡ contents q ++ obj
    stored fits =
        let (same_cap, same_read, new_write) = store_fields q obj (length obj) in
        ap₂
          (λ (c : ℕ) (r : ℕ).
            ring (store q obj (length obj)).buffer c r (available (store q obj (length obj))))
          same_cap same_read
        ∙ ap (λ (b : List ℕ). ring b q.capacity q.read_pos (available (store q obj (length obj))))
            (store-write_ring q obj (length obj) v refl fits)
        ∙ ap₂
            (λ (n : ℕ) (w : ℕ). ring (write_ring q.buffer q.capacity w obj) q.capacity q.read_pos n)
            (available-store q obj v room) (sym (write_pos_lem q v))
        ∙ ring-write_ring obj q.buffer q.capacity q.read_pos (available q) v.room v.read_in
            (ground (arith, space_left_distance q v, available_distance q v))
