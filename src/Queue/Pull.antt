-- ===== src/Queue/Pull.antt =====
-- `TW_PullFromQueue`: a pull that finds enough bytes returns the oldest ones and removes them.
use libtwilight.Prelude.{
  ℕ, ◌+◌, ◌-◌, ◌%◌, ◌≤◌, ◌<◌, ◌≡◌, refl, sym, ap, ap₂, ◌∙◌, List, [], ◌∷◌, ◌++◌, arith, ltb,
  if◌then◌else◌, le→ltb, lt→ltb, length,
}
use native.Mathlib.Nat.{mod_self, mod-lt}
use native.Mathlib.Decide.{dec_lt}
use libtwilight.Memory.{slice}
use libtwilight.Queue.Ring.{
  contents, ring, IsValid, ring-slice, ring-append, length-ring, available_distance, wrap_once,
}
use libtwilight.Queue.{pull_loop, Queue, available, fetch, pull, returned, Wake}

fetch_fields :
    (q : Queue) (n : ℕ)
    → ((fetch q n).1.capacity ≡ q.capacity)
      × ((fetch q n).1.buffer ≡ q.buffer)
      × ((fetch q n).1.write_pos ≡ q.write_pos)
      × ((fetch q n).1.read_pos ≡ (q.read_pos + n) % q.capacity)
unfolding fetch
fetch_fields q n = (refl, refl, refl, refl)

-- The two copies of a pull read the ring.
fetch-ring :
    (q : Queue) (n : ℕ)
    → IsValid q
    → n ≤ q.capacity
    → (fetch q n).0 ≡ ring q.buffer q.capacity q.read_pos n
unfolding fetch
fetch-ring q n v le = elim (dec_lt q.capacity (q.read_pos + n)) [
  | yes p ↦ rw (lt→ltb 0 (q.read_pos + n - q.capacity) (omega arith)) (wrapped p)
  | no p ↦
      rw (le→ltb 0 (q.read_pos + n - q.capacity) (omega arith))
        (sym (ring-slice q.buffer q.capacity q.read_pos n v.room (omega arith)))
]
  where
    wrapped :
        q.capacity < q.read_pos + n
        → slice q.buffer q.read_pos (n - (q.read_pos + n - q.capacity))
            ++ slice q.buffer 0 (q.read_pos + n - q.capacity)
          ≡ ring q.buffer q.capacity q.read_pos n
    wrapped p =
        let after : ℕ = q.read_pos + n - q.capacity in
        let whole : n - after + after ≡ n = omega arith in
        let turn : (q.read_pos + (n - after)) % q.capacity ≡ 0 =
          ap (λ (t : ℕ). t % q.capacity) (omega arith) ∙ mod_self q.capacity in
        ap₂ (λ (a b : List ℕ). a ++ b)
          (sym (ring-slice q.buffer q.capacity q.read_pos (n - after) v.room (omega arith)))
          (sym (ring-slice q.buffer q.capacity 0 after v.room (omega arith)))
        ∙ ap
            (λ (i : ℕ).
              ring q.buffer q.capacity q.read_pos (n - after) ++ ring q.buffer q.capacity i after)
            (sym turn)
        ∙ sym (ring-append q.buffer q.capacity q.read_pos (n - after) after)
        ∙ ap (ring q.buffer q.capacity q.read_pos) whole

fetch-IsValid : (q : Queue) (n : ℕ) → IsValid q → IsValid (fetch q n).1
unfolding fetch
fetch-IsValid q n v = record {
  room = v.room;
  read_in = mod-lt (q.read_pos + n) {m = q.capacity} (omega arith);
  write_in = v.write_in;
}

available-fetch :
    (q : Queue) (n : ℕ) → IsValid q → n ≤ available q → available (fetch q n).1 + n ≡ available q
available-fetch q n v le =
    let (same_cap, _, same_write, new_read) = fetch_fields q n in
    ground (
      arith,
      available_distance (fetch q n).1 (fetch-IsValid q n v),
      available_distance q v,
      wrap_once q.capacity (q.read_pos + n),
      same_cap,
      same_write,
      new_read,
    )

loop_returns :
    (q : Queue) (size : ℕ) (wakes : List Wake)
    → size ≤ available q
    → pull_loop q size wakes ≡ returned size (fetch q size).0 (fetch q size).1
unfolding pull_loop
loop_returns q size [] enough = rw (le→ltb (available q) size enough) refl
loop_returns q size (w ∷ wakes) enough = rw (le→ltb (available q) size enough) refl

pub pull_returns :
    (q : Queue) (size : ℕ) (wakes : List Wake)
    → size ≤ q.capacity
    → size ≤ available q
    → pull q size wakes ≡ returned size (fetch q size).0 (fetch q size).1
unfolding pull
pull_returns q size wakes fits enough =
    let to_read : (if ltb size q.capacity then size else q.capacity) ≡ size = ground arith in
    rw to_read (loop_returns q size wakes enough)

-- The behaviour of `TW_PullFromQueue` when the queue holds enough: it returns `size` at once with
-- the `size` oldest bytes of the queue, and the queue holds the others.
pub pull-contents :
    (q : Queue) (size : ℕ) (wakes : List Wake)
    → IsValid q
    → size ≤ available q
    → let (bytes, q') = fetch q size in
      (pull q size wakes ≡ returned size bytes q')
      × (contents q ≡ bytes ++ contents q')
      × (length bytes ≡ size)
      × IsValid q'
pull-contents q size wakes v enough =
    let fits : size ≤ q.capacity = ground (arith, available_distance q v) in
    (
      pull_returns q size wakes fits enough,
      split fits,
      ap length (fetch-ring q size v fits) ∙ length-ring q.buffer q.capacity q.read_pos size,
      fetch-IsValid q size v,
    )
  where
    split : size ≤ q.capacity → contents q ≡ (fetch q size).0 ++ contents (fetch q size).1
    split fits =
        let (same_cap, same_buf, same_write, new_read) = fetch_fields q size in
        let rest : ℕ = available (fetch q size).1 in
        let count : available q ≡ size + rest = omega (arith, available-fetch q size v enough) in
        ap (ring q.buffer q.capacity q.read_pos) count
        ∙ ring-append q.buffer q.capacity q.read_pos size rest
        ∙ ap₂ (λ (a b : List ℕ). a ++ b) (sym (fetch-ring q size v fits))
            (sym (
              ap₂ (λ (b : List ℕ) (r : ℕ). ring b (fetch q size).1.capacity r rest) same_buf
                new_read
              ∙ ap (λ (c : ℕ). ring q.buffer c ((q.read_pos + size) % q.capacity) rest) same_cap))
