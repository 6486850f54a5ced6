-- ===== src/Queue/Ring.antt =====
-- The queue as a ring: what a push that finds room stores, and what a pull returns.
use libtwilight.Prelude.{
  ℕ, zero, suc, ◌+◌, ◌-◌, ◌%◌, ◌≤◌, ◌<◌, ◌≡◌, ◌≢◌, refl, sym, ap, ap₂, ◌∙◌, List, [], ◌∷◌, ◌++◌,
  append-nil, append_assoc, arith, if◌then◌else◌, leb, le→leb, lt→leb, length, get_or, set, take,
  length-set, length-append,
}
use native.Mathlib.Nat.{add-zero, mod-add-mod, mod-eq_of_lt, mod-eq-sub-mod, mod-lt}
use native.Mathlib.Decide.{dec_lt}
use libtwilight.Memory.{store_at, slice, get_or-set_self, get_or-set_ne}
use libtwilight.Queue.{Queue, space_left, available}

-- The `n` bytes from index `h` on, round the end of the array.
abbrev pub ring : List ℕ → ℕ → ℕ → ℕ → List ℕ
ring buf cap h zero = []
ring buf cap h (suc n) = ring buf cap h n ++ get_or buf ((h + n) % cap) 0 ∷ []

-- The bytes in the queue, oldest first.
abbrev pub contents : Queue → List ℕ
contents q = ring q.buffer q.capacity q.read_pos (available q)

pub record IsValid (q : Queue) : Type 0 where
  pub room : q.capacity ≤ length q.buffer
  pub read_in : q.read_pos < q.capacity
  pub write_in : q.write_pos < q.capacity

pub mod_ne : (cap h i n : ℕ) → h < cap → i < n → n < cap → (h + n) % cap ≢ (h + i) % cap
mod_ne cap h i n hh hi hn = elim (dec_lt (h + n) cap) [
  | yes p ↦ omega (arith, mod-eq_of_lt p, mod-eq_of_lt {n = h + i} {m = cap} (omega arith))
  | no p ↦ elim (dec_lt (h + i) cap) [
    | yes r ↦ omega (
      arith,
      mod-eq-sub-mod {n = h + n} {m = cap} (omega arith),
      mod-eq_of_lt {n = h + n - cap} {m = cap} (omega arith),
      mod-eq_of_lt r,
    )
    | no r ↦ omega (
      arith,
      mod-eq-sub-mod {n = h + n} {m = cap} (omega arith),
      mod-eq_of_lt {n = h + n - cap} {m = cap} (omega arith),
      mod-eq-sub-mod {n = h + i} {m = cap} (omega arith),
      mod-eq_of_lt {n = h + i - cap} {m = cap} (omega arith),
    )
  ]
]

-- A write behind the ring leaves it as it was.
pub ring-set :
    (buf : List ℕ) (cap h n m x : ℕ)
    → h < cap
    → n ≤ m
    → m < cap
    → ring (set buf ((h + m) % cap) x) cap h n ≡ ring buf cap h n
ring-set buf cap h zero m x hh le lt = refl
ring-set buf cap h (suc n) m x hh le lt = rw (
  ring-set buf cap h n m x hh (omega arith) lt,
  get_or-set_ne buf ((h + m) % cap) ((h + n) % cap) x 0 (mod_ne cap h n m hh (omega arith) lt),
)

-- Writing bytes from the end of the ring on, round the end of the array, appends them.
abbrev pub write_ring : List ℕ → ℕ → ℕ → List ℕ → List ℕ
write_ring buf cap w [] = buf
write_ring buf cap w (x ∷ xs) = write_ring (set buf w x) cap ((w + 1) % cap) xs

pub ring-write_ring :
    (xs buf : List ℕ) (cap h n : ℕ)
    → cap ≤ length buf
    → h < cap
    → n + length xs ≤ cap
    → ring (write_ring buf cap ((h + n) % cap) xs) cap h (n + length xs) ≡ ring buf cap h n ++ xs
ring-write_ring [] buf cap h n hb hh le = let e : n + 0 ≡ n = omega arith in rw (e, append-nil) refl
ring-write_ring (x ∷ xs) buf cap h n hb hh le =
    let w : ℕ = (h + n) % cap in
    let next : ((h + n) % cap + 1) % cap ≡ (h + suc n) % cap =
      mod-add-mod (h + n) cap 1 ∙ ap (λ (t : ℕ). t % cap) (omega arith) in
    let count : n + suc (length xs) ≡ suc n + length xs = omega arith in
    let old : ring (set buf w x) cap h n ≡ ring buf cap h n =
      ring-set buf cap h n n x hh (omega arith) (omega arith) in
    let new : get_or (set buf w x) w 0 ≡ x =
      get_or-set_self buf w x 0 (omega (arith, mod-lt (h + n) {m = cap} (omega arith))) in
    ap₂ (λ (i m : ℕ). ring (write_ring (set buf w x) cap i xs) cap h m) next count
    ∙ ring-write_ring xs (set buf w x) cap h (suc n) (omega (arith, length-set buf w x)) hh
        (omega arith)
    ∙ ap (λ (l : List ℕ). l ++ xs) (ap₂ (λ (l : List ℕ) (v : ℕ). l ++ v ∷ []) old new)
    ∙ append_assoc (ring buf cap h n) (x ∷ []) xs

-- Where no index passes the end, the writes go straight on.
pub store_at-write_ring :
    (xs buf : List ℕ) (cap w : ℕ)
    → w + length xs ≤ cap
    → store_at buf w xs ≡ write_ring buf cap w xs
unfolding store_at
store_at-write_ring [] buf cap w le = refl
store_at-write_ring (x ∷ []) buf cap w le = refl
store_at-write_ring (x ∷ y ∷ xs) buf cap w le =
    let next : (w + 1) % cap ≡ suc w =
      omega (arith, mod-eq_of_lt {n = w + 1} {m = cap} (omega arith)) in
    store_at-write_ring (y ∷ xs) (set buf w x) cap (suc w) (omega arith)
    ∙ ap (λ (t : ℕ). write_ring (set buf w x) cap t (y ∷ xs)) (sym next)

pub write_ring-append :
    (xs ys buf : List ℕ) (cap w : ℕ)
    → w < cap
    → write_ring buf cap w (xs ++ ys)
      ≡ write_ring (write_ring buf cap w xs) cap ((w + length xs) % cap) ys
write_ring-append [] ys buf cap w h =
    let e : (w + 0) % cap ≡ w = ap (λ (t : ℕ). t % cap) (add-zero w) ∙ mod-eq_of_lt h in
    ap (λ (t : ℕ). write_ring buf cap t ys) (sym e)
write_ring-append (x ∷ xs) ys buf cap w h =
    let next : ((w + 1) % cap + length xs) % cap ≡ (w + suc (length xs)) % cap =
      mod-add-mod (w + 1) cap (length xs) ∙ ap (λ (t : ℕ). t % cap) (omega arith) in
    write_ring-append xs ys (set buf w x) cap ((w + 1) % cap)
      (mod-lt (w + 1) {m = cap} (omega arith))
    ∙ ap (λ (t : ℕ). write_ring (write_ring (set buf w x) cap ((w + 1) % cap) xs) cap t ys) next

-- A distance round the ring, with no remainder in it.
pub distance :
    (cap from to : ℕ)
    → from < cap
    → to < cap
    → (to + cap - from) % cap ≡ (if leb from to then to - from else to + cap - from)
distance cap from to hf ht = elim (dec_lt to from) [
  | yes p ↦ rw (lt→leb from to p) (mod-eq_of_lt (omega arith))
  | no p ↦ rw (le→leb from to (omega arith)) (
      mod-eq-sub-mod {n = to + cap - from} {m = cap} (omega arith)
      ∙ ap (λ (t : ℕ). t % cap) (omega arith)
      ∙ mod-eq_of_lt (omega arith))
]

pub available_distance :
    (q : Queue)
    → IsValid q
    → available q ≡ (
        if leb q.read_pos q.write_pos
        then q.write_pos - q.read_pos
        else q.write_pos + q.capacity - q.read_pos)
unfolding available
available_distance q v = distance q.capacity q.read_pos q.write_pos v.read_in v.write_in

pub space_left_distance :
    (q : Queue)
    → IsValid q
    → space_left q ≡ (
        if leb q.write_pos q.read_pos
        then q.read_pos - q.write_pos
        else q.read_pos + q.capacity - q.write_pos)
unfolding space_left
space_left_distance q v = distance q.capacity q.write_pos q.read_pos v.write_in v.read_in

-- The write position lies `available` bytes behind the read position.
pub write_pos_lem : (q : Queue) → IsValid q → (q.read_pos + available q) % q.capacity ≡ q.write_pos
write_pos_lem q v = elim (dec_lt q.write_pos q.read_pos) [
  | yes p ↦
      ap (λ (t : ℕ). t % q.capacity) (ground (arith, available_distance q v))
      ∙ mod-eq-sub-mod {n = q.write_pos + q.capacity} {m = q.capacity} (omega arith)
      ∙ mod-eq_of_lt (omega arith)
      ∙ omega arith
  | no p ↦
      ap (λ (t : ℕ). t % q.capacity) (ground (arith, available_distance q v))
      ∙ mod-eq_of_lt v.write_in
]

pub wrap_once : (cap n : ℕ) → n < cap + cap → n % cap ≡ (if leb cap n then n - cap else n)
wrap_once cap n h = elim (dec_lt n cap) [
  | yes p ↦ rw (lt→leb cap n p) (mod-eq_of_lt p)
  | no p ↦
      rw (le→leb cap n (omega arith))
        (mod-eq-sub-mod {n = n} {m = cap} (omega arith) ∙ mod-eq_of_lt (omega arith))
]

-- A ring that does not pass the end of the array is a slice of it.
slice-snoc :
    (buf : List ℕ) (h n : ℕ)
    → h + n < length buf
    → slice buf h (suc n) ≡ slice buf h n ++ get_or buf (h + n) 0 ∷ []
slice-snoc [] h n lt = absurd (omega arith)
slice-snoc (x ∷ buf) zero zero lt = refl
slice-snoc (x ∷ buf) zero (suc n) lt =
    ap (λ (l : List ℕ). x ∷ l)
      (slice-snoc buf zero n (omega arith)
        ∙ ap (λ (i : ℕ). take n buf ++ get_or buf i 0 ∷ []) zero_plus)
    ∙ ap (λ (i : ℕ). x ∷ take n buf ++ get_or (x ∷ buf) i 0 ∷ []) (sym zero_suc)
  where
    zero_plus : 0 + n ≡ n
    zero_plus = omega arith

    zero_suc : 0 + suc n ≡ suc n
    zero_suc = omega arith
slice-snoc (x ∷ buf) (suc h) n lt =
    let e : suc h + n ≡ suc (h + n) = omega arith in
    slice-snoc buf h n (omega arith)
    ∙ ap (λ (i : ℕ). slice buf h n ++ get_or (x ∷ buf) i 0 ∷ []) (sym e)

pub ring-slice :
    (buf : List ℕ) (cap h n : ℕ) → cap ≤ length buf → h + n ≤ cap → ring buf cap h n ≡ slice buf h n
ring-slice buf cap h zero hb le = refl
ring-slice buf cap h (suc n) hb le =
    ap₂ (λ (l : List ℕ) (i : ℕ). l ++ get_or buf i 0 ∷ []) (ring-slice buf cap h n hb (omega arith))
      (mod-eq_of_lt {n = h + n} {m = cap} (omega arith))
    ∙ sym (slice-snoc buf h n (omega arith))

pub ring-append :
    (buf : List ℕ) (cap h n m : ℕ)
    → ring buf cap h (n + m) ≡ ring buf cap h n ++ ring buf cap ((h + n) % cap) m
ring-append buf cap h n zero =
    let e : n + 0 ≡ n = omega arith in ap (ring buf cap h) e ∙ sym (append-nil _)
ring-append buf cap h n (suc m) =
    let count : n + suc m ≡ suc (n + m) = omega arith in
    let index : (h + (n + m)) % cap ≡ ((h + n) % cap + m) % cap =
      ap (λ (t : ℕ). t % cap) (omega arith) ∙ sym (mod-add-mod (h + n) cap m) in
    ap (ring buf cap h) count
    ∙ ap₂ (λ (l : List ℕ) (i : ℕ). l ++ get_or buf i 0 ∷ []) (ring-append buf cap h n m) index
    ∙ append_assoc (ring buf cap h n) (ring buf cap ((h + n) % cap) m) _

pub length-ring : (buf : List ℕ) (cap h n : ℕ) → length (ring buf cap h n) ≡ n
length-ring buf cap h zero = refl
length-ring buf cap h (suc n) =
    length-append (ring buf cap h n) _ ∙ omega (arith, length-ring buf cap h n)
