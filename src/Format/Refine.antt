-- ===== src/Format/Refine.antt =====
-- The buffer and its flushes are invisible: TW_FormatStringV sends the stream what a formatter that
-- only appends to a list would produce, in chunks of 512 bytes, and returns its length.
use libtwilight.Prelude.{
  ℕ, zero, suc, ◌+◌, ◌-◌, ◌*◌, ◌≤◌, ◌<◌, ◌≡◌, refl, sym, ap, ◌∙◌, Bool, true, false, ◌&&◌, List, [],
  ◌∷◌, ◌++◌, ltb, leb, if◌then◌else◌, length, take, drop, take-append-drop, length-append,
  length-take, length-drop, append_assoc, append-nil, arith, lt→ltb, le→ltb,
}
use native.Mathlib.Decide.{dec_lt}
use libtwilight.Format.{Sink}
use libtwilight.Format.Buffer.{
  Buffer, fmt_buffer, flush, make_room, count, put, copy_loop, append, buffer_sink,
}
use libtwilight.Format.Simulate.{Agree}

abbrev pub concat : List (List ℕ) → List ℕ
concat [] = []
concat (x ∷ xs) = x ++ concat xs

concat-append : (xs ys : List (List ℕ)) → concat (xs ++ ys) ≡ concat xs ++ concat ys
concat-append [] ys = refl
concat-append (x ∷ xs) ys =
    ap (λ (l : List ℕ). x ++ l) (concat-append xs ys) ∙ sym (append_assoc x (concat xs) (concat ys))

-- Every chunk is a full buffer.
abbrev pub AllFull : List (List ℕ) → Type 0
AllFull [] = Unit {0}
AllFull (x ∷ xs) = (length x ≡ fmt_buffer) × AllFull xs

AllFull-append : (xs ys : List (List ℕ)) → AllFull xs → AllFull ys → AllFull (xs ++ ys)
AllFull-append [] ys _ h = h
AllFull-append (x ∷ xs) ys (h, hs) k = (h, AllFull-append xs ys hs k)

length-concat : (xs : List (List ℕ)) → AllFull xs → length (concat xs) ≡ length xs * fmt_buffer
length-concat [] _ = refl
length-concat (x ∷ xs) (h, hs) = omega (arith, length-append x (concat xs), length-concat xs hs)

pub record IsValid (b : Buffer) : Type 0 where
  pub fits : length b.buf ≤ fmt_buffer
  pub counted : b.flushes ≡ length b.sent
  pub full : AllFull b.sent

-- All the bytes that went into the buffer, flushed or not.
abbrev pub written : Buffer → List ℕ
written b = concat b.sent ++ b.buf

-- The buffer stands for a list.
pub record Stands (b : Buffer) (l : List ℕ) : Type 0 where
  pub valid : IsValid b
  pub same : written b ≡ l

pub count-length : (b : Buffer) → IsValid b → count b ≡ length (written b)
unfolding count
count-length b v =
    omega (arith, length-append (concat b.sent) b.buf, length-concat b.sent v.full, v.counted)

flush-IsValid : (b : Buffer) → IsValid b → length b.buf ≡ fmt_buffer → IsValid (flush b)
unfolding flush
flush-IsValid b v e = record {
  fits = omega arith;
  counted = omega (arith, length-append b.sent (b.buf ∷ []), v.counted);
  full = AllFull-append b.sent (b.buf ∷ []) v.full (e, tt);
}

pub written-flush : (b : Buffer) → written (flush b) ≡ written b
unfolding flush
written-flush b =
    append-nil _
    ∙ concat-append b.sent (b.buf ∷ [])
    ∙ ap (λ (l : List ℕ). concat b.sent ++ l) (append-nil b.buf)

-- `make_room` leaves the bytes and room for one more.
pub make_room_lem :
    (b : Buffer)
    → IsValid b
    → IsValid (make_room b)
      × (written (make_room b) ≡ written b)
      × (length (make_room b).buf < fmt_buffer)
unfolding make_room
make_room_lem b v = elim (dec_lt fmt_buffer (length b.buf + 1)) [
  | yes h ↦
      rw (lt→ltb fmt_buffer (length b.buf + 1) h)
        (flush-IsValid b v (omega (arith, v.fits)), written-flush b, unfold flush in omega arith)
  | no h ↦ rw (le→ltb fmt_buffer (length b.buf + 1) (omega arith)) (v, refl, omega arith)
]

-- The list that an unbuffered formatter appends to.
abbrev pub list_sink : ℕ → Sink (List ℕ)
list_sink max_output = record {
  put = λ c o.
      if ltb 0 max_output && leb max_output (length o) then (o, false) else (o ++ c ∷ [], true);
  append = λ bytes o. o ++ bytes;
  count = λ o. length o;
}

-- One byte on either side, once the test of the limit is known.
abbrev put_if : Bool → ℕ → Buffer → Buffer × Bool
put_if t c b = if t then (b, false) else (record b { buf = b.buf ++ c ∷ [] }, true)

abbrev add_if : Bool → ℕ → List ℕ → List ℕ × Bool
add_if t c l = if t then (l, false) else (l ++ c ∷ [], true)

puts_alike :
    (m c : ℕ) (b : Buffer) (l : List ℕ)
    → Stands b l
    → Stands (put m c b).0 ((list_sink m).put c l).0 × ((put m c b).1 ≡ ((list_sink m).put c l).1)
unfolding put
puts_alike m c b l st =
    let (v, w, room) = make_room_lem b st.valid in
    let n : count (make_room b) ≡ length l =
      count-length (make_room b) v ∙ ap length (w ∙ st.same) in
    rw n (cases (ltb 0 m && leb m (length l)) v (w ∙ st.same) room)
  where
    cases :
        (t : Bool)
        → IsValid (make_room b)
        → written (make_room b) ≡ l
        → length (make_room b).buf < fmt_buffer
        → Stands (put_if t c (make_room b)).0 (add_if t c l).0
          × ((put_if t c (make_room b)).1 ≡ (add_if t c l).1)
    cases true v w room = (record { valid = v; same = w }, refl)
    cases false v w room = (
      record {
        valid = record {
          fits = omega (arith, length-append (make_room b).buf (c ∷ []));
          counted = v.counted;
          full = v.full;
        };
        same =
            sym (append_assoc (concat (make_room b).sent) (make_room b).buf (c ∷ []))
            ∙ ap (λ (t : List ℕ). t ++ c ∷ []) w;
      },
      refl,
    )

-- A full buffer is emptied by a round that copies nothing; each other round copies a byte or ends.
copy_loop_lem :
    (fuel : ℕ) (bytes : List ℕ) (b : Buffer)
    → IsValid b
    → length bytes + (if leb fmt_buffer (length b.buf) then 1 else 0) < fuel
    → IsValid (copy_loop fuel bytes b) × (written (copy_loop fuel bytes b) ≡ written b ++ bytes)
unfolding copy_loop
copy_loop_lem zero bytes b v enough = absurd (omega arith)
copy_loop_lem (suc fuel) [] b v enough = (v, sym (append-nil (written b)))
copy_loop_lem (suc fuel) (x ∷ xs) b v enough =
    elim (dec_lt (fmt_buffer - length b.buf) (suc (length xs))) [
      | yes h ↦
          rw
            (
              lt→ltb 0 (suc (length xs)) (omega arith),
              lt→ltb (fmt_buffer - length b.buf) (suc (length xs)) h,
            )
            (round (
              copy_loop_lem fuel (drop left (x ∷ xs)) filled (filled_valid h)
                (ground (arith, empty_after, length-drop left (x ∷ xs), v.fits))))
      | no h ↦
          rw
            (
              lt→ltb 0 (suc (length xs)) (omega arith),
              le→ltb (fmt_buffer - length b.buf) (suc (length xs)) (omega arith),
            )
            (rest h)
    ]
  where
    left : ℕ
    left = fmt_buffer - length b.buf

    filled : Buffer
    filled = flush (record b { buf = b.buf ++ take left (x ∷ xs) })

    empty_after : length filled.buf ≡ 0
    empty_after = unfold flush in refl

    filled_valid : left < suc (length xs) → IsValid filled
    filled_valid h =
        let full : length (b.buf ++ take left (x ∷ xs)) ≡ fmt_buffer =
          omega
            (arith, v.fits, length-append b.buf (take left (x ∷ xs)), length-take left (x ∷ xs)) in
        flush-IsValid (record b { buf = b.buf ++ take left (x ∷ xs) })
          (record { fits = omega arith; counted = v.counted; full = v.full }) full

    round :
        IsValid (copy_loop fuel (drop left (x ∷ xs)) filled)
          × (written (copy_loop fuel (drop left (x ∷ xs)) filled)
              ≡ written filled ++ drop left (x ∷ xs))
        → IsValid (copy_loop fuel (drop left (x ∷ xs)) filled)
          × (written (copy_loop fuel (drop left (x ∷ xs)) filled) ≡ written b ++ x ∷ xs)
    round (v', w) = (v', w ∙ whole)
      where
        whole : written filled ++ drop left (x ∷ xs) ≡ written b ++ x ∷ xs
        whole =
            ap (λ (l : List ℕ). l ++ drop left (x ∷ xs))
              (written-flush (record b { buf = b.buf ++ take left (x ∷ xs) })
                ∙ sym (append_assoc (concat b.sent) b.buf (take left (x ∷ xs))))
            ∙ append_assoc (written b) (take left (x ∷ xs)) (drop left (x ∷ xs))
            ∙ ap (λ (l : List ℕ). written b ++ l) (take-append-drop left (x ∷ xs))

    rest :
        ¬ (left < suc (length xs))
        → IsValid (record b { buf = b.buf ++ x ∷ xs })
          × (concat b.sent ++ (b.buf ++ x ∷ xs) ≡ written b ++ x ∷ xs)
    rest h = (
      record {
        fits = omega (arith, v.fits, length-append b.buf (x ∷ xs));
        counted = v.counted;
        full = v.full;
      },
      sym (append_assoc (concat b.sent) b.buf (x ∷ xs)),
    )

append_lem :
    (bytes : List ℕ) (b : Buffer)
    → IsValid b
    → IsValid (append bytes b) × (written (append bytes b) ≡ written b ++ bytes)
unfolding append
append_lem bytes b v = copy_loop_lem (length bytes + 2) bytes b v (ground arith)

-- The buffer and the list answer alike.
pub buffer-Agree : (m : ℕ) → Agree Stands (buffer_sink m) (list_sink m)
unfolding buffer_sink
buffer-Agree m = record {
  puts = puts_alike m;
  appends = λ bytes b l st.
      let (v, w) = append_lem bytes b st.valid in
      record { valid = v; same = w ∙ ap (λ (t : List ℕ). t ++ bytes) st.same };
  counts = λ b l st. count-length b st.valid ∙ ap length st.same;
}
