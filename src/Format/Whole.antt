-- ===== src/Format/Whole.antt =====
-- TW_FormatStringV as a whole against the formatter over a list.
use libtwilight.Prelude.{
  ℕ, ◌≤◌, ◌≡◌, refl, sym, ap, ◌∙◌, List, [], ◌∷◌, ◌++◌, Option, none, some, length, length-append,
  append_assoc, append-nil, arith,
}
use mathlib.Core.Option
use libtwilight.Prelude.Int.{ℤ}
use libtwilight.Format.{Arg, State}
use libtwilight.Format.Machine.{run, initial}
use libtwilight.Format.Buffer.{
  Buffer, fmt_buffer, flush, make_room, buffer_sink, close, empty, format_string,
}
use libtwilight.Format.Simulate.{run-RunRelated, RunRelated}
use libtwilight.Format.Refine.{
  concat, AllFull, IsValid, written, Stands, count-length, make_room_lem, written-flush, list_sink,
  buffer-Agree,
}

-- The specification: all bytes in a list, with no buffer, and what `%n` stores.
abbrev pub format_list :
    (ℕ → ℤ → ℤ → ℕ → ℕ → List ℕ) → ℕ → List ℕ → List Arg → Option (List ℕ × List ℕ)
format_list write_double max_output str args =
    Option.map (λ (s : State (List ℕ)). (s.out, s.stored))
      (run (list_sink max_output) write_double str (initial [] args))

-- Full buffers, and a last one that may be shorter.
abbrev pub IsChunked : List (List ℕ) → Type 0
IsChunked [] = Unit {0}
IsChunked (x ∷ []) = length x ≤ fmt_buffer
IsChunked (x ∷ y ∷ rest) = (length x ≡ fmt_buffer) × IsChunked (y ∷ rest)

IsChunked-append :
    (xs : List (List ℕ)) (x : List ℕ)
    → AllFull xs
    → length x ≤ fmt_buffer
    → IsChunked (xs ++ x ∷ [])
IsChunked-append [] x _ h = h
IsChunked-append (y ∷ []) x (e, _) h = (e, h)
IsChunked-append (y ∷ z ∷ ys) x (e, es) h = (e, IsChunked-append (z ∷ ys) x es h)

-- What the function's result says of the text that the specification gives.
abbrev pub Delivers : Option (ℕ × List (List ℕ) × List ℕ) → Option (List ℕ × List ℕ) → Type 0
Delivers none r = r ≡ none
Delivers (some (n, sent, stored)) r =
    (text : List ℕ) × (r ≡ some (text, stored))
    × (n ≡ length text)
    × (concat sent ≡ text ++ 0 ∷ [])
    × IsChunked sent

close_lem :
    (b : Buffer) (text : List ℕ)
    → Stands b text
    → ((close b).0 ≡ length text)
      × (concat (close b).1.sent ≡ text ++ 0 ∷ [])
      × IsChunked (close b).1.sent
unfolding close
close_lem b text st =
    let (v, w, room) = make_room_lem b st.valid in
    let b'' : Buffer = record (make_room b) { buf = (make_room b).buf ++ 0 ∷ [] } in
    let valid : IsValid b'' = record {
      fits = omega (arith, length-append (make_room b).buf (0 ∷ []));
      counted = v.counted;
      full = v.full;
    } in
    let all : written b'' ≡ text ++ 0 ∷ [] =
      sym (append_assoc (concat (make_room b).sent) (make_room b).buf (0 ∷ []))
      ∙ ap (λ (t : List ℕ). t ++ 0 ∷ []) (w ∙ st.same) in
    (
      omega (arith, count-length b'' valid, ap length all, length-append text (0 ∷ [])),
      sym (append-nil _) ∙ written-flush b'' ∙ all,
      unfold flush in IsChunked-append (make_room b).sent b''.buf v.full valid.fits,
    )

-- For every format string, argument list and limit, TW_FormatStringV delivers the text that the
-- unbuffered formatter writes: its result is the length of that text, its transfers put together are
-- the text and a final 0 byte, each transfer but the last is a full buffer, and `%n` stores the same
-- counts. It reads a missing or ill-typed argument exactly where the unbuffered formatter does.
pub format_string-Delivers :
    (write_double : ℕ → ℤ → ℤ → ℕ → ℕ → List ℕ) (max_output : ℕ) (str : List ℕ) (args : List Arg)
    → Delivers
        (format_string write_double max_output str args)
        (format_list write_double max_output str args)
unfolding format_string initial
format_string-Delivers wd m str args =
    finish (run (buffer_sink m) wd str (initial empty args))
      (run (list_sink m) wd str (initial [] args))
      (run-RunRelated Stands (buffer_sink m) (list_sink m) (buffer-Agree m) wd str
        (initial empty args) [] start)
  where
    start : Stands empty []
    start = record { valid = record { fits = omega arith; counted = refl; full = tt }; same = refl }

    finish :
        (r : Option (State Buffer)) (r' : Option (State (List ℕ)))
        → RunRelated Stands (buffer_sink m) (list_sink m) (buffer-Agree m) wd r r'
        → Delivers
            (Option.map (λ (s : State Buffer). ((close s.out).0, (close s.out).1.sent, s.stored)) r)
            (Option.map (λ (s : State (List ℕ)). (s.out, s.stored)) r')
    finish none r' e = rw e refl
    finish (some s) r' (text, st, e) =
        let (n, sent, chunked) = close_lem s.out text st in (text, rw e refl, n, sent, chunked)
