-- ===== src/Format/Buffer.antt =====
-- The 512-byte buffer of TW_FormatStringV and its transfers to the stream, and the whole function.
use libtwilight.Prelude.{
  ℕ, zero, suc, ◌+◌, ◌-◌, ◌*◌, Bool, true, false, ◌&&◌, List, [], ◌∷◌, ◌++◌, Option, ltb, leb,
  if◌then◌else◌, length, take, drop,
}
use mathlib.Core.Option
use libtwilight.Prelude.Int.{ℤ}
use libtwilight.Format.{Arg, Sink, State}
use libtwilight.Format.Machine.{run, initial}

abbrev pub fmt_buffer : ℕ
fmt_buffer = 512

-- The buffer with `pos` bytes in it, the number of flushes, and what `transfer` was called with.
pub record Buffer : Type 0 where
  pub buf : List ℕ
  pub flushes : ℕ
  pub sent : List (List ℕ)

unfoldable pub flush : Buffer → Buffer
flush b = record { buf = []; flushes = b.flushes + 1; sent = b.sent ++ b.buf ∷ [] }

-- `if (pos + 1 > FMT_BUFFER) …`
unfoldable pub make_room : Buffer → Buffer
unfolding flush
make_room b = if ltb fmt_buffer (length b.buf + 1) then flush b else b

-- `flushes * FMT_BUFFER + pos`.
unfoldable pub count : Buffer → ℕ
count b = b.flushes * fmt_buffer + length b.buf

-- One byte, unless `maxOutputSize` (0 for none) is reached.
unfoldable pub put : ℕ → ℕ → Buffer → Buffer × Bool
unfolding make_room count
put max_output c b =
    let b' = make_room b in
    if ltb 0 max_output && leb max_output (count b')
    then (b', false)
    else (record b' { buf = b'.buf ++ c ∷ [] }, true)

-- `while (offset < numericBytesWritten) …` over the bytes from `offset` on; the fuel bounds the rounds.
unfoldable pub copy_loop : ℕ → List ℕ → Buffer → Buffer
copy_loop zero bytes b = b
copy_loop (suc fuel) bytes b =
    let left = fmt_buffer - length b.buf in
    let again =
      copy_loop fuel (drop left bytes) (flush (record b { buf = b.buf ++ take left bytes })) in
    if ltb 0 (length bytes)
    then (if ltb left (length bytes) then again else record b { buf = b.buf ++ bytes })
    else b

-- A round that copies nothing empties a full buffer, so two more rounds than bytes are enough.
unfoldable pub append : List ℕ → Buffer → Buffer
unfolding copy_loop
append bytes b = copy_loop (length bytes + 2) bytes b

unfoldable pub buffer_sink : ℕ → Sink Buffer
buffer_sink max_output = record { put = put max_output; append = append; count = count }

-- The end of the function: the terminating 0, the last transfer, and the result.
unfoldable pub close : Buffer → ℕ × Buffer
unfolding make_room count flush
close b =
    let b' = make_room b in
    let b'' = record b' { buf = b'.buf ++ 0 ∷ [] } in (count b'' - 1, flush b'')

abbrev pub empty : Buffer
empty = record { buf = []; flushes = 0; sent = [] }

-- `TW_FormatStringV`: the result, the transfers, and what `%n` stored.
unfoldable pub format_string :
    (ℕ → ℤ → ℤ → ℕ → ℕ → List ℕ) → ℕ → List ℕ → List Arg → Option (ℕ × List (List ℕ) × List ℕ)
format_string write_double max_output str args =
    Option.map (λ (s : State Buffer). ((close s.out).0, (close s.out).1.sent, s.stored))
      (run (buffer_sink max_output) write_double str (initial empty args))
