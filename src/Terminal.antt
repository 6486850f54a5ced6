-- ===== src/Terminal.antt =====
-- ppc/video.c: the escape sequences of the terminal, from the bytes to the moves of the cursor, the
-- colours and the rectangles cleared. The numbers of a sequence are 32-bit words that wrap around;
-- the cursor is not negative. A colour number from 2^31 on, which the source would use as a negative
-- index, is taken as a word.
pub mod Cursor
pub mod Reader
pub mod Print
mod Examples
use libtwilight.Prelude.{
  ℕ, zero, suc, ◌+◌, ◌-◌, ◌*◌, ◌/◌, ◌%◌, ◌^◌, bit_or, Bool, true, false, not, ◌&&◌, ◌||◌, List, [],
  ◌∷◌, ◌++◌, ltb, leb, ◌==◌, if◌then◌else◌, length, get_or, set, drop,
}
use libtwilight.Prelude.Int.{ℤ, pos, negsuc, pos_part, signed32, diff, clamp, is_above}
use libtwilight.Video.{Fill, clear_rectangle, clear_screen, rgba_to_yuyv}

-- `TwTerminal`; `escape` is the part of `ansiEscBuf` in use.
pub record Terminal : Type 0 where
  pub column : ℕ
  pub row : ℕ
  pub fore : ℕ
  pub back : ℕ
  pub flags : ℕ
  pub escape : List ℕ

-- The width and the height of the font.
pub record Font : Type 0 where
  pub width : ℕ
  pub height : ℕ

-- `_terminalColorPalatte`.
abbrev pub palette : List ℕ
palette =
    0x00800080 ∷ 0x207120DE ∷ 0x76497624 ∷ 0x8D3E8D88 ∷ 0x0CCD0C76 ∷ 0x32BB32E3 ∷ 0x8395831A
    ∷ 0xBF80BF80 ∷ 0x55805580 ∷ 0x797079E8 ∷ 0xCE47CE22 ∷ 0xF236F289 ∷ 0x61CA6177 ∷ 0x85B985DE
    ∷ 0xDA90DA18 ∷ 0xFF80FF80 ∷ []

-- `numeric[n]`, as a word and as an `int`.
abbrev pub word_at : List ℕ → ℕ → ℕ
word_at numeric n = get_or numeric n 0

abbrev pub int_at : List ℕ → ℕ → ℤ
int_at numeric n = signed32 (word_at numeric n)

-- `if (numeric[0] <= 0) numeric[0] = 1`.
pub distance : List ℕ → ℕ
distance numeric = let n = pos_part (int_at numeric 0) in if n == 0 then 1 else n

-- A sum of a position and a distance, as the `int` that its 32 bits are.
abbrev pub moved : ℕ → ℕ → ℤ
moved position by = signed32 ((position + by) % 2 ^ 32)

-- The colour that `38;…` and `48;…` choose, if there is one.
pub extended_color : ℕ → List ℕ → ℕ
extended_color old numeric =
    let n = word_at numeric 2 in
    if word_at numeric 1 == 2
    then rgba_to_yuyv n (word_at numeric 3) (word_at numeric 4)
        ((2 ^ 32 + 255 - word_at numeric 5) % 2 ^ 32)
    else if word_at numeric 1 == 5
    then (if ltb n 16
        then get_or palette n 0
        else if ltb n 232
        then (let rgb = n - 16 in
            rgba_to_yuyv (rgb / 36 * 51) (rgb / 6 % 6 * 51) (rgb % 6 * 51) 255)
        else (let lum = (n - 232) * 11 % 2 ^ 32 in
            let lum1 = if leb 85 lum then lum + 1 else lum in
            let lum2 = if leb 170 lum1 then lum1 + 1 else lum1 in
            bit_or (bit_or 0x00800080 (lum2 * 2 ^ 24 % 2 ^ 32)) (lum2 * 2 ^ 8 % 2 ^ 32)))
    else old

-- `m`: the colours.
pub set_colors : List ℕ → Terminal → Terminal
unfolding extended_color
set_colors numeric t =
    let n = word_at numeric 0 in
    if n == 0
    then record t { fore = 0xff80ff80; back = 0x00800080 }
    else if leb 30 n && leb n 37
    then record t { fore = get_or palette (n - 30) 0 }
    else if leb 90 n && leb n 97
    then record t { fore = get_or palette (n - 90 + 8) 0 }
    else if leb 40 n && leb n 47
    then record t { back = get_or palette (n - 40) 0 }
    else if leb 100 n && leb n 107
    then record t { back = get_or palette (n - 100 + 8) 0 }
    else if n == 38
    then record t { fore = extended_color t.fore numeric }
    else if n == 48
    then record t { back = extended_color t.back numeric }
    else if n == 39
    then record t { fore = 0xff80ff80 }
    else if n == 49
    then record t { back = 0x00800080 }
    else t

-- `J` and `K`: what is cleared; the Boolean is true for `J`.
pub erase : Font → Bool → List ℕ → Terminal → List Fill
erase font whole numeric t =
    let n = word_at numeric 0 in
    let x = t.column * font.width in
    let y = t.row * font.height in
    let line = pos font.height in
    if n == 0
    then clear_rectangle t.back (pos x) (pos y) (diff 320 x) line
      ++ (if whole then clear_rectangle t.back (pos 0) (pos 0) (pos 320) (pos y) else [])
    else if n == 1
    then clear_rectangle t.back (pos 0) (pos y) (pos x) line
      ++ (if whole
          then clear_rectangle t.back (pos 0) (pos ((t.row + 1) * font.height)) (pos 320)
              (diff 480 ((t.row + 1) * font.height))
          else [])
    else if n == 2 || n == 3
    then (if whole
        then clear_screen t.back
        else clear_rectangle t.back (pos 0) (pos y) (pos 320) line)
    else []

-- The bytes that end a sequence.
pub data Command : Type 0 where
  move_to move_up move_up_home move_down move_down_home move_right move_left to_column : Command
  erase_screen erase_line colors unknown : Command

pub command_of : ℕ → Command
command_of c =
    if c == b'H' || c == b'f'
    then move_to
    else if c == b'A'
    then move_up
    else if c == b'F'
    then move_up_home
    else if c == b'B'
    then move_down
    else if c == b'E'
    then move_down_home
    else if c == b'C'
    then move_right
    else if c == b'D'
    then move_left
    else if c == b'G'
    then to_column
    else if c == b'J'
    then erase_screen
    else if c == b'K'
    then erase_line
    else if c == b'm'
    then colors
    else unknown

-- A command with its numbers; `unknown` has no effect.
pub execute : Font → Command → List ℕ → Terminal → Terminal × List Fill
unfolding distance set_colors erase
execute font move_to numeric t =
    (record t { row = clamp 29 (int_at numeric 0); column = clamp 79 (int_at numeric 1) }, [])
execute font move_up numeric t = (record t { row = clamp 29 (pos (t.row - distance numeric)) }, [])
execute font move_up_home numeric t =
    (record t { row = clamp 29 (pos (t.row - distance numeric)); column = 0 }, [])
execute font move_down numeric t =
    (record t { row = clamp 29 (moved t.row (distance numeric)) }, [])
execute font move_down_home numeric t =
    (record t { row = clamp 29 (moved t.row (distance numeric)); column = 0 }, [])
execute font move_right numeric t =
    (record t { column = clamp 79 (moved t.column (distance numeric)) }, [])
execute font move_left numeric t =
    (record t { column = clamp 79 (pos (t.column - distance numeric)) }, [])
execute font to_column numeric t = (record t { column = clamp 79 (int_at numeric 0) }, [])
execute font erase_screen numeric t = (t, erase font true numeric t)
execute font erase_line numeric t = (t, erase font false numeric t)
execute font colors numeric t = (set_colors numeric t, [])
execute font unknown numeric t = (t, [])

abbrev pub is_unknown : Command → Bool
is_unknown unknown = true
is_unknown _ = false

-- The loop of `_tw_handle_ansi_esc`, from the byte behind `ESC [` on.
pub handle_loop : Font → ℕ → List ℕ → List ℕ → Terminal → Terminal × List Fill
unfolding execute command_of
handle_loop font cur numeric [] t = (t, [])
handle_loop font cur numeric (c ∷ cs) t =
    let digit = set numeric cur ((word_at numeric cur * 10 + (c - b'0')) % 2 ^ 32) in
    let on_digit = handle_loop font cur digit cs t in
    let on_next = handle_loop font (if ltb cur 7 then suc cur else cur) numeric cs t in
    let on_other = handle_loop font cur numeric cs t in
    if leb b'0' c && leb c b'9'
    then on_digit
    else if c == b';'
    then on_next
    else if is_unknown (command_of c)
    then on_other
    else execute font (command_of c) numeric t

-- `_tw_handle_ansi_esc`.
pub handle_ansi_esc : Font → List ℕ → Terminal → Terminal × List Fill
unfolding handle_loop
handle_ansi_esc font sequence t =
    handle_loop font 0 (0 ∷ 0 ∷ 0 ∷ 0 ∷ 0 ∷ 0 ∷ 0 ∷ 0 ∷ []) (drop 2 sequence) t

-- The loop of `_tw_read_ansi_esc_bytes`: the terminal, what was drawn, and the bytes not processed.
pub read_loop : Font → List ℕ → Terminal → Terminal × List Fill × List ℕ
unfolding handle_ansi_esc
read_loop font [] t = (t, [], [])
read_loop font (c ∷ cs) t =
    let len = length t.escape in
    let longer = record t { escape = t.escape ++ c ∷ [] } in
    let again = read_loop font cs longer in
    let (handled, fills) = handle_ansi_esc font longer.escape longer in
    if ltb 0 len && ltb len 32
    then (if leb 2 len
        then (if leb b'@' c && leb c b'~'
            then (record handled { escape = [] }, fills, cs)
            else again)
        else if c == b'['
        then again
        else (record t { escape = [] }, [], c ∷ cs))
    else (t, [], c ∷ cs)

-- `if (term->ansiEscLen >= TW_MAX_ANSI_ESC) term->ansiEscLen = 0`.
pub limit_escape : Terminal → Terminal
limit_escape t = if leb 32 (length t.escape) then record t { escape = [] } else t

-- `_tw_read_ansi_esc_bytes`; the number it returns is that of the bytes processed.
pub read_escape : Font → List ℕ → Terminal → Terminal × List Fill × List ℕ
unfolding read_loop limit_escape
read_escape font [] t = (t, [], [])
read_escape font (c ∷ cs) t =
    let (t', fills, rest) =
      if length t.escape == 0 && c == 0x1b
      then read_loop font cs (record t { escape = 0x1b ∷ [] })
      else read_loop font (c ∷ cs) t in
    (limit_escape t', fills, rest)
