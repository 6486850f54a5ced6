-- ===== src/Terminal/Print.antt =====
-- ppc/video.c, TW_PrintTerminal: text and escape sequences in turn. The spans of text that it draws, the
-- rectangles that escape sequences clear and the scrolls are a list, in order; `TW_DrawAsciiSpan`, which draws the
-- glyphs with floats, is one span of it.
pub mod Plain
use libtwilight.Prelude.{
  ℕ, zero, suc, ◌+◌, ◌-◌, ◌*◌, ◌/◌, ◌%◌, ◌^◌, ◌<◌, ◌≤◌, ◌≡◌, ◌≢◌, refl, ap, ap₂, sym, ◌∙◌, arith,
  bit_and, Bool, true, false, not, ◌&&◌, ◌||◌, List, [], ◌∷◌, ◌++◌, append-nil, append_assoc,
  Option, none, some, ltb, leb, ◌==◌, if◌then◌else◌, length,
}
use libtwilight.Prelude.Int.{ℤ, pos, negsuc, diff}
use libtwilight.Video.{Fill}
use libtwilight.Terminal.{Terminal, Font, read_escape}

pub data Draw : Type 0 where
  span : (back fore x y : ℕ) → List ℕ → Draw
  filled : Fill → Draw
  scrolled : ℤ → Draw

abbrev pub all_filled : List Fill → List Draw
all_filled [] = []
all_filled (f ∷ fills) = filled f ∷ all_filled fills

-- What the loop over the text leaves: the row and the column, the bytes that are left, and whether the call
-- returns.
pub record Span : Type 0 where
  pub line : ℕ
  pub col : ℕ
  pub left : List ℕ
  pub ended : Bool
  pub drawn : List Draw

-- The bytes that only move the cursor on; `last` says that the byte is the last of the call.
pub is_printed : ℕ → Bool → ℕ → ℕ → Bool
is_printed flags last col c =
    not last
    && not (c == 0x1b)
    && not (c == 13)
    && not (c == 10)
    && not (bit_and flags 1 == 0 && leb 79 col)

abbrev pub is_empty : List ℕ → Bool
is_empty [] = true
is_empty (x ∷ xs) = false

-- `if (i > home) TW_DrawAsciiSpan(...)`, where `text` is what stands from `home` on.
pub draw_text : Font → Terminal → List ℕ → ℕ → ℕ → List Draw
draw_text font t [] line home_col = []
draw_text font t (c ∷ text) line home_col =
    span t.back t.fore (home_col * font.width) (line % 30 * font.height) (c ∷ text) ∷ []

-- The loop over the text. A byte that is not printed ends a span; what is left of one at the end is not drawn.
pub text_loop : Font → Terminal → List ℕ → List ℕ → (line col home_col : ℕ) → Span
unfolding is_printed draw_text
text_loop font t [] text line col home_col = record {
  line = line;
  col = col;
  left = [];
  ended = false;
  drawn = [];
}
text_loop font t (c ∷ cs) text line col home_col =
    let onward = text_loop font t cs (text ++ (c ∷ [])) line (suc col) home_col in
    let drawn = draw_text font t text line home_col in
    let home = if c == 13 || c == 10 then [] else c ∷ [] in
    let line' = if c == 13 then line else suc line in
    let next = text_loop font t cs home (if leb 30 line' then 31 else line') 0 0 in
    let scroll = if leb 30 line' then scrolled (diff line' 31) ∷ [] else [] in
    let stop : Span = record {
      line = line;
      col = col;
      left = c ∷ cs;
      ended = false;
      drawn = drawn;
    } in
    let full : Span = record {
      line = line';
      col = 0;
      left = c ∷ cs;
      ended = true;
      drawn = drawn;
    } in
    let below : Span = record next { drawn = drawn ++ scroll ++ next.drawn } in
    if is_printed t.flags (is_empty cs) col c
    then onward
    else if c == 0x1b
    then stop
    else if leb 30 line' && not (bit_and t.flags 2 == 0)
    then full
    else below

-- The loop that reads escape sequences: the terminal, what they cleared, and the bytes left.
pub escape_loop : ℕ → Font → Bool → List ℕ → Terminal → Option (Terminal × List Draw × List ℕ)
escape_loop fuel font is_ansi_start [] t = some (t, [], [])
escape_loop zero font is_ansi_start (c ∷ cs) t = none
escape_loop (suc fuel) font is_ansi_start (c ∷ cs) t =
    let (t', fills, rest) = read_escape font (c ∷ cs) t in
    let again = escape_loop fuel font false rest t' in
    let more : Option (Terminal × List Draw × List ℕ) = elim again [
      | none ↦ none
      | some r ↦ some (r.0, all_filled fills ++ r.1, r.2)
    ] in
    if not is_ansi_start && is_empty t.escape
    then some (t, [], c ∷ cs)
    else if length rest == suc (length cs)
    then some (record t' { escape = [] }, all_filled fills, c ∷ cs)
    else more

-- The outer loop of `TW_PrintTerminal`: the terminal, what was drawn, and the bytes that were not processed.
pub print_loop : ℕ → Font → List ℕ → Terminal → Option (Terminal × List Draw × List ℕ)
unfolding text_loop escape_loop
print_loop fuel font [] t = some (t, [], [])
print_loop zero font (c ∷ cs) t = none
print_loop (suc fuel) font (c ∷ cs) t =
    elim (escape_loop (suc (length cs)) font (c == 0x1b && is_empty t.escape) (c ∷ cs) t) [
      | none ↦ none
      | some r ↦
          let s = text_loop font r.0 r.2 [] r.0.row r.0.column r.0.column in
          let t' : Terminal = record r.0 { row = s.line; column = s.col } in
          let again = print_loop fuel font s.left t' in
          if is_empty r.2
          then some r
          else if s.ended
          then some (t', r.1 ++ s.drawn, s.left)
          else elim again [ none ↦ none | some q ↦ some (q.0, r.1 ++ s.drawn ++ q.1, q.2) ]
    ]

-- `TW_PrintTerminal`; the number that it returns is that of the bytes processed.
pub print_terminal : Font → Terminal → List ℕ → Option (Terminal × List Draw × List ℕ)
unfolding print_loop
print_terminal font t chars = print_loop (2 * length chars) font chars t
