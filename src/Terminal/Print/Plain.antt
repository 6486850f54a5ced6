-- ===== src/Terminal/Print/Plain.antt =====
-- ppc/video.c, TW_PrintTerminal: a line of plain text.
use libtwilight.Prelude.{
  ℕ, suc, ◌+◌, ◌*◌, ◌%◌, ◌<◌, ◌≤◌, ◌≡◌, ◌≢◌, refl, ap, sym, ◌∙◌, arith, bit_and, Bool, true, false,
  not, ◌&&◌, List, [], ◌∷◌, ◌++◌, append-nil, append_assoc, Option, none, some, lt→leb, ne→==, ◌==◌,
  if◌then◌else◌, length,
}
use libtwilight.Terminal.{Terminal, Font}
use libtwilight.Terminal.Print.{
  Draw, span, Span, is_printed, is_empty, draw_text, text_loop, escape_loop, print_loop,
  print_terminal,
}

-- Neither ESC nor a carriage return nor a line feed.
abbrev pub IsPlain : ℕ → Type 0
IsPlain c = (c ≢ 0x1b) × (c ≢ 13) × (c ≢ 10)

abbrev pub AllPlain : List ℕ → Type 0
AllPlain [] = Unit
AllPlain (c ∷ cs) = IsPlain c × AllPlain cs

abbrev after_line : Font → Terminal → List ℕ → ℕ → ℕ → Span
after_line font t text line home_col = record {
  line = suc line;
  col = 0;
  left = [];
  ended = false;
  drawn = draw_text font t text line home_col;
}

not_and_false : (b : Bool) → not (b && false) ≡ true
not_and_false true = refl
not_and_false false = refl

is_printed-plain : (flags col c : ℕ) → IsPlain c → col < 79 → is_printed flags false col c ≡ true
unfolding is_printed
is_printed-plain flags col c (x, y, z) small =
    rw (ne→== c 0x1b x, ne→== c 13 y, ne→== c 10 z, lt→leb 79 col small)
      (not_and_false (bit_and flags 1 == 0))

text_loop-last :
    (font : Font) (t : Terminal) (d : ℕ) (text : List ℕ) (line col home_col : ℕ)
    → IsPlain d
    → suc line < 30
    → text_loop font t (d ∷ []) text line col home_col ≡ after_line font t text line home_col
unfolding text_loop is_printed
text_loop-last font t d text line col home_col (x, y, z) room =
    rw (ne→== d 0x1b x, ne→== d 13 y, lt→leb 30 (suc line) room)
      (ap (λ l. record { line = suc line; col = 0; left = []; ended = false; drawn = l })
        (append-nil (draw_text font t text line home_col ++ [])
          ∙ append-nil (draw_text font t text line home_col)))

is_empty_behind : (cs : List ℕ) (d : ℕ) → is_empty (cs ++ (d ∷ [])) ≡ false
is_empty_behind [] d = refl
is_empty_behind (c ∷ cs) d = refl

text_loop-step :
    (font : Font) (t : Terminal) (c : ℕ) (cs : List ℕ) (d : ℕ) (text : List ℕ)
    (line col home_col : ℕ)
    → IsPlain c
    → col < 79
    → text_loop font t (c ∷ (cs ++ (d ∷ []))) text line col home_col
      ≡ text_loop font t (cs ++ (d ∷ [])) (text ++ (c ∷ [])) line (suc col) home_col
unfolding text_loop
text_loop-step font t c cs d text line col home_col plain small =
    rw (is_empty_behind cs d, is_printed-plain t.flags col c plain small) refl

text_loop-plain :
    (font : Font) (t : Terminal) (cs : List ℕ) (d : ℕ) (text : List ℕ) (line col home_col : ℕ)
    → AllPlain cs
    → IsPlain d
    → col + length cs ≤ 79
    → suc line < 30
    → text_loop font t (cs ++ (d ∷ [])) text line col home_col
      ≡ after_line font t (text ++ cs) line home_col
text_loop-plain font t [] d text line col home_col plain last wide room =
    text_loop-last font t d text line col home_col last room
    ∙ ap (λ l. after_line font t l line home_col) (sym (append-nil text))
text_loop-plain font t (c ∷ cs) d text line col home_col (here, plain) last wide room =
    text_loop-step font t c cs d text line col home_col here (omega arith)
    ∙ text_loop-plain font t cs d (text ++ (c ∷ [])) line (suc col) home_col plain last
        (omega arith) room
    ∙ ap (λ l. after_line font t l line home_col) (append_assoc text (c ∷ []) cs)

escape_loop-plain :
    (fuel : ℕ) (font : Font) (c : ℕ) (cs : List ℕ) (t : Terminal)
    → IsPlain c
    → is_empty t.escape ≡ true
    → escape_loop (suc fuel) font (c == 0x1b && is_empty t.escape) (c ∷ cs) t ≡ some (t, [], c ∷ cs)
unfolding escape_loop
escape_loop-plain fuel font c cs t (x, y, z) idle = rw (ne→== c 0x1b x, idle) refl

-- `TW_PrintTerminal` of a text without control characters that fits the line, above the last row and with no
-- escape sequence under way: all bytes are processed, one span is drawn at the cursor, and the cursor goes to the
-- start of the next row. The span is the text without its last byte, which is not drawn. The text has two bytes at
-- least.
pub print_terminal-plain :
    (font : Font) (t : Terminal) (c : ℕ) (cs : List ℕ) (d : ℕ)
    → AllPlain (c ∷ cs)
    → IsPlain d
    → is_empty t.escape ≡ true
    → t.column + length (c ∷ cs) ≤ 79
    → t.row < 29
    → print_terminal font t ((c ∷ cs) ++ (d ∷ []))
      ≡ some (
        record t { row = suc t.row; column = 0 },
        span t.back t.fore (t.column * font.width) (t.row % 30 * font.height) (c ∷ cs) ∷ [],
        [],
      )
unfolding print_terminal print_loop draw_text
print_terminal-plain font t c cs d (here, plain) last idle wide room =
    let rest = cs ++ (d ∷ []) in
    let n = length rest in
    let fuel : 2 * suc n ≡ suc (suc (2 * n)) = omega arith in
    let finish : Terminal × List Draw × List ℕ → Span → Option (Terminal × List Draw × List ℕ) =
      λ r s.
        let t' : Terminal = record r.0 { row = s.line; column = s.col } in
        let again = print_loop (suc (2 * n)) font s.left t' in
        if is_empty r.2
        then some r
        else if s.ended
        then some (t', r.1 ++ s.drawn, s.left)
        else elim again [ none ↦ none | some q ↦ some (q.0, r.1 ++ s.drawn ++ q.1, q.2) ] in
    ap (λ f. print_loop f font (c ∷ rest) t) fuel
    ∙ ap
        (λ (x : Option (Terminal × List Draw × List ℕ)).
          elim x as (λ y. Option (Terminal × List Draw × List ℕ)) [
            | none ↦ none
            | some r ↦ finish r (text_loop font r.0 r.2 [] r.0.row r.0.column r.0.column)
          ])
        (escape_loop-plain n font c rest t here idle)
    ∙ ap (finish (t, [], c ∷ rest)) (
        text_loop-plain font t (c ∷ cs) d [] t.row t.column t.column (here, plain) last wide
          (omega arith))
