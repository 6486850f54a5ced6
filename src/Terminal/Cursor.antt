-- ===== src/Terminal/Cursor.antt =====
-- The cursor of the terminal.
use libtwilight.Prelude.{
  ℕ, suc, ◌+◌, ◌-◌, ◌*◌, ◌%◌, ◌^◌, ◌≤◌, ◌<◌, ◌≡◌, refl, sym, ap, ◌∙◌, Bool, true, false, ◌&&◌, List,
  [], ◌∷◌, ◌++◌, arith, ltb, leb, ◌==◌, if◌then◌else◌, set, le→leb, lt→ltb, ap₂, drop,
}
use libtwilight.Prelude.Int.{ℤ, pos, negsuc, clamp, signed32}
use libtwilight.Integer.Digits.{read_from, digit_value}
use libtwilight.Terminal.{
  Terminal, Font, Command, move_to, move_up, move_up_home, move_down, move_down_home, move_right,
  move_left, to_column, erase_screen, erase_line, colors, unknown, is_unknown, command_of, execute,
  set_colors, handle_loop, handle_ansi_esc, word_at,
}
use libtwilight.Video.{Fill}

abbrev pub IsOnScreen : Terminal → Type 0
IsOnScreen t = (t.row < 30) × (t.column < 80)

clamp-le : (top : ℕ) (n : ℤ) → clamp top n ≤ top
clamp-le top (pos n) = ground arith
clamp-le top (negsuc n) = omega arith

set_colors_cursor :
    (numeric : List ℕ) (t : Terminal)
    → ((set_colors numeric t).row ≡ t.row) × ((set_colors numeric t).column ≡ t.column)
unfolding set_colors
set_colors_cursor numeric t = ground arith

execute-IsOnScreen :
    (font : Font) (command : Command) (numeric : List ℕ) (t : Terminal)
    → IsOnScreen t
    → IsOnScreen (execute font command numeric t).0
unfolding execute
execute-IsOnScreen font move_to numeric t v =
    (omega (arith, clamp-le 29 _), omega (arith, clamp-le 79 _))
execute-IsOnScreen font move_up numeric t v = (omega (arith, clamp-le 29 _), v.1)
execute-IsOnScreen font move_up_home numeric t v = (omega (arith, clamp-le 29 _), omega arith)
execute-IsOnScreen font move_down numeric t v = (omega (arith, clamp-le 29 _), v.1)
execute-IsOnScreen font move_down_home numeric t v = (omega (arith, clamp-le 29 _), omega arith)
execute-IsOnScreen font move_right numeric t v = (v.0, omega (arith, clamp-le 79 _))
execute-IsOnScreen font move_left numeric t v = (v.0, omega (arith, clamp-le 79 _))
execute-IsOnScreen font to_column numeric t v = (v.0, omega (arith, clamp-le 79 _))
execute-IsOnScreen font erase_screen numeric t v = v
execute-IsOnScreen font erase_line numeric t v = v
execute-IsOnScreen font colors numeric t v =
    let (same, same') = set_colors_cursor numeric t in
    (omega (arith, same, v), omega (arith, same', v))
execute-IsOnScreen font unknown numeric t v = v

handle_loop-IsOnScreen :
    (font : Font) (cur : ℕ) (numeric cs : List ℕ) (t : Terminal)
    → IsOnScreen t
    → IsOnScreen (handle_loop font cur numeric cs t).0
unfolding handle_loop
handle_loop-IsOnScreen font cur numeric [] t v = v
handle_loop-IsOnScreen font cur numeric (c ∷ cs) t v =
    either (leb b'0' c && leb c b'9') _ _
      (handle_loop-IsOnScreen font cur
        (set numeric cur ((word_at numeric cur * 10 + (c - b'0')) % 2 ^ 32)) cs t v)
      (either (c == b';') _ _
        (handle_loop-IsOnScreen font (if ltb cur 7 then suc cur else cur) numeric cs t v)
        (either (is_unknown (command_of c)) _ _ (handle_loop-IsOnScreen font cur numeric cs t v)
          (execute-IsOnScreen font (command_of c) numeric t v)))
  where
    either :
        (b : Bool) (x y : Terminal × List Fill)
        → IsOnScreen x.0
        → IsOnScreen y.0
        → IsOnScreen (if b then x else y).0
    either true x y p q = p
    either false x y p q = q

-- From a cursor on the screen of 30 rows and 80 columns, every escape sequence, well formed or not and
-- with numbers of any size, leaves the cursor on the screen.
pub handle_ansi_esc-IsOnScreen :
    (font : Font) (sequence : List ℕ) (t : Terminal)
    → IsOnScreen t
    → IsOnScreen (handle_ansi_esc font sequence t).0
unfolding handle_ansi_esc
handle_ansi_esc-IsOnScreen font sequence t v = handle_loop-IsOnScreen font 0 _ (drop 2 sequence) t v

abbrev pub AllDigits : List ℕ → Type 0
AllDigits [] = Unit {0}
AllDigits (c ∷ cs) = (b'0' ≤ c) × (c ≤ b'9') × AllDigits cs

-- The number that digits leave in a word.
abbrev wrapped : ℕ → List ℕ → ℕ
wrapped n [] = n
wrapped n (c ∷ cs) = wrapped ((n * 10 + (c - b'0')) % 2 ^ 32) cs

handle_digit :
    (font : Font) (cur : ℕ) (numeric : List ℕ) (c : ℕ) (cs : List ℕ) (t : Terminal)
    → b'0' ≤ c
    → c ≤ b'9'
    → handle_loop font cur numeric (c ∷ cs) t
      ≡ handle_loop font cur
          (set numeric cur ((word_at numeric cur * 10 + (c - b'0')) % 2 ^ 32))
          cs
          t
unfolding handle_loop
handle_digit font cur numeric c cs t lo hi = rw (le→leb b'0' c lo, le→leb c b'9' hi) refl

handle_first :
    (font : Font) (n : ℕ) (numeric ds rest : List ℕ) (t : Terminal)
    → AllDigits ds
    → handle_loop font 0 (n ∷ numeric) (ds ++ rest) t
      ≡ handle_loop font 0 (wrapped n ds ∷ numeric) rest t
handle_first font n numeric [] rest t h = refl
handle_first font n numeric (c ∷ cs) rest t (lo, hi, h) =
    handle_digit font 0 (n ∷ numeric) c (cs ++ rest) t lo hi
    ∙ handle_first font ((n * 10 + (c - b'0')) % 2 ^ 32) numeric cs rest t h

handle_second :
    (font : Font) (m n : ℕ) (numeric ds rest : List ℕ) (t : Terminal)
    → AllDigits ds
    → handle_loop font 1 (m ∷ n ∷ numeric) (ds ++ rest) t
      ≡ handle_loop font 1 (m ∷ wrapped n ds ∷ numeric) rest t
handle_second font m n numeric [] rest t h = refl
handle_second font m n numeric (c ∷ cs) rest t (lo, hi, h) =
    handle_digit font 1 (m ∷ n ∷ numeric) c (cs ++ rest) t lo hi
    ∙ handle_second font m ((n * 10 + (c - b'0')) % 2 ^ 32) numeric cs rest t h

read_from-mod :
    (n : ℕ) (ds : List ℕ) → read_from 10 (n % 2 ^ 32) ds % 2 ^ 32 ≡ read_from 10 n ds % 2 ^ 32
read_from-mod n [] = omega arith
read_from-mod n (c ∷ cs) =
    let same : (n % 2 ^ 32 * 10 + digit_value c) % 2 ^ 32 ≡ (n * 10 + digit_value c) % 2 ^ 32 =
      omega arith in
    sym (read_from-mod (n % 2 ^ 32 * 10 + digit_value c) cs)
    ∙ ap (λ (k : ℕ). read_from 10 k cs % 2 ^ 32) same
    ∙ read_from-mod (n * 10 + digit_value c) cs

wrapped-read_from :
    (n : ℕ) (ds : List ℕ) → n < 2 ^ 32 → AllDigits ds → wrapped n ds ≡ read_from 10 n ds % 2 ^ 32
wrapped-read_from n [] h _ = omega arith
wrapped-read_from n (c ∷ cs) h (lo, hi, ds) =
    let value : digit_value c ≡ c - b'0' = ground arith in
    wrapped-read_from ((n * 10 + (c - b'0')) % 2 ^ 32) cs (omega arith) ds
    ∙ read_from-mod (n * 10 + (c - b'0')) cs
    ∙ ap (λ (k : ℕ). read_from 10 (n * 10 + k) cs % 2 ^ 32) (sym value)

-- The last row or column that a position is cut off at.
abbrev pub at_most : ℕ → ℕ → ℕ
at_most top n = if ltb top n then top else n

clamp_word : (top n : ℕ) → n < 2 ^ 31 → clamp top (signed32 n) ≡ at_most top n
clamp_word top n h = rw (lt→ltb n (2 ^ 31) h) refl

-- `ESC [ row ; column H`, the numbers in decimal digits and below 2^31, moves the cursor there, or to
-- the last row or column if the number is larger, and changes nothing else and draws nothing.
pub handle_ansi_esc-move_to :
    (font : Font) (ds es : List ℕ) (t : Terminal)
    → AllDigits ds
    → AllDigits es
    → read_from 10 0 ds < 2 ^ 31
    → read_from 10 0 es < 2 ^ 31
    → handle_ansi_esc font (0x1b ∷ b'[' ∷ (ds ++ (b';' ∷ (es ++ (b'H' ∷ []))))) t ≡ (
      record t { row = at_most 29 (read_from 10 0 ds); column = at_most 79 (read_from 10 0 es) },
      [],
    )
unfolding handle_ansi_esc
handle_ansi_esc-move_to font ds es t hd he row column =
    handle_first font 0 _ ds (b';' ∷ (es ++ (b'H' ∷ []))) t hd
    ∙ semicolon
    ∙ handle_second font (wrapped 0 ds) 0 _ es (b'H' ∷ []) t he
    ∙ moved_to
    ∙ ap₂ (λ (r c : ℕ). (record t { row = r; column = c }, [])) (position 29 ds hd row)
        (position 79 es he column)
  where
    semicolon :
        handle_loop font 0
          (wrapped 0 ds ∷ 0 ∷ 0 ∷ 0 ∷ 0 ∷ 0 ∷ 0 ∷ 0 ∷ [])
          (b';' ∷ (es ++ (b'H' ∷ [])))
          t
        ≡ handle_loop font 1 (wrapped 0 ds ∷ 0 ∷ 0 ∷ 0 ∷ 0 ∷ 0 ∷ 0 ∷ 0 ∷ []) (es ++ b'H' ∷ []) t
    semicolon = unfold handle_loop in refl

    moved_to :
        handle_loop font 1 (wrapped 0 ds ∷ wrapped 0 es ∷ 0 ∷ 0 ∷ 0 ∷ 0 ∷ 0 ∷ 0 ∷ []) (b'H' ∷ []) t
        ≡ (
          record t {
            row = clamp 29 (signed32 (wrapped 0 ds));
            column = clamp 79 (signed32 (wrapped 0 es));
          },
          [],
        )
    moved_to = unfold handle_loop in unfold execute in unfold command_of in refl

    position :
        (top : ℕ) (cs : List ℕ)
        → AllDigits cs
        → read_from 10 0 cs < 2 ^ 31
        → clamp top (signed32 (wrapped 0 cs)) ≡ at_most top (read_from 10 0 cs)
    position top cs h lt =
        let exact : wrapped 0 cs ≡ read_from 10 0 cs =
          wrapped-read_from 0 cs (omega arith) h ∙ omega arith in
        rw exact (clamp_word top (read_from 10 0 cs) lt)
