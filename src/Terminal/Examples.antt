-- ===== src/Terminal/Examples.antt =====
-- The theorems about the terminal at concrete sequences.
use libtwilight.Prelude.{◌≡◌, refl, [], ◌∷◌, ◌++◌, arith, codes, some}
use libtwilight.Integer.Digits.{read_from}
use libtwilight.Terminal.{Terminal, Font, handle_ansi_esc, read_escape, read_loop, limit_escape}
use libtwilight.Terminal.Cursor.{
  IsOnScreen, handle_ansi_esc-IsOnScreen, at_most, handle_ansi_esc-move_to,
}
use libtwilight.Terminal.Reader.{read_escape-append}
use libtwilight.Terminal.Print.{span, print_terminal}
use libtwilight.Terminal.Print.Plain.{print_terminal-plain}

abbrev font : Font
font = record { width = 8; height = 16 }

abbrev home : Terminal
home = record { column = 3; row = 2; fore = 0; back = 0; flags = 0; escape = [] }

-- `ESC [` has been read.
abbrev half : Terminal
half = record home { escape = 0x1b ∷ b'[' ∷ [] }

handle_ansi_esc-IsOnScreen_example :
    IsOnScreen (handle_ansi_esc font (0x1b ∷ codes "[99999999999B") home).0
handle_ansi_esc-IsOnScreen_example =
    handle_ansi_esc-IsOnScreen font (0x1b ∷ codes "[99999999999B") home (omega arith, omega arith)

handle_ansi_esc-move_to_example :
    handle_ansi_esc font (0x1b ∷ b'[' ∷ (codes "7" ++ (b';' ∷ (codes "120" ++ (b'H' ∷ []))))) home
    ≡ (
      record home {
        row = at_most 29 (read_from 10 0 (codes "7"));
        column = at_most 79 (read_from 10 0 (codes "120"));
      },
      [],
    )
handle_ansi_esc-move_to_example =
    handle_ansi_esc-move_to font (codes "7") (codes "120") home (omega arith, omega arith, tt)
      (omega arith, omega arith, (omega arith, omega arith, (omega arith, omega arith, tt)))
      (omega arith) (omega arith)

read_escape-append_example :
    read_escape font (b'1' ∷ (codes ";2" ++ (b'5' ∷ codes "Hx"))) half
    ≡ read_escape font (b'5' ∷ codes "Hx") (read_escape font (b'1' ∷ codes ";2") half).0
unfolding read_escape read_loop limit_escape
read_escape-append_example =
    read_escape-append font b'1' (codes ";2") b'5' (codes "Hx") half (omega arith)
      (omega arith, refl)

print_terminal-plain_example :
    print_terminal font home (codes "ab" ++ (b'!' ∷ []))
    ≡ some (record home { row = 3; column = 0 }, span 0 0 24 32 (codes "ab") ∷ [], [])
print_terminal-plain_example =
    print_terminal-plain font home b'a' (codes "b") b'!'
      ((omega arith, omega arith, omega arith), ((omega arith, omega arith, omega arith), tt))
      (omega arith, omega arith, omega arith) refl (omega arith) (omega arith)
