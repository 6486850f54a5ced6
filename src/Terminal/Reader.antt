-- ===== src/Terminal/Reader.antt =====
-- _tw_read_ansi_esc_bytes: the buffer of the sequence, and sequences that come in parts.
use libtwilight.Prelude.{
  ℕ, ◌≤◌, ◌<◌, ◌≡◌, ◌≢◌, refl, sym, ap, ◌∙◌, Bool, true, false, ◌&&◌, List, [], ◌∷◌, ◌++◌, arith,
  ltb, leb, ◌==◌, if◌then◌else◌, length, length-append, ne→==,
}
use mathlib.Core.Path.{subst}
use libtwilight.Terminal.{Terminal, Font, read_loop, read_escape, limit_escape}
use libtwilight.Video.{Fill}

-- The terminal, what was drawn, and the bytes left.
abbrev Result : Type 0
Result = Terminal × List Fill × List ℕ

by_if :
    (b : Bool) (P : Result → Type 0) (x y : Result)
    → (b ≡ true → P x)
    → (b ≡ false → P y)
    → P (if b then x else y)
by_if true P x y p q = p refl
by_if false P x y p q = q refl

both_if :
    (b : Bool) (P : Result → Result → Type 0) (x y x' y' : Result)
    → P x x'
    → P y y'
    → P (if b then x else y) (if b then x' else y')
both_if true P x y x' y' p q = p
both_if false P x y x' y' p q = q

abbrev Fits : Result → Type 0
Fits r = length r.0.escape ≤ 32

read_loop-Fits :
    (font : Font) (cs : List ℕ) (t : Terminal) → length t.escape ≤ 32 → Fits (read_loop font cs t)
unfolding read_loop
read_loop-Fits font [] t h = h
read_loop-Fits font (c ∷ cs) t h =
    let longer = record t { escape = t.escape ++ c ∷ [] } in
    let again : (ltb 0 (length t.escape) && ltb (length t.escape) 32) ≡ true
        → Fits (read_loop font cs longer) =
      λ inside. read_loop-Fits font cs longer (ground (arith, length-append t.escape (c ∷ []))) in
    by_if (ltb 0 (length t.escape) && ltb (length t.escape) 32) Fits _ _
      (λ inside.
        by_if (leb 2 (length t.escape)) Fits _ _
          (λ _. by_if (leb b'@' c && leb c b'~') Fits _ _ (λ _. omega arith) (λ _. again inside))
          (λ _. by_if (c == b'[') Fits _ _ (λ _. again inside) (λ _. omega arith)))
      (λ _. h)

-- The 32 bytes of `ansiEscBuf` are never exceeded, and behind every call of _tw_read_ansi_esc_bytes there
-- is room for one byte more.
read_escape-fits :
    (font : Font) (chars : List ℕ) (t : Terminal)
    → length t.escape < 32
    → length (read_escape font chars t).0.escape < 32
unfolding read_escape limit_escape
read_escape-fits font [] t h = h
read_escape-fits font (c ∷ cs) t h = ground arith

-- All bytes were taken and a sequence is open.
abbrev pub IsOpen : Result → Type 0
IsOpen (t, fills, rest) = (0 < length t.escape) × (rest ≡ [])

left_over : (c : ℕ) (cs : List ℕ) → c ∷ cs ≢ []
left_over c cs e = absurd (omega (arith, ap length e))

read_loop-append :
    (font : Font) (xs ys : List ℕ) (t : Terminal)
    → IsOpen (read_loop font xs t)
    → read_loop font (xs ++ ys) t ≡ read_loop font ys (read_loop font xs t).0
unfolding read_loop
read_loop-append font [] ys t = λ h. refl
read_loop-append font (c ∷ cs) ys t =
    let longer = record t { escape = t.escape ++ c ∷ [] } in
    let P : Result → Result → Type 0 = λ r r'. IsOpen r → r' ≡ read_loop font ys r.0 in
    both_if (ltb 0 (length t.escape) && ltb (length t.escape) 32) P _ _ _ _
      (both_if (leb 2 (length t.escape)) P _ _ _ _
        (both_if (leb b'@' c && leb c b'~') P _ _ _ _ (λ h. absurd (omega (arith, h.0)))
          (read_loop-append font cs ys longer))
        (both_if (c == b'[') P _ _ _ _ (read_loop-append font cs ys longer)
          (λ h. absurd (left_over c cs h.1))))
      (λ h. absurd (left_over c cs h.1))

limit_escape-fits : (t : Terminal) → 0 < length (limit_escape t).escape → limit_escape t ≡ t
unfolding limit_escape
limit_escape-fits t h = by_length (leb 32 (length t.escape)) h
  where
    by_length :
        (b : Bool)
        → 0 < length (if b then record t { escape = [] } else t).escape
        → (if b then record t { escape = [] } else t) ≡ t
    by_length true h = absurd (omega arith)
    by_length false h = refl

-- With a sequence open, a call takes its bytes into that sequence.
read_escape_open :
    (font : Font) (c : ℕ) (cs : List ℕ) (t : Terminal)
    → 0 < length t.escape
    → read_escape font (c ∷ cs) t ≡ (
      limit_escape (read_loop font (c ∷ cs) t).0,
      (read_loop font (c ∷ cs) t).1,
      (read_loop font (c ∷ cs) t).2,
    )
unfolding read_escape
read_escape_open font c cs t h = rw (ne→== (length t.escape) 0 (omega arith)) refl

-- A sequence that comes in parts acts as if it came at once: when one has been opened before and a call
-- of _tw_read_ansi_esc_bytes took all its bytes and left it open, the call with the next bytes does what
-- one call with all the bytes would have done.
pub read_escape-append :
    (font : Font) (x : ℕ) (xs : List ℕ) (y : ℕ) (ys : List ℕ) (t : Terminal)
    → 0 < length t.escape
    → IsOpen (read_escape font (x ∷ xs) t)
    → read_escape font (x ∷ (xs ++ (y ∷ ys))) t
      ≡ read_escape font (y ∷ ys) (read_escape font (x ∷ xs) t).0
read_escape-append font x xs y ys t h opened =
    let middle = (read_loop font (x ∷ xs) t).0 in
    let first = read_escape_open font x xs t h in
    let kept = subst IsOpen first opened in
    let same : limit_escape middle ≡ middle = limit_escape-fits middle kept.0 in
    let inside : 0 < length middle.escape =
      subst (λ (u : Terminal). 0 < length u.escape) same kept.0 in
    read_escape_open font x (xs ++ (y ∷ ys)) t h
    ∙ ap (λ (r : Result). (limit_escape r.0, r.1, r.2))
        (read_loop-append font (x ∷ xs) (y ∷ ys) t (inside, kept.1))
    ∙ sym (read_escape_open font y ys middle inside)
    ∙ sym (ap (read_escape font (y ∷ ys)) (ap (λ (r : Result). r.0) first ∙ same))
