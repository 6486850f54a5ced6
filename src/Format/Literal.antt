-- ===== src/Format/Literal.antt =====
-- Format strings with no `%`: TW_FormatStringV copies them, up to the limit.
use libtwilight.Prelude.{
  ℕ, zero, suc, ◌≤◌, ◌<◌, ◌≡◌, ◌≢◌, refl, sym, ap, ◌∙◌, Bool, true, false, List, [], ◌∷◌, ◌++◌,
  Option, some, ltb, if◌then◌else◌, length, take, take_all, length-append, append_assoc, append-nil,
  arith, lt→ltb, le→leb, lt→leb,
}
use mathlib.Core.Option
use mathlib.Core.Path.{subst}
use native.Mathlib.Decide.{dec_lt}
use libtwilight.Prelude.Int.{ℤ, pos}
use libtwilight.Format.{Arg, State, literal, remember}
use libtwilight.Format.Machine.{run, initial}
use libtwilight.Format.Run.{run-proceed, run-stop, step-literal, put_literal-more, put_literal-stop}
use libtwilight.Format.Refine.{list_sink}
use libtwilight.Format.Whole.{format_list, Delivers, format_string-Delivers}
use libtwilight.Format.Buffer.{format_string}

abbrev pub NoPercent : List ℕ → Type 0
NoPercent [] = Unit {0}
NoPercent (c ∷ cs) = (c ≢ b'%') × NoPercent cs

-- The bytes that a limit lets through; 0 is no limit.
abbrev pub limited : ℕ → List ℕ → List ℕ
limited m text = if ltb 0 m then take m text else text

take_front : (xs ys : List ℕ) → take (length xs) (xs ++ ys) ≡ xs
take_front [] ys = refl
take_front (x ∷ xs) ys = ap (λ (l : List ℕ). x ∷ l) (take_front xs ys)

abbrev plain : List ℕ → ℕ → List Arg → State (List ℕ)
plain out prev args = record {
  out = out;
  mode = literal;
  format_flags = 0;
  format_bits = 0;
  min_width = pos 0;
  fmt_precision = pos 0;
  prev = prev;
  args = args;
  stored = [];
}

module _ (write_double : ℕ → ℤ → ℤ → ℕ → ℕ → List ℕ) (args : List Arg) where
  abbrev answer : Option (State (List ℕ)) → Option (List ℕ × List ℕ)
  answer = Option.map (λ (s : State (List ℕ)). (s.out, s.stored))

  abbrev result : ℕ → List ℕ → List ℕ → ℕ → Option (List ℕ × List ℕ)
  result m str out prev =
      Option.map (λ (s : State (List ℕ)). (s.out, s.stored))
        (run (list_sink m) write_double str (plain out prev args))

  unlimited :
      (str out : List ℕ) (prev : ℕ) → NoPercent str → result 0 str out prev ≡ some (out ++ str, [])
  unfolding run remember
  unlimited [] out prev _ = ap (λ (l : List ℕ). some (l, [])) (sym (append-nil out))
  unlimited (c ∷ cs) out prev (h, hs) =
      ap answer (
        run-proceed (list_sink 0) write_double c cs (plain out prev args) (
          step-literal (list_sink 0) write_double c (plain out prev args) h refl
          ∙ put_literal-more (list_sink 0) write_double c (plain out prev args) refl))
      ∙ unlimited cs (out ++ c ∷ []) c hs
      ∙ ap (λ (l : List ℕ). some (l, [])) (append_assoc out (c ∷ []) cs)

  -- Below the limit a byte is appended, at the limit the loop stops.
  put_room :
      (m c : ℕ) (out : List ℕ)
      → 0 < m
      → length out < m
      → (list_sink m).put c out ≡ (out ++ c ∷ [], true)
  put_room m c out some_limit room = rw (lt→ltb 0 m some_limit, lt→leb m (length out) room) refl

  put_full :
      (m c : ℕ) (out : List ℕ) → 0 < m → m ≤ length out → (list_sink m).put c out ≡ (out, false)
  put_full m c out some_limit full = rw (lt→ltb 0 m some_limit, le→leb m (length out) full) refl

  under_limit :
      (m : ℕ) (str out : List ℕ) (prev : ℕ)
      → 0 < m
      → length out ≤ m
      → NoPercent str
      → result m str out prev ≡ some (take m (out ++ str), [])
  unfolding run remember
  under_limit m [] out prev some_limit le _ =
      ap (λ (l : List ℕ). some (l, []))
        (sym (take_all m out le) ∙ ap (take m) (sym (append-nil out)))
  under_limit m (c ∷ cs) out prev some_limit le (h, hs) = elim (dec_lt (length out) m) [
    | yes room ↦
        ap answer (
          run-proceed (list_sink m) write_double c cs (plain out prev args) (
            step-literal (list_sink m) write_double c (plain out prev args) h refl
            ∙ put_literal-more (list_sink m) write_double c (plain out prev args)
                (ap (λ p. p.1) (put_room m c out some_limit room))))
        ∙ ap (λ (l : List ℕ). result m cs l c) (ap (λ p. p.0) (put_room m c out some_limit room))
        ∙ under_limit m cs (out ++ c ∷ []) c some_limit (omega (arith, length-append out (c ∷ [])))
            hs
        ∙ ap (λ (l : List ℕ). some (take m l, [])) (append_assoc out (c ∷ []) cs)
    | no full ↦
        ap answer (
          run-stop (list_sink m) write_double c cs (plain out prev args) (
            step-literal (list_sink m) write_double c (plain out prev args) h refl
            ∙ put_literal-stop (list_sink m) write_double c (plain out prev args)
                (ap (λ p. p.1) (put_full m c out some_limit (omega arith)))))
        ∙ ap (λ (l : List ℕ). some (l, []))
            (ap (λ p. p.0) (put_full m c out some_limit (omega arith)))
        ∙ ap (λ (l : List ℕ). some (l, [])) (exact full)
  ]
    where
      exact : ¬ (length out < m) → out ≡ take m (out ++ c ∷ cs)
      exact full =
          let e : m ≡ length out = omega arith in
          sym (ap (λ (n : ℕ). take n (out ++ c ∷ cs)) e ∙ take_front out (c ∷ cs))

-- TW_FormatStringV on a string with no `%` sends its bytes, the first `maxOutputSize` ones where there
-- is such a limit, and a final 0, and returns how many bytes they are without the 0; it reads no argument.
format_string-literal :
    (write_double : ℕ → ℤ → ℤ → ℕ → ℕ → List ℕ) (max_output : ℕ) (str : List ℕ) (args : List Arg)
    → NoPercent str
    → Delivers (format_string write_double max_output str args) (some (limited max_output str, []))
format_string-literal wd m str args h =
    subst (λ r. Delivers (format_string wd m str args) r) (text m)
      (format_string-Delivers wd m str args)
  where
    text : (m : ℕ) → format_list wd m str args ≡ some (limited m str, [])
    text zero = unfold initial in unlimited wd args str [] 0 h
    text (suc m) =
        unfold initial in
        under_limit wd args (suc m) str [] 0 (omega arith) (omega arith) h
        ∙ ap (λ (b : Bool). some (if b then take (suc m) str else str, []))
            (sym (lt→ltb 0 (suc m) (omega arith)))
