-- ===== src/Format/Run.antt =====
-- How the loop of TW_FormatStringV goes on from the end of one round.
use libtwilight.Prelude.{
  ℕ, ◌≡◌, ◌≢◌, refl, true, false, not, List, ◌∷◌, some, ◌==◌, Bool-cases, inl, inr, ne→==,
}
use libtwilight.Prelude.Int.{ℤ, is_negative}
use libtwilight.Format.{Sink, State, proceed, stop, literal, point, is_digit, remember}
use libtwilight.Format.Machine.{run, step, in_conversion, put_literal, at_width, at_point}

module _ {O : Type 0} (sink : Sink O) (write_double : ℕ → ℤ → ℤ → ℕ → ℕ → List ℕ) where
  pub run-proceed :
      (c : ℕ) (cs : List ℕ) (s : State O) {s' : State O}
      → step sink write_double c s ≡ proceed s'
      → run sink write_double (c ∷ cs) s ≡ run sink write_double cs s'
  unfolding run
  run-proceed c cs s e = rw (e, run) refl

  pub run-stop :
      (c : ℕ) (cs : List ℕ) (s : State O) {s' : State O}
      → step sink write_double c s ≡ stop s'
      → run sink write_double (c ∷ cs) s ≡ some s'
  unfolding run
  run-stop c cs s e = rw (e, run) refl

  pub run-same :
      (c : ℕ) (cs : List ℕ) (s s' : State O)
      → step sink write_double c s ≡ step sink write_double c s'
      → run sink write_double (c ∷ cs) s ≡ run sink write_double (c ∷ cs) s'
  unfolding run
  run-same c cs s s' e = rw (e, run) refl

  pub step-literal :
      (c : ℕ) (s : State O)
      → c ≢ b'%'
      → s.mode ≡ literal
      → step sink write_double c s ≡ put_literal sink write_double c s
  unfolding step in_conversion
  step-literal c s ne e = rw (ne→== c b'%' ne, e, step, in_conversion) refl

  pub put_literal-more :
      (c : ℕ) (s : State O)
      → (sink.put c s.out).1 ≡ true
      → put_literal sink write_double c s
        ≡ proceed (remember c (record s { out = (sink.put c s.out).0 }))
  unfolding put_literal
  put_literal-more c s e = rw (e, put_literal) refl

  pub put_literal-stop :
      (c : ℕ) (s : State O)
      → (sink.put c s.out).1 ≡ false
      → put_literal sink write_double c s ≡ stop (record s { out = (sink.put c s.out).0 })
  unfolding put_literal
  put_literal-stop c s e = rw (e, put_literal) refl

  -- A byte that is no part of a width.
  pub at_width-other :
      (c : ℕ) (s : State O)
      → is_digit c ≡ false
      → (c == b'*') ≡ false
      → at_width sink write_double c s ≡ at_point sink write_double c (record s { mode = point })
  unfolding at_width
  at_width-other c s hd hs = elim (Bool-cases (not (is_negative s.min_width))) [
    | inl e ↦ rw (e, hd, hs, at_width) refl
    | inr e ↦ rw (e, hs, at_width) refl
  ]
