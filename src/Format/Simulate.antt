-- ===== src/Format/Simulate.antt =====
-- Two sinks that answer alike give two runs of the format machine that answer alike.
use libtwilight.Prelude.{
  bit_or, ℕ, ◌≡◌, refl, sym, ◌∙◌, Bool, true, false, not, ◌&&◌, ◌||◌, List, [], ◌∷◌, ◌++◌, Option,
  none, some, ◌==◌, if◌then◌else◌, Bool-cases, inl, inr, codes,
}
use libtwilight.Prelude.Int.{ℤ, is_negative}
use libtwilight.Format.{
  Arg, Mode, literal, flags, width, point, precision, length_modifier, conversion, Sink, State,
  Turn, proceed, stop, fault, is_digit, length_bits, flag_of, take_integer, take_star, Kind,
  floating, character, decimal, bytes_so_far, pointer, string, nothing, unsigned_in, kind_of, reset,
  remember,
}
use libtwilight.Format.Machine.{
  next_real, next_word, next_text, next_cell, with_arg, put_string, finish, perform, convert,
  at_length, at_precision, at_point, at_width, at_flags, put_literal, in_conversion, is_literal,
  at_percent, step, run,
}

-- The same state over another output.
abbrev pub with_out : {O P : Type 0} → State O → P → State P
with_out s p = record {
  out = p;
  mode = s.mode;
  format_flags = s.format_flags;
  format_bits = s.format_bits;
  min_width = s.min_width;
  fmt_precision = s.fmt_precision;
  prev = s.prev;
  args = s.args;
  stored = s.stored;
}

-- What makes two sinks answer alike, under a relation between their outputs.
pub record Agree {O P : Type 0} (R : O → P → Type 0) (a : Sink O) (b : Sink P) : Type 0 where
  pub puts :
      (c : ℕ) (o : O) (p : P)
      → R o p
      → R (a.put c o).0 (b.put c p).0 × ((a.put c o).1 ≡ (b.put c p).1)
  pub appends : (bytes : List ℕ) (o : O) (p : P) → R o p → R (a.append bytes o) (b.append bytes p)
  pub counts : (o : O) (p : P) → R o p → a.count o ≡ b.count p

module _ {O P : Type 0} (R : O → P → Type 0) (a : Sink O) (b : Sink P) (agree : Agree R a b)
    (write_double : ℕ → ℤ → ℤ → ℕ → ℕ → List ℕ) where
  open agree use {puts, appends, counts}

  -- Two rounds end alike.
  abbrev pub Related : Turn O → Turn P → Type 0
  Related (proceed s) t = (p : P) × R s.out p × (t ≡ proceed (with_out s p))
  Related (stop s) t = (p : P) × R s.out p × (t ≡ stop (with_out s p))
  Related fault t = t ≡ fault

  with_arg-Related {ℓ} :
      {A : Type ℓ} (o : Option A) (k : A → Turn O) (k' : A → Turn P)
      → ((x : A) → Related (k x) (k' x))
      → Related (with_arg o k) (with_arg o k')
  with_arg-Related none k k' h = refl
  with_arg-Related (some x) k k' h = h x

  put_string-R :
      (cs : List ℕ) (o : O) (p : P)
      → R o p
      → R (put_string a write_double cs o) (put_string b write_double cs p)
  unfolding put_string
  put_string-R [] o p r = r
  put_string-R (c ∷ cs) o p r =
      let (r', same) = puts c o p r in
      elim (Bool-cases (a.put c o).1) [
        | inl more ↦ rw (more, sym same ∙ more) (put_string-R cs (a.put c o).0 (b.put c p).0 r')
        | inr done ↦ rw (done, sym same ∙ done) r'
      ]

  finish-Related :
      (c : ℕ) (bytes : List ℕ) (args : List Arg) (s : State O) (p : P)
      → R s.out p
      → Related
          (finish a write_double c bytes args s)
          (finish b write_double c bytes args (with_out s p))
  unfolding finish reset remember
  finish-Related c bytes args s p r = (b.append bytes p, appends bytes s.out p r, refl)

  perform-Related :
      (k : Kind) (c : ℕ) (s : State O) (p : P)
      → R s.out p
      → Related (perform a write_double k c s) (perform b write_double k c (with_out s p))
  unfolding perform
  perform-Related (floating mode) c s p r =
      with_arg-Related (next_real s.args) _ _ (λ x. finish-Related c _ x.1 s p r)
  perform-Related character c s p r =
      with_arg-Related (next_word s.args) _ _ (λ x. finish-Related c _ x.1 s p r)
  perform-Related decimal c s p r =
      with_arg-Related (take_integer s.format_bits s.args) _ _ (λ x. finish-Related c _ x.1 s p r)
  perform-Related bytes_so_far c s p r = with_arg-Related (next_cell s.args) _ _ (λ args.
      rw (← counts s.out p r)
        (finish-Related c [] args (record s { stored = s.stored ++ a.count s.out ∷ [] }) p r))
  perform-Related (unsigned_in base) c s p r =
      with_arg-Related (take_integer s.format_bits s.args) _ _ (λ x. finish-Related c _ x.1 s p r)
  perform-Related pointer c s p r =
      with_arg-Related (next_word s.args) _ _ (λ x. finish-Related c _ x.1 s p r)
  perform-Related string c s p r = with_arg-Related (next_text s.args) _ _ (λ x. text_case x.0 x.1)
    where
      text_case :
          (v : Option (List ℕ)) (args : List Arg)
          → Related
              (elim v [
                | none ↦ finish a write_double c (codes "(null)") args s
                | some cs ↦
                    finish a write_double c [] args
                      (record s { out = put_string a write_double cs s.out })
              ])
              (elim v [
                | none ↦ finish b write_double c (codes "(null)") args (with_out s p)
                | some cs ↦
                    finish b write_double c [] args
                      (record (with_out s p) { out = put_string b write_double cs p })
              ])
      text_case none args = finish-Related c _ args s p r
      text_case (some cs) args =
          finish-Related c [] args (record s { out = put_string a write_double cs s.out })
            (put_string b write_double cs p) (put_string-R cs s.out p r)
  perform-Related nothing c s p r = finish-Related c [] s.args s p r

  convert-Related :
      (c : ℕ) (s : State O) (p : P)
      → R s.out p
      → Related (convert a write_double c s) (convert b write_double c (with_out s p))
  unfolding convert
  convert-Related c s p r = with_arg-Related (take_star s.min_width s.args) _ _ (λ x.
      with_arg-Related (take_star s.fmt_precision x.1) _ _ (λ y.
        perform-Related (kind_of c) c
          (record s { min_width = x.0; fmt_precision = y.0; args = y.1 }) p r))

  -- A test that both sides make.
  either :
      (t : Bool) (x y : Turn O) (x' y' : Turn P)
      → Related x x'
      → Related y y'
      → Related (if t then x else y) (if t then x' else y')
  either true x y x' y' h _ = h
  either false x y x' y' _ h = h

  at_length-Related :
      (c : ℕ) (s : State O) (p : P)
      → R s.out p
      → Related (at_length a write_double c s) (at_length b write_double c (with_out s p))
  unfolding at_length
  at_length-Related c s p r =
      either (length_bits c s.prev).1 _ _ _ _
        (convert-Related c (record s { mode = conversion; format_bits = (length_bits c s.prev).0 })
          p r)
        (p, r, refl)

  at_precision-Related :
      (c : ℕ) (s : State O) (p : P)
      → R s.out p
      → Related (at_precision a write_double c s) (at_precision b write_double c (with_out s p))
  unfolding at_precision
  at_precision-Related c s p r =
      either (not (is_negative s.fmt_precision) && is_digit c) _ _ _ _ (p, r, refl)
        (either (c == b'*') _ _ _ _ (p, r, refl)
          (at_length-Related c (record s { mode = length_modifier }) p r))

  at_point-Related :
      (c : ℕ) (s : State O) (p : P)
      → R s.out p
      → Related (at_point a write_double c s) (at_point b write_double c (with_out s p))
  unfolding at_point
  at_point-Related c s p r =
      either (c == b'.') _ _ _ _ (p, r, refl)
        (at_length-Related c (record s { mode = length_modifier }) p r)

  at_width-Related :
      (c : ℕ) (s : State O) (p : P)
      → R s.out p
      → Related (at_width a write_double c s) (at_width b write_double c (with_out s p))
  unfolding at_width
  at_width-Related c s p r =
      either (not (is_negative s.min_width) && is_digit c) _ _ _ _ (p, r, refl)
        (either (c == b'*') _ _ _ _ (p, r, refl)
          (at_point-Related c (record s { mode = point }) p r))

  at_flags-Related :
      (c : ℕ) (s : State O) (p : P)
      → R s.out p
      → Related (at_flags a write_double c s) (at_flags b write_double c (with_out s p))
  unfolding at_flags
  at_flags-Related c s p r = flag_case (flag_of c)
    where
      flag_case :
          (f : Option ℕ)
          → Related
              (elim f [
                | some f ↦ proceed (record s { format_flags = bit_or s.format_flags f })
                | none ↦ at_width a write_double c (record s { mode = width })
              ])
              (elim f [
                | some f ↦
                    proceed (record (with_out s p) { format_flags = bit_or s.format_flags f })
                | none ↦ at_width b write_double c (record (with_out s p) { mode = width })
              ])
      flag_case (some f) = (p, r, refl)
      flag_case none = at_width-Related c (record s { mode = width }) p r

  -- The two places that put one byte and then go on or stop.
  put-Related :
      (c : ℕ) (s : State O) (p : P) (after : State O → State O) (after' : State P → State P)
      → R s.out p
      → ((o : O) (q : P)
          → R o q
          → Related (proceed (after (record s { out = o }))) (proceed (after' (with_out s q))))
      → Related
          (if (a.put c s.out).1
            then proceed (after (record s { out = (a.put c s.out).0 }))
            else stop (record s { out = (a.put c s.out).0 }))
          (if (b.put c p).1
            then proceed (after' (with_out s (b.put c p).0))
            else stop (with_out s (b.put c p).0))
  put-Related c s p after after' r h =
      let (r', same) = puts c s.out p r in
      rw (← same) (
        either (a.put c s.out).1 _ _ _ _ (h (a.put c s.out).0 (b.put c p).0 r')
          ((b.put c p).0, r', refl))

  put_literal-Related :
      (c : ℕ) (s : State O) (p : P)
      → R s.out p
      → Related (put_literal a write_double c s) (put_literal b write_double c (with_out s p))
  unfolding put_literal remember
  put_literal-Related c s p r =
      put-Related c s p (remember c) (remember c) r (λ o q h. (q, h, refl))

  at_percent-Related :
      (s : State O) (p : P)
      → R s.out p
      → Related (at_percent a write_double s) (at_percent b write_double (with_out s p))
  unfolding at_percent remember reset
  at_percent-Related s p r =
      either (not (is_literal s.mode) || s.prev == b'\\') _ _ _ _
        (put-Related b'%' s p (λ t. remember b'%' (reset t)) (λ t. remember b'%' (reset t)) r
          (λ o q h. (q, h, refl)))
        (p, r, refl)

  in_conversion-Related :
      (m : Mode) (c : ℕ) (s : State O) (p : P)
      → R s.out p
      → Related
          (in_conversion a write_double m c s)
          (in_conversion b write_double m c (with_out s p))
  unfolding in_conversion
  in_conversion-Related literal c s p r = put_literal-Related c s p r
  in_conversion-Related flags c s p r = at_flags-Related c s p r
  in_conversion-Related width c s p r = at_width-Related c s p r
  in_conversion-Related point c s p r = at_point-Related c s p r
  in_conversion-Related precision c s p r = at_precision-Related c s p r
  in_conversion-Related length_modifier c s p r = at_length-Related c s p r
  in_conversion-Related conversion c s p r = convert-Related c s p r

  step-Related :
      (c : ℕ) (s : State O) (p : P)
      → R s.out p
      → Related (step a write_double c s) (step b write_double c (with_out s p))
  unfolding step
  step-Related c s p r =
      either (c == b'%') _ _ _ _ (at_percent-Related s p r) (in_conversion-Related s.mode c s p r)

  -- What two runs come to: both fault, or they end with related outputs and equal states else.
  abbrev pub RunRelated : Option (State O) → Option (State P) → Type 0
  RunRelated none t = t ≡ none
  RunRelated (some s) t = (p : P) × R s.out p × (t ≡ some (with_out s p))

  pub run-RunRelated :
      (str : List ℕ) (s : State O) (p : P)
      → R s.out p
      → RunRelated (run a write_double str s) (run b write_double str (with_out s p))
  unfolding run
  run-RunRelated [] s p r = (p, r, refl)
  run-RunRelated (c ∷ cs) s p r =
      after (step a write_double c s) (step b write_double c (with_out s p)) (step-Related c s p r)
        (run-RunRelated cs)
    where
      after :
          (t : Turn O) (t' : Turn P)
          → Related t t'
          → ((s' : State O) (q : P)
              → R s'.out q
              → RunRelated (run a write_double cs s') (run b write_double cs (with_out s' q)))
          → RunRelated
              (elim t [ proceed s' ↦ run a write_double cs s' | stop s' ↦ some s' | fault ↦ none ])
              (elim t' [ proceed s' ↦ run b write_double cs s' | stop s' ↦ some s' | fault ↦ none ])
      after (proceed s') t' (q, h, e) rest = rw e (rest s' q h)
      after (stop s') t' (q, h, e) rest = rw e (q, h, refl)
      after fault t' e rest = rw e refl
