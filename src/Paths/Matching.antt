-- ===== src/Paths/Matching.antt =====
-- Which paths match, and which of them are written.
use libtwilight.Prelude.{
  ℕ, suc, ◌+◌, ◌≤◌, ◌≡◌, refl, sym, ap, ap₂, ◌∙◌, ◌⊎◌, inl, inr, Bool, true, false, ◌&&◌, ◌||◌,
  List, [], ◌∷◌, ◌++◌, ltb, ◌==◌, if◌then◌else◌, length, get_or, arith, length-append, eq→==, ne→==,
  lt→ltb, append-nil, Bool-cases,
}
use native.Mathlib.Decide.{ℕ_discrete}
use libtwilight.Prelude.Int.{ℤ}
use libtwilight.Paths.{start_matches, ends_with_slash, is_matching, is_zero, write_matching_paths}

-- `p` is the path, or lies below it: what follows the path starts with a slash unless the path ends with one.
abbrev pub IsAt : List ℕ → List ℕ → Type 0
IsAt path p =
    (rest : List ℕ) × (p ≡ path ++ rest)
    × ((rest ≡ []) ⊎ (ends_with_slash path ≡ true) ⊎ ((get_or rest 0 0 == b'/') ≡ true))

start_matches-append : (path rest : List ℕ) → start_matches (path ++ rest) path ≡ true
unfolding start_matches
start_matches-append [] [] = refl
start_matches-append [] (r ∷ rest) = refl
start_matches-append (c ∷ path) rest = rw (eq→== c c refl) (start_matches-append path rest)

-- A path that is at least as long as `path` and agrees with it where both have bytes extends it.
start_matches-split :
    (path p : List ℕ)
    → start_matches p path ≡ true
    → length path ≤ length p
    → (rest : List ℕ) × (p ≡ path ++ rest)
unfolding start_matches
start_matches-split [] p h le = (p, refl)
start_matches-split (d ∷ ds) [] h le = absurd (omega arith)
start_matches-split (d ∷ ds) (c ∷ cs) h le = elim (ℕ_discrete c d) [
  | yes e ↦
      extend
        (start_matches-split ds cs
          (sym (ap (λ (b : Bool). if b then start_matches cs ds else false) (eq→== c d e)) ∙ h)
          (omega arith))
        e
  | no ne ↦
      absurd (differ (ap (λ (b : Bool). if b then start_matches cs ds else false) (ne→== c d ne)) h)
]
  where
    extend :
        (rest : List ℕ) × (cs ≡ ds ++ rest) → c ≡ d → (rest : List ℕ) × (c ∷ cs ≡ d ∷ (ds ++ rest))
    extend (rest, e) same = (rest, ap₂ (λ (x : ℕ) (xs : List ℕ). x ∷ xs) same e)

    differ : {b : Bool} → b ≡ false → b ≡ true → ⊥
    differ e e' = cc

get_or-append : (path rest : List ℕ) → get_or (path ++ rest) (length path) 0 ≡ get_or rest 0 0
get_or-append [] rest = refl
get_or-append (c ∷ path) rest = get_or-append path rest

both_true : (a b : Bool) → (a && b) ≡ true → (a ≡ true) × (b ≡ true)
both_true true b h = (refl, h)
both_true false b h = absurd cc

one_true : (a b : Bool) → (a || b) ≡ true → (a ≡ true) ⊎ (b ≡ true)
one_true true b h = inl refl
one_true false b h = inr h

is_matching_sound : (path p : List ℕ) → is_matching path p ≡ true → IsAt path p
unfolding is_matching
is_matching_sound path p h =
    let (starts, tail) = both_true (start_matches p path) _ h in
    elim (one_true (length p == length path) _ tail) [
      | inl same ↦ whole (start_matches-split path p starts (ground arith)) (ground arith)
      | inr below ↦
          let (longer, follows) = both_true (ltb (length path) (length p)) _ below in
          under (start_matches-split path p starts (ground arith))
            (one_true (ends_with_slash path) _ follows)
    ]
  where
    empty : (rest : List ℕ) → length rest ≡ 0 → rest ≡ []
    empty [] e = refl
    empty (r ∷ rest) e = absurd (omega arith)

    whole : (rest : List ℕ) × (p ≡ path ++ rest) → length p ≡ length path → IsAt path p
    whole (rest, e) same =
        (rest, e, inl (empty rest (omega (arith, ap length e, length-append path rest))))

    under :
        (rest : List ℕ) × (p ≡ path ++ rest)
        → (ends_with_slash path ≡ true) ⊎ ((get_or p (length path) 0 == b'/') ≡ true)
        → IsAt path p
    under (rest, e) (inl slash) = (rest, e, inr (inl slash))
    under (rest, e) (inr next) = (
      rest,
      e,
      inr (
          inr (
            sym (
              ap (λ (n : ℕ). n == b'/')
                (ap (λ (l : List ℕ). get_or l (length path) 0) e ∙ get_or-append path rest))
            ∙ next)),
    )

or_true : (b : Bool) → (b || true) ≡ true
or_true true = refl
or_true false = refl

or_or_true : (b s : Bool) → (b || (s || true)) ≡ true
or_or_true true s = refl
or_or_true false s = or_true s

length_longer :
    (path : List ℕ) (r : ℕ) (rest : List ℕ) → ltb (length path) (length (path ++ (r ∷ rest))) ≡ true
length_longer path r rest =
    lt→ltb (length path) (length (path ++ (r ∷ rest)))
      (omega (arith, length-append path (r ∷ rest)))

is_matching_complete : (path p : List ℕ) → IsAt path p → is_matching path p ≡ true
is_matching_complete path p (rest, e, follows) = ap (is_matching path) e ∙ matching rest follows
  where
    matching :
        (rest : List ℕ)
        → (rest ≡ []) ⊎ (ends_with_slash path ≡ true) ⊎ ((get_or rest 0 0 == b'/') ≡ true)
        → is_matching path (path ++ rest) ≡ true
    matching [] _ =
        unfold is_matching in
        rw (start_matches-append path [], append-nil path, eq→== (length path) (length path) refl)
          refl
    matching (r ∷ rest) (inl nothing) = absurd (omega (arith, ap length nothing))
    matching (r ∷ rest) (inr (inl slash)) =
        unfold is_matching in
        rw (start_matches-append path (r ∷ rest), length_longer path r rest, slash)
          (or_true (length (path ++ (r ∷ rest)) == length path))
    matching (r ∷ rest) (inr (inr next)) =
        unfold is_matching in
        rw
          (
            start_matches-append path (r ∷ rest),
            length_longer path r rest,
            get_or-append path (r ∷ rest),
            next,
          )
          (or_or_true (length (path ++ (r ∷ rest)) == length path) (ends_with_slash path))

-- TW_WriteMatchingPaths lets through exactly the path itself and the paths below it: those that continue it
-- with a slash or, if it ends with one, in any way.
pub is_matching-IsAt :
    (path p : List ℕ)
    → (is_matching path p ≡ true → IsAt path p) × (IsAt path p → is_matching path p ≡ true)
is_matching-IsAt path p = (is_matching_sound path p, is_matching_complete path p)

-- The specification of what is written: the matching paths in order.
abbrev pub matching : List ℕ → List (List ℕ) → List (List ℕ)
matching path [] = []
matching path (p ∷ ps) = if is_matching path p then p ∷ matching path ps else matching path ps

-- The stream behind the transfers of some paths.
abbrev pub transfer_all {ℓ} : {S : Type ℓ} → (S → List ℕ → S × ℤ) → List (List ℕ) → S → S
transfer_all transfer [] s = s
transfer_all transfer (p ∷ ps) s = transfer_all transfer ps (transfer s p).0

-- The first paths of a list, up to the first one whose transfer has the result 0, that one included.
abbrev pub up_to_zero {ℓ} : {S : Type ℓ} → (S → List ℕ → S × ℤ) → List (List ℕ) → S → List (List ℕ)
up_to_zero transfer [] s = []
up_to_zero transfer (p ∷ ps) s =
    p ∷ (if is_zero (transfer s p).1 then [] else up_to_zero transfer ps (transfer s p).0)

write_matching_paths-from {ℓ} :
    {S : Type ℓ} (transfer : S → List ℕ → S × ℤ) (path : List ℕ) (ps : List (List ℕ)) (n : ℕ)
    (s : S)
    → let sent = up_to_zero transfer (matching path ps) s in
      write_matching_paths transfer path ps n s ≡ (n + length sent, transfer_all transfer sent s)
unfolding write_matching_paths
write_matching_paths-from transfer path [] n s = ap (λ (k : ℕ). (k, s)) (omega arith)
write_matching_paths-from transfer path (p ∷ ps) n s = elim (Bool-cases (is_matching path p)) [
  | inl e ↦ rw e (elim (Bool-cases (is_zero (transfer s p).1)) [
    | inl z ↦ rw z (ap (λ (k : ℕ). (k, (transfer s p).0)) (omega arith))
    | inr z ↦
        let after = (transfer s p).0 in
        let sent = up_to_zero transfer (matching path ps) after in
        rw z (
          write_matching_paths-from transfer path ps (suc n) after
          ∙ ap (λ (k : ℕ). (k, transfer_all transfer sent after)) (omega arith))
  ])
  | inr e ↦ rw e (write_matching_paths-from transfer path ps n s)
]

-- TW_WriteMatchingPaths transfers the matching paths in order, up to the first one whose transfer has the
-- result 0, that one included, and returns how many transfers it made; the stream is as these left it. A
-- negative result does not end it.
pub write_matching_paths-up_to_zero {ℓ} :
    {S : Type ℓ} (transfer : S → List ℕ → S × ℤ) (path : List ℕ) (ps : List (List ℕ)) (s : S)
    → let sent = up_to_zero transfer (matching path ps) s in
      write_matching_paths transfer path ps 0 s ≡ (length sent, transfer_all transfer sent s)
write_matching_paths-up_to_zero transfer path ps s =
    let sent = up_to_zero transfer (matching path ps) s in
    write_matching_paths-from transfer path ps 0 s
    ∙ ap (λ (k : ℕ). (k, transfer_all transfer sent s)) (omega arith)
