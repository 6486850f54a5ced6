-- ===== src/Threads/Lock.antt =====
-- ppc/threading_ppc.c, TW_LockMutex and TW_UnlockMutex: threads that share one mutex, in any interleaving of
-- their atomic instructions.
use libtwilight.Prelude.{
  ℕ, ◌≡◌, ◌≢◌, ◌⊎◌, inl, inr, refl, ap, sym, ◌∙◌, arith, ◌==◌, if◌then◌else◌, Bool-cases, eq→==,
  ne→==,
}
use libtwilight.Threads.{
  Phase, away, trying, inside, Mutex, get_and_set, set_phase, try_lock, unlock,
}

-- A thread starts to lock the mutex, goes round the loop, or gives the mutex back; only the thread that holds
-- the mutex unlocks it.
pub data Step : Mutex → Mutex → Type 0 where
  locks : (m : Mutex) (t : ℕ) → m.phase t ≡ away → Step m (try_lock m t)
  retries : (m : Mutex) (t : ℕ) → m.phase t ≡ trying → Step m (try_lock m t)
  unlocks : (m : Mutex) (t : ℕ) → m.phase t ≡ inside → Step m (unlock m t)

-- A mutex as `TW_CreateMutex` gives it, which no thread uses.
abbrev pub created : Mutex
created = record { word = 0; phase = (λ t. away) }

pub data Reached : Mutex → Type 0 where
  at_start : Reached created
  behind : {m m' : Mutex} → Reached m → Step m m' → Reached m'

-- The word is 0 when nobody is inside; otherwise it is 1 and exactly one thread is inside.
abbrev pub IsExclusive : Mutex → Type 0
IsExclusive m =
    ((m.word ≡ 0) × ((t : ℕ) → m.phase t ≢ inside))
    ⊎ ((m.word ≡ 1) × ((t : ℕ) × (m.phase t ≡ inside) × ((i : ℕ) → m.phase i ≡ inside → i ≡ t)))

set_phase_self : (phase : ℕ → Phase) (t : ℕ) (p : Phase) → set_phase phase t p t ≡ p
set_phase_self phase t p = ap (λ b. if b then p else phase t) (eq→== t t refl)

set_phase_ne : (phase : ℕ → Phase) (t i : ℕ) (p : Phase) → i ≢ t → set_phase phase t p i ≡ phase i
set_phase_ne phase t i p h = ap (λ b. if b then p else phase i) (ne→== i t h)

-- A thread that was set to another phase than `inside` is not inside.
other_inside :
    (phase : ℕ → Phase) (t i : ℕ) (p : Phase)
    → p ≢ inside
    → set_phase phase t p i ≡ inside
    → (i ≢ t) × (phase i ≡ inside)
other_inside phase t i p out h = elim (Bool-cases (i == t)) [
  | inl e ↦
      let here : set_phase phase t p i ≡ p = ap (λ b. if b then p else phase i) e in
      absurd (out (sym here ∙ h))
  | inr e ↦ let other : i ≢ t = ground arith in (other, sym (set_phase_ne phase t i p other) ∙ h)
]

never_both : trying ≢ inside
never_both e = absurd (cc)

never_away : away ≢ inside
never_away e = absurd (cc)

only_one :
    (m : Mutex) (t : ℕ) (p : Phase)
    → ((i : ℕ) → m.phase i ≢ inside)
    → (i : ℕ) → set_phase m.phase t p i ≡ inside
    → i ≡ t
only_one m t p nobody i h = elim (Bool-cases (i == t)) [
  | inl e ↦ ground arith
  | inr e ↦
      let other : i ≢ t = ground arith in
      absurd (nobody i (sym (set_phase_ne m.phase t i p other) ∙ h))
]

enters : (m : Mutex) (t : ℕ) → m.word ≡ 0 → (try_lock m t).phase t ≡ inside
unfolding try_lock get_and_set
enters m t free =
    set_phase_self m.phase t (if m.word == 0 then inside else trying)
    ∙ ap (λ b. if b then inside else trying) (eq→== m.word 0 free)

try_lock-IsExclusive :
    (m : Mutex) (t : ℕ) → m.phase t ≢ inside → IsExclusive m → IsExclusive (try_lock m t)
unfolding try_lock get_and_set
try_lock-IsExclusive m t out (inl (free, nobody)) =
    let p : Phase = if m.word == 0 then inside else trying in
    let enters : p ≡ inside = ap (λ b. if b then inside else trying) (eq→== m.word 0 free) in
    inr (refl, (t, set_phase_self m.phase t p ∙ enters, λ i h. only_one m t p nobody i h))
try_lock-IsExclusive m t out (inr (used, (o, holds, only))) =
    let p : Phase = if m.word == 0 then inside else trying in
    let waits : p ≡ trying =
      ap (λ b. if b then inside else trying) (ne→== m.word 0 (omega (arith, used))) in
    let other : o ≢ t = λ e. out (ap m.phase (sym e) ∙ holds) in
    inr (
      refl,
      (
        o,
        set_phase_ne m.phase t o p other ∙ holds,
        λ i h. only i (other_inside m.phase t i p (λ e. never_both (sym waits ∙ e)) h).1,
      ),
    )

unlock-IsExclusive :
    (m : Mutex) (t : ℕ) → m.phase t ≡ inside → IsExclusive m → IsExclusive (unlock m t)
unfolding unlock get_and_set
unlock-IsExclusive m t holds (inl (free, nobody)) = absurd (nobody t holds)
unlock-IsExclusive m t holds (inr (used, (o, holder, only))) = inl (
  refl,
  λ i h.
      let (other, still) = other_inside m.phase t i away (λ e. absurd (cc)) h in
      other (only i still ∙ sym (only t holds)),
)

Reached-IsExclusive : (m : Mutex) → Reached m → IsExclusive m
Reached-IsExclusive _ at_start = inl (refl, λ t e. absurd (cc))
Reached-IsExclusive _ (behind r (locks m t h)) =
    try_lock-IsExclusive m t (λ e. never_away (sym h ∙ e)) (Reached-IsExclusive m r)
Reached-IsExclusive _ (behind r (retries m t h)) =
    try_lock-IsExclusive m t (λ e. never_both (sym h ∙ e)) (Reached-IsExclusive m r)
Reached-IsExclusive _ (behind r (unlocks m t h)) =
    unlock-IsExclusive m t h (Reached-IsExclusive m r)

-- Mutual exclusion: however any number of threads interleave their atomic instructions on a new mutex, at
-- most one of them is between the return of `TW_LockMutex` and its `TW_UnlockMutex`. And no deadlock: when no
-- thread is there, the next try of any thread succeeds. Only a thread that holds the mutex may unlock it.
pub Reached-exclusive :
    (m : Mutex)
    → Reached m
    → ((i j : ℕ) → m.phase i ≡ inside → m.phase j ≡ inside → i ≡ j)
      × (((i : ℕ) → m.phase i ≢ inside) → (t : ℕ) → (try_lock m t).phase t ≡ inside)
Reached-exclusive m r = elim (Reached-IsExclusive m r) [
  | inl (free, nobody) ↦ (λ i j h k. absurd (nobody i h), λ none_in t. enters m t free)
  | inr (used, (o, holds, only)) ↦
      (λ i j h k. only i h ∙ sym (only j k), λ none_in t. absurd (none_in o holds))
]
