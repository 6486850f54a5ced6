-- ===== src/Threads/Start.antt =====
-- ppc/threading_ppc.c, TW_StartThread: the thread that is started.
use mathlib.Core.Path.{subst}
use libtwilight.Prelude.{
  ℕ, zero, suc, ◌+◌, ◌%◌, ◌<◌, ◌≡◌, ◌≢◌, ◌⊎◌, inl, inr, refl, ap, sym, ◌∙◌, arith, bit_and, bit_or,
  true, false, not, List, [], ◌∷◌, none, some, length, get_elem?, drop, if◌then◌else◌, Bool-cases,
  get_elem?-set_self, get_elem?-set_ne, ne→==, eq→==,
}
use libtwilight.Prelude.Bits.{bit_and_mask, bit_at-bit_or}
use libtwilight.Threads.{
  Thread, Table, Context, is_active, find_thread, start_found, or_allocated, start_thread,
}

-- Threads 1, 2, ... before `i` are active, and `i` is not.
abbrev pub IsFirst : List Thread → ℕ → Thread → Type 0
IsFirst ts i t =
    (get_elem? ts i ≡ some t)
    × (is_active t ≡ false)
    × ((j : ℕ) (u : Thread) → j < i → get_elem? ts j ≡ some u → is_active u ≡ true)

all_active :
    (t : Thread) (ts : List Thread)
    → is_active t ≡ true
    → ((j : ℕ) (u : Thread) → get_elem? ts j ≡ some u → is_active u ≡ true)
    → (j : ℕ) (u : Thread) → get_elem? (t ∷ ts) j ≡ some u
    → is_active u ≡ true
all_active t ts e others zero u h = let same : t ≡ u = cc in subst (λ v. is_active v ≡ true) same e
all_active t ts e others (suc j) u h = others j u h

active_before :
    (t : Thread) (ts : List Thread) (i : ℕ)
    → is_active t ≡ true
    → ((j : ℕ) (u : Thread) → j < i → get_elem? ts j ≡ some u → is_active u ≡ true)
    → (j : ℕ) (u : Thread) → j < suc i
    → get_elem? (t ∷ ts) j ≡ some u
    → is_active u ≡ true
active_before t ts i e before zero u l h =
    let same : t ≡ u = cc in subst (λ v. is_active v ≡ true) same e
active_before t ts i e before (suc j) u l h = before j u (omega arith) h

find_thread-cases :
    (ts : List Thread) (i : ℕ)
    → ((find_thread ts i ≡ none)
        × ((j : ℕ) (u : Thread) → get_elem? ts j ≡ some u → is_active u ≡ true))
      ⊎ ((j : ℕ) × (t : Thread) × (find_thread ts i ≡ some (i + j, t)) × IsFirst ts j t)
unfolding find_thread
find_thread-cases [] i = inl (refl, λ j u h. absurd (cc))
find_thread-cases (t ∷ ts) i = elim (Bool-cases (is_active t)) [
  | inl e ↦
      let step = ap (λ b. if b then find_thread ts (suc i) else some (i, t)) e in
      elim (find_thread-cases ts (suc i)) [
        | inl (f, others) ↦ inl (step ∙ f, all_active t ts e others)
        | inr (j, u, f, (there, idle, before)) ↦ inr (
          suc j,
          u,
          step ∙ f ∙ ap (λ n. some (n, u)) (omega arith),
          (there, idle, active_before t ts j e before),
        )
      ]
  | inr e ↦ inr (
    0,
    t,
    ap (λ b. if b then find_thread ts (suc i) else some (i, t)) e
        ∙ ap (λ n. some (n, t)) (omega arith),
    (refl, e, λ k v l h. absurd (omega arith)),
  )
]

index_lt : (ts : List Thread) (i : ℕ) (t : Thread) → get_elem? ts i ≡ some t → i < length ts
index_lt [] i t h = absurd (cc)
index_lt (u ∷ ts) zero t h = omega arith
index_lt (u ∷ ts) (suc i) t h = omega (arith, index_lt ts i t h)

is_active-eq : (t : Thread) → t.flags % 2 ≡ 1 → is_active t ≡ true
unfolding is_active
is_active-eq t h =
    ap not (ne→== (bit_and t.flags 1) 0 (λ e. omega (arith, bit_and_mask 1 t.flags, e)))

started_flags : (flags : ℕ) → bit_or (bit_or flags 1) 2 % 2 ≡ 1
started_flags flags = omega (arith, bit_at-bit_or 0 (bit_or flags 1) 2, bit_at-bit_or 0 flags 1)

-- What `TW_StartThread` leaves when it starts the thread `i`.
abbrev pub IsStarted : Table → Table → (i user_data entry_point : ℕ) → Type 0
IsStarted s s' i user_data entry_point =
    (t : Thread) × (get_elem? s'.threads i ≡ some t)
    × (is_active t ≡ true)
    × (t.id ≡ i)
    × ((s'.contexts t.registers).argument ≡ user_data)
    × ((s'.contexts t.registers).pc ≡ entry_point)
    × (i < s'.thread_count)
    × ((j : ℕ) → i ≢ j → get_elem? s'.threads j ≡ get_elem? s.threads j)

start_found-IsStarted :
    (s : Table) (user_data entry_point toc end_thread new_stack new_registers i : ℕ) (t : Thread)
    → i < length s.threads
    → let r =
        start_found s user_data entry_point toc end_thread new_stack new_registers (some (i, t)) in
      (r.0 ≡ true) × IsStarted s r.1 i user_data entry_point
unfolding start_found
start_found-IsStarted s user_data entry_point toc end_thread new_stack new_registers i t small =
    let registers = or_allocated t.registers new_registers in
    let context : Context = record {
      stack = or_allocated t.stack_start new_stack;
      toc = toc;
      argument = user_data;
      small_data = toc;
      pc = entry_point;
      lr = end_thread;
    } in
    let stored =
      ap (λ b. if b then context else s.contexts registers) (eq→== registers registers refl) in
    (
      refl,
      (
        _,
        get_elem?-set_self s.threads i _ small,
        is_active-eq _ (started_flags t.flags),
        refl,
        ap (λ c. c.argument) stored,
        ap (λ c. c.pc) stored,
        ground arith,
        λ j h. get_elem?-set_ne s.threads _ h,
      ),
    )

-- `TW_StartThread` on a table with a main thread: when threads 1, 2, ... are all active it returns 0 and
-- changes nothing; otherwise it returns 1, and the first thread that was not active is active, has a context
-- that starts at the entry point with the user data as its argument, and is counted, while all other threads
-- are as they were.
pub start_thread-starts :
    (s : Table) (main : Thread) (ts : List Thread)
    (user_data entry_point toc end_thread new_stack new_registers : ℕ)
    → s.threads ≡ main ∷ ts
    → let r = start_thread s user_data entry_point toc end_thread new_stack new_registers in
      ((r ≡ (false, s)) × ((j : ℕ) (u : Thread) → get_elem? ts j ≡ some u → is_active u ≡ true))
      ⊎ ((i : ℕ) × (t : Thread) × IsFirst ts i t
          × (r.0 ≡ true)
          × IsStarted s r.1 (suc i) user_data entry_point)
unfolding start_thread
start_thread-starts s main ts user_data entry_point toc end_thread new_stack new_registers h =
    let start = start_found s user_data entry_point toc end_thread new_stack new_registers in
    let rest : find_thread (drop 1 s.threads) 1 ≡ find_thread ts 1 =
      ap (λ l. find_thread (drop 1 l) 1) h in
    elim (find_thread-cases ts 1) [
      | inl (f, others) ↦ inl (ap start (rest ∙ f), others)
      | inr (i, t, f, first) ↦
          let found : find_thread (drop 1 s.threads) 1 ≡ some (suc i, t) =
            rest ∙ f ∙ ap (λ n. some (n, t)) (omega arith) in
          let small : suc i < length s.threads =
            omega (arith, ap length h, index_lt ts i t first.0) in
          let (ok, started) =
            subst
              (λ o. ((start o).0 ≡ true) × IsStarted s (start o).1 (suc i) user_data entry_point)
              (sym found)
              (start_found-IsStarted s user_data entry_point toc end_thread new_stack new_registers
                (suc i) t small) in
          inr (i, t, first, ok, started)
    ]
