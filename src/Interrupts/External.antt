-- ===== src/Interrupts/External.antt =====
-- ppc/interrupts.c, _tw_dispatch_external_interrupt: the handlers set, and the interrupts that reach them.
use mathlib.Core.Path.{subst}
use libtwilight.Prelude.{
  ℕ, zero, suc, ◌-◌, ◌/◌, ◌^◌, ◌<◌, ◌≡◌, ◌≢◌, inl, inr, refl, ap, sym, ◌∙◌, arith, bit_and, bit_or,
  true, ◌||◌, List, [], ◌∷◌, none, some, ◌==◌, if◌then◌else◌, Bool-cases, eq→==, ne→==,
}
use libtwilight.Prelude.Bits.{
  bit_at, bit_at-bit_or, bit_at-bit_and, bit_at-lt, bit_and_mask, bit_and-lt, eq_of_bits,
  one_le_two_pow,
}
use native.Mathlib.Nat.{pow-suc}
use libtwilight.Interrupts.{
  Interrupts, external_order, wii_order, mem, first_active, invoked, dispatch_active, active_of,
  dispatch_external, dispatch_interrupt, set_wii_handler, set_plain_handler,
  set_external_interrupt_handler,
}

ones : (w i : ℕ) → i < w → bit_at i (2 ^ w - 1) ≡ 1
ones zero i h = absurd (omega arith)
ones (suc w) zero h = omega (arith, pow-suc 2 w, one_le_two_pow w)
ones (suc w) (suc i) h =
    let half : (2 ^ suc w - 1) / 2 ≡ 2 ^ w - 1 = omega (arith, pow-suc 2 w, one_le_two_pow w) in
    ap (bit_at i) half ∙ ones w i (omega arith)

-- A cause whose bits the mask was given is active.
masked : (x mask : ℕ) → x < 2 ^ 15 → bit_and (bit_and x 0x7fff) (bit_and (bit_or x mask) 0x7fff) ≡ x
masked x mask small =
    let y = bit_and (bit_and x 0x7fff) (bit_and (bit_or x mask) 0x7fff) in
    let low : bit_and x 0x7fff < 2 ^ 15 = omega (arith, bit_and_mask 15 x) in
    eq_of_bits 15 y x (bit_and-lt 15 (bit_and x 0x7fff) (bit_and (bit_or x mask) 0x7fff) low) small
      (λ i h. omega (
        arith,
        bit_at-bit_and i (bit_and x 0x7fff) (bit_and (bit_or x mask) 0x7fff),
        bit_at-bit_and i x 0x7fff,
        bit_at-bit_and i (bit_or x mask) 0x7fff,
        bit_at-bit_or i x mask,
        ones 15 i h,
        bit_at-lt i x,
        bit_at-lt i mask,
      ))

abbrev All : (ℕ → Type 0) → List ℕ → Type 0
All P [] = Unit
All P (x ∷ xs) = P x × All P xs

mem-All : (P : ℕ → Type 0) (x : ℕ) (xs : List ℕ) → All P xs → mem x xs ≡ true → P x
mem-All P x [] all h = absurd (cc)
mem-All P x (y ∷ ys) all h = elim (Bool-cases (x == y)) [
  | inl e ↦ let same : y ≡ x = ground arith in subst P same all.0
  | inr e ↦ mem-All P x ys all.1 (sym (ap (λ b. b || mem x ys) e) ∙ h)
]

-- A bit that is set alone is the one that is found.
abbrev IsFoundAlone : ℕ → Type 0
IsFoundAlone bit = (2 ^ bit < 2 ^ 15) × (first_active (2 ^ bit) 0 external_order ≡ some bit)

found_alone : All IsFoundAlone external_order
unfolding first_active
found_alone = (
  (omega arith, refl),
  (
    (omega arith, refl),
    (
      (omega arith, refl),
      (
        (omega arith, refl),
        (
          (omega arith, refl),
          (
            (omega arith, refl),
            (
              (omega arith, refl),
              (
                (omega arith, refl),
                (
                  (omega arith, refl),
                  (
                    (omega arith, refl),
                    (
                      (omega arith, refl),
                      ((omega arith, refl), ((omega arith, refl), ((omega arith, refl), tt))),
                    ),
                  ),
                ),
              ),
            ),
          ),
        ),
      ),
    ),
  ),
)

-- The registers say that one interrupt is there, and no other.
abbrev pub raised : Interrupts → ℕ → Interrupts
raised s bit = record s { cause = 2 ^ bit }

-- A handler that `TW_SetExternalInterruptHandler` was given for one of the 14 interrupts that all consoles
-- have is the one that an external interrupt calls when that interrupt alone has been raised, whatever the
-- mask and the other handlers were before. The handler must not be the null pointer.
pub dispatch_interrupt-set_external :
    (shifted : ℕ → ℕ) (s : Interrupts) (bit handler : ℕ)
    → mem bit external_order ≡ true
    → handler ≢ 0
    → dispatch_interrupt (raised (set_external_interrupt_handler shifted s bit handler) bit) 5
      ≡ some handler
unfolding dispatch_interrupt dispatch_external dispatch_active active_of set_plain_handler
    set_external_interrupt_handler
dispatch_interrupt-set_external shifted s bit handler known some_handler =
    let (small, alone) = mem-All IsFoundAlone bit external_order found_alone known in
    let plain = set_plain_handler s bit handler in
    let here = raised plain bit in
    let set_here =
      ap
        (λ b. dispatch_external (
          raised
            (if b
              then plain
              else if mem bit wii_order
              then set_wii_handler shifted s bit handler
              else s)
            bit))
        known in
    let active : active_of here ≡ 2 ^ bit = masked (2 ^ bit) s.mask small in
    set_here
    ∙ ap (λ a. dispatch_active here a (first_active a 0 external_order)) active
    ∙ ap (λ o. dispatch_active here (2 ^ bit) o) alone
    ∙ ap (λ b. invoked (if b then handler else s.external_handlers bit)) (eq→== bit bit refl)
    ∙ ap (λ b. if b then none else some handler) (ne→== handler 0 some_handler)
