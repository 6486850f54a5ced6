-- ===== src/Serial/Ports.antt =====
-- ppc/serial.c, TW_SetupSerialDevices: the ports that are enabled.
use mathlib.Core.Path.{subst}
use libtwilight.Prelude.{
  ℕ, zero, suc, ◌+◌, ◌-◌, ◌*◌, ◌^◌, ◌<◌, ◌≤◌, ◌≡◌, ◌≢◌, inl, inr, refl, ap, sym, ◌∙◌, arith,
  bit_and, bit_or, Bool, false, ◌==◌, if◌then◌else◌, Bool-cases, eq→==, ne→==,
}
use libtwilight.Prelude.Bits.{bit_at, bit_at-bit_or, bit_at-pow_self, bit_at-pow_ne, bit_at-zero}
use libtwilight.Integer.{flag, one_if}
use libtwilight.Serial.{Registers, poke, poll_command, enable_of, setup_loop, setup_serial_devices}

bit_at-enable_of : (p i : ℕ) → p < 4 → i < 4 → p ≢ i → bit_at (31 - 8 * p) (enable_of i) ≡ 0
bit_at-enable_of p i h k ne = bit_at-pow_ne (31 - 8 * p) (31 - 8 * i) (λ e. ne (omega arith))

-- The ports that the loop does not come to.
setup_loop-other :
    (mask n i : ℕ) (s : Registers) (enable p : ℕ)
    → p < 4
    → i + n ≤ 4
    → p < i
    → ((setup_loop mask n i s enable).0 (0xc * p) ≡ s (0xc * p))
      × (bit_at (31 - 8 * p) (setup_loop mask n i s enable).1 ≡ bit_at (31 - 8 * p) enable)
unfolding setup_loop
setup_loop-other mask zero i s enable p h k away = (refl, refl)
setup_loop-other mask (suc n) i s enable p h k away = elim (Bool-cases (flag mask (2 ^ i))) [
  | inl b ↦
      let (words, bits) =
        setup_loop-other mask n (suc i) (poke (0xc * i) poll_command s)
          (bit_or enable (enable_of i)) p h (omega arith) (omega arith) in
      let elsewhere : (0xc * p == 0xc * i) ≡ false =
        ne→== (0xc * p) (0xc * i) (λ e. absurd (omega arith)) in
      rw b (
        words ∙ rw elsewhere refl,
        bits
            ∙ bit_at-bit_or (31 - 8 * p) enable (enable_of i)
            ∙ omega (arith, bit_at-enable_of p i h (omega arith) (λ e. absurd (omega arith))),
      )
  | inr b ↦ rw b (setup_loop-other mask n (suc i) s enable p h (omega arith) (omega arith))
]

-- The port of the round.
setup_loop-now :
    (mask n i : ℕ) (s : Registers) (enable : ℕ)
    → i + suc n ≤ 4
    → bit_at (31 - 8 * i) enable ≡ 0
    → ((setup_loop mask (suc n) i s enable).0 (0xc * i)
        ≡ (if flag mask (2 ^ i) then poll_command else s (0xc * i)))
      × (bit_at (31 - 8 * i) (setup_loop mask (suc n) i s enable).1 ≡ one_if (flag mask (2 ^ i)))
unfolding setup_loop
setup_loop-now mask n i s enable k clear = elim (Bool-cases (flag mask (2 ^ i))) [
  | inl b ↦
      let (words, bits) =
        setup_loop-other mask n (suc i) (poke (0xc * i) poll_command s)
          (bit_or enable (enable_of i)) i (omega arith) (omega arith) (omega arith) in
      rw b (
        words ∙ rw (eq→== (0xc * i) (0xc * i) refl) refl,
        bits
            ∙ bit_at-bit_or (31 - 8 * i) enable (enable_of i)
            ∙ omega (arith, bit_at-pow_self (31 - 8 * i), clear),
      )
  | inr b ↦
      let (words, bits) =
        setup_loop-other mask n (suc i) s enable i (omega arith) (omega arith) (omega arith) in
      rw b (words, bits ∙ clear)
]

setup_loop-now_at :
    (mask n i p : ℕ) (s : Registers) (enable : ℕ)
    → i + suc n ≤ 4
    → i ≡ p
    → bit_at (31 - 8 * p) enable ≡ 0
    → ((setup_loop mask (suc n) i s enable).0 (0xc * p)
        ≡ (if flag mask (2 ^ p) then poll_command else s (0xc * p)))
      × (bit_at (31 - 8 * p) (setup_loop mask (suc n) i s enable).1 ≡ one_if (flag mask (2 ^ p)))
setup_loop-now_at mask n i p s enable k e =
    subst
      (λ (q : ℕ).
        bit_at (31 - 8 * q) enable ≡ 0
        → ((setup_loop mask (suc n) i s enable).0 (0xc * q)
            ≡ (if flag mask (2 ^ q) then poll_command else s (0xc * q)))
          × (bit_at (31 - 8 * q) (setup_loop mask (suc n) i s enable).1
              ≡ one_if (flag mask (2 ^ q))))
      e (setup_loop-now mask n i s enable k)

setup_loop-port :
    (mask n i : ℕ) (s : Registers) (enable p : ℕ)
    → p < 4
    → i + n ≤ 4
    → i ≤ p
    → p < i + n
    → bit_at (31 - 8 * p) enable ≡ 0
    → ((setup_loop mask n i s enable).0 (0xc * p)
        ≡ (if flag mask (2 ^ p) then poll_command else s (0xc * p)))
      × (bit_at (31 - 8 * p) (setup_loop mask n i s enable).1 ≡ one_if (flag mask (2 ^ p)))
unfolding setup_loop
setup_loop-port mask zero i s enable p h k low high clear = absurd (omega arith)
setup_loop-port mask (suc n) i s enable p h k low high clear = elim (Bool-cases (p == i)) [
  | inl now ↦ let same : i ≡ p = ground arith in setup_loop-now_at mask n i p s enable k same clear
  | inr later ↦
      let next : suc i ≤ p = ground arith in
      let elsewhere : (0xc * p == 0xc * i) ≡ false =
        ne→== (0xc * p) (0xc * i) (λ e. absurd (omega arith)) in
      let still : bit_at (31 - 8 * p) (bit_or enable (enable_of i)) ≡ 0 =
        bit_at-bit_or (31 - 8 * p) enable (enable_of i)
        ∙ omega (arith, clear, bit_at-enable_of p i h (omega arith) (λ e. absurd (omega arith))) in
      elim (Bool-cases (flag mask (2 ^ i))) [
        | inl b ↦
            let (words, bits) =
              setup_loop-port mask n (suc i) (poke (0xc * i) poll_command s)
                (bit_or enable (enable_of i)) p h (omega arith) next (omega arith) still in
            rw b (words ∙ rw elsewhere refl, bits)
        | inr b ↦
            rw b
              (setup_loop-port mask n (suc i) s enable p h (omega arith) next (omega arith) clear)
      ]
]

-- The register that enables the ports.
setup_loop-enable_register :
    (mask n i : ℕ) (s : Registers) (enable : ℕ)
    → i + n ≤ 4
    → (setup_loop mask n i s enable).0 0x38 ≡ s 0x38
unfolding setup_loop
setup_loop-enable_register mask zero i s enable k = refl
setup_loop-enable_register mask (suc n) i s enable k = elim (Bool-cases (flag mask (2 ^ i))) [
  | inl b ↦ rw b (
      setup_loop-enable_register mask n (suc i) (poke (0xc * i) poll_command s)
        (bit_or enable (enable_of i)) (omega arith)
      ∙ rw (ne→== 0x38 (0xc * i) (λ e. absurd (omega arith))) refl)
  | inr b ↦ rw b (setup_loop-enable_register mask n (suc i) s enable (omega arith))
]

-- The registers before the loop.
started : ℕ → Registers → Registers
started mask s = poke 0x34 0 (poke 0x30 (bit_and mask 0xf * 2 ^ 4) (poke 0x38 0 (poke 0x3c 0 s)))

started-port : (mask p : ℕ) (s : Registers) → p < 4 → started mask s (0xc * p) ≡ s (0xc * p)
unfolding started
started-port mask p s h =
    let away : (a : ℕ) → 0x30 ≤ a → (0xc * p == a) ≡ false =
      λ a k. ne→== (0xc * p) a (λ e. absurd (omega arith)) in
    rw
      (
        away 0x34 (omega arith),
        away 0x30 (omega arith),
        away 0x38 (omega arith),
        away 0x3c (omega arith),
      )
      refl

started-enable : (mask : ℕ) (s : Registers) → started mask s 0x38 ≡ 0
unfolding started
started-enable mask s = refl

setup_serial_devices-loop :
    (mask a : ℕ) (s : Registers)
    → mask ≢ 0
    → setup_serial_devices mask s a
      ≡ poke 0x38
          (bit_or
            (setup_loop mask 4 0 (started mask s) 0).1
            ((setup_loop mask 4 0 (started mask s) 0).0 0x38))
          (setup_loop mask 4 0 (started mask s) 0).0
          a
unfolding setup_serial_devices setup_loop started
setup_serial_devices-loop mask a s some =
    subst
      (λ (b : Bool).
        (if b
            then s
            else poke 0x38
                (bit_or (setup_loop mask 4 0 (started mask s) 0).1
                  ((setup_loop mask 4 0 (started mask s) 0).0 0x38))
                (setup_loop mask 4 0 (started mask s) 0).0)
          a
        ≡ poke 0x38
            (bit_or (setup_loop mask 4 0 (started mask s) 0).1
              ((setup_loop mask 4 0 (started mask s) 0).0 0x38))
            (setup_loop mask 4 0 (started mask s) 0).0 a)
      (sym (ne→== mask 0 some)) refl

-- `TW_SetupSerialDevices` of a mask that is not 0: of the four ports, those in the mask get the command that polls a
-- controller and are enabled in the register at 0x38, the others keep their command and are not enabled.
pub setup_serial_devices-ports :
    (mask p : ℕ) (s : Registers)
    → mask ≢ 0
    → p < 4
    → (setup_serial_devices mask s (0xc * p)
        ≡ (if flag mask (2 ^ p) then poll_command else s (0xc * p)))
      × (bit_at (31 - 8 * p) (setup_serial_devices mask s 0x38) ≡ one_if (flag mask (2 ^ p)))
setup_serial_devices-ports mask p s some h =
    let loop = setup_loop mask 4 0 (started mask s) 0 in
    let (words, bits) =
      setup_loop-port mask 4 0 (started mask s) 0 p h (omega arith) (omega arith) (omega arith)
        (bit_at-zero (31 - 8 * p)) in
    let elsewhere : (0xc * p == 0x38) ≡ false = ne→== (0xc * p) 0x38 (λ e. absurd (omega arith)) in
    let cleared : loop.0 0x38 ≡ 0 =
      setup_loop-enable_register mask 4 0 (started mask s) 0 (omega arith)
      ∙ started-enable mask s in
    (
      setup_serial_devices-loop mask (0xc * p) s some
          ∙ rw elsewhere (words ∙ rw (started-port mask p s h) refl),
      ap (bit_at (31 - 8 * p))
            (setup_serial_devices-loop mask 0x38 s some ∙ ap (bit_or loop.1) cleared)
          ∙ bit_at-bit_or (31 - 8 * p) loop.1 0
          ∙ omega (arith, bit_at-zero (31 - 8 * p), bits),
    )
