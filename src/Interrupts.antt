-- ===== src/Interrupts.antt =====
-- ppc/interrupts.c, as built for the Wii: which handler an interrupt reaches. The device registers are words
-- of the state; a handler is its address, 0 for none. The start-up functions of the EXI, audio and DSP
-- interrupts are empty in the source.
pub mod External
mod Examples
use libtwilight.Prelude.{
  ℕ, zero, suc, ◌+◌, ◌-◌, ◌*◌, ◌^◌, ◌%◌, bit_and, bit_or, Bool, true, false, ◌||◌, List, [], ◌∷◌,
  Option, none, some, ◌==◌, if◌then◌else◌,
}

-- `TW_INTERRUPT_BIT_ERROR`, `_DEBUG`, `_MEMORY`, `_RESET`, `_VIDEO`, `_PE_TOKEN`, `_PE_FINISH`, `_HSP`, `_DSP`,
-- `_AUDIO`, `_EXI`, `_SERIAL`, `_DVD`, `_FIFO`: the order in which `_tw_dispatch_external_interrupt` looks.
abbrev pub external_order : List ℕ
external_order = 0 ∷ 12 ∷ 7 ∷ 1 ∷ 8 ∷ 9 ∷ 10 ∷ 13 ∷ 6 ∷ 5 ∷ 4 ∷ 3 ∷ 2 ∷ 11 ∷ []

-- `TW_INTERRUPT_BIT_ACR`, behind which the interrupts of the Wii stand.
abbrev pub acr_bit : ℕ
acr_bit = 14

-- `TW_INTERRUPT_BIT_STARLET_TIMER` to `TW_INTERRUPT_BIT_IPC_STARLET`, in the order of the source.
abbrev pub wii_order : List ℕ
wii_order = 16 ∷ 17 ∷ 18 ∷ 19 ∷ 20 ∷ 21 ∷ 22 ∷ 23 ∷ 24 ∷ 26 ∷ 27 ∷ 31 ∷ 33 ∷ 34 ∷ 35 ∷ 46 ∷ 47 ∷ []

pub record Interrupts : Type 0 where
  pub cause : ℕ
  pub mask : ℕ
  pub wii_cause : ℕ
  pub wii_mask : ℕ
  pub external_handlers : ℕ → ℕ
  pub cpu_handlers : ℕ → ℕ
  pub decrement_handler : ℕ
  pub decrementer : ℕ

-- `MAYBE_INVOKE_THEN_RETURN` for each bit of a list: the first bit that is set.
pub first_active : ℕ → ℕ → List ℕ → Option ℕ
first_active active offset [] = none
first_active active offset (bit ∷ bits) =
    let rest = first_active active offset bits in
    if bit_and active (2 ^ (bit - offset)) == 0 then rest else some bit

-- The call of a handler, if there is one.
abbrev pub invoked : ℕ → Option ℕ
invoked handler = if handler == 0 then none else some handler

-- What follows the looks at the bits of the first registers.
pub dispatch_wii : Interrupts → ℕ → Option ℕ
unfolding first_active
dispatch_wii s active =
    let found : Option ℕ = elim (first_active (bit_and s.wii_cause s.wii_mask) 16 wii_order) [
      | none ↦ none
      | some bit ↦ invoked (s.external_handlers bit)
    ] in
    if bit_and active (2 ^ acr_bit) == 0 then none else found

-- `_tw_dispatch_external_interrupt`, from the word `active` on.
pub dispatch_active : Interrupts → ℕ → Option ℕ → Option ℕ
unfolding dispatch_wii
dispatch_active s active (some bit) = invoked (s.external_handlers bit)
dispatch_active s active none = dispatch_wii s active

pub active_of : Interrupts → ℕ
active_of s = bit_and (bit_and s.cause 0x7fff) (bit_and s.mask 0x7fff)

-- `_tw_dispatch_external_interrupt`: the handler that it calls.
pub dispatch_external : Interrupts → Option ℕ
unfolding first_active dispatch_active active_of
dispatch_external s = dispatch_active s (active_of s) (first_active (active_of s) 0 external_order)

-- `_tw_dispatch_interrupt`.
pub dispatch_interrupt : Interrupts → ℕ → Option ℕ
unfolding dispatch_external
dispatch_interrupt s irq_index =
    let external = dispatch_external s in
    if irq_index == 5
    then external
    else if irq_index == 8
    then invoked s.decrement_handler
    else invoked (s.cpu_handlers irq_index)

pub set_timer_interrupt : Interrupts → ℕ → ℕ → Interrupts
set_timer_interrupt s handler quad_cycles = record s {
  decrement_handler = handler;
  decrementer = quad_cycles;
}

pub set_cpu_interrupt_handler : Interrupts → ℕ → ℕ → Interrupts
set_cpu_interrupt_handler s interrupt_type handler = record s {
  cpu_handlers = (λ i. if i == interrupt_type then handler else s.cpu_handlers i);
}

abbrev pub mem : ℕ → List ℕ → Bool
mem x [] = false
mem x (y ∷ ys) = (x == y) || mem x ys

-- The cases of `TW_SetExternalInterruptHandler` for the Wii: `shifted interrupt_type` is the value of
-- `1 << (16 - interruptType)`, which C leaves open for types above 16.
pub set_wii_handler : (ℕ → ℕ) → Interrupts → ℕ → ℕ → Interrupts
set_wii_handler shifted s interrupt_type handler = record s {
  external_handlers = (λ i. if i == interrupt_type then handler else s.external_handlers i);
  wii_mask = bit_or (if interrupt_type == 16 then 1 else shifted interrupt_type) s.wii_mask;
}

-- The other cases.
pub set_plain_handler : Interrupts → ℕ → ℕ → Interrupts
set_plain_handler s interrupt_type handler = record s {
  external_handlers = (λ i. if i == interrupt_type then handler else s.external_handlers i);
  mask = bit_or (2 ^ interrupt_type) s.mask;
}

-- `TW_SetExternalInterruptHandler`.
pub set_external_interrupt_handler : (ℕ → ℕ) → Interrupts → ℕ → ℕ → Interrupts
unfolding set_wii_handler set_plain_handler
set_external_interrupt_handler shifted s interrupt_type handler =
    if mem interrupt_type external_order
    then set_plain_handler s interrupt_type handler
    else if mem interrupt_type wii_order
    then set_wii_handler shifted s interrupt_type handler
    else s
