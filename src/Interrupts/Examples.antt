-- ===== src/Interrupts/Examples.antt =====
-- The theorem about external interrupts at concrete ones.
use libtwilight.Prelude.{◌≡◌, refl, some, arith}
use libtwilight.Interrupts.{Interrupts, dispatch_interrupt, set_external_interrupt_handler}
use libtwilight.Interrupts.External.{raised, dispatch_interrupt-set_external}

-- The video interrupt is enabled, and all handlers are set.
abbrev s : Interrupts
s = record {
  cause = 0;
  mask = 256;
  wii_cause = 0;
  wii_mask = 0;
  external_handlers = (λ i. 0x80001000);
  cpu_handlers = (λ i. 0x80002000);
  decrement_handler = 0;
  decrementer = 0;
}

-- The DSP interrupt.
dispatch_interrupt-set_external_example :
    dispatch_interrupt (raised (set_external_interrupt_handler (λ t. 0) s 6 0x80003000) 6) 5
    ≡ some 0x80003000
dispatch_interrupt-set_external_example =
    dispatch_interrupt-set_external (λ t. 0) s 6 0x80003000 refl (omega arith)
