-- ===== src/Serial.antt =====
-- ppc/serial.c: the registers of the serial interface, by their offset from TW_SERIAL_REG_BASE, as words of memory.
pub mod Ports
pub mod Description
mod Examples
use libtwilight.Prelude.{
  ℕ, zero, suc, ◌+◌, ◌-◌, ◌*◌, ◌/◌, ◌%◌, ◌^◌, bit_and, bit_or, Bool, true, false, not, List, [],
  ◌∷◌, ltb, ◌==◌, if◌then◌else◌, get_or, set, replicate,
}
use libtwilight.Integer.{flag}

abbrev pub Registers : Type 0
Registers = ℕ → ℕ

-- `POKE_U32`.
abbrev pub poke : ℕ → ℕ → Registers → Registers
poke address value s = λ a. if a == address then value else s a

pub set_serial_poll_interval : ℕ → ℕ → Registers → Registers
set_serial_poll_interval line count s =
    let kept = bit_and (s 0x30) 0xfc0000ff in
    poke 0x30 (bit_or (bit_or kept (line * 2 ^ 16 % 2 ^ 32)) (count * 2 ^ 8 % 2 ^ 32)) s

-- The command that polls a controller.
abbrev pub poll_command : ℕ
poll_command = 0x00400300

-- `0x80u << (8 * (3 - port))`.
abbrev pub enable_of : ℕ → ℕ
enable_of port = 2 ^ (31 - 8 * port)

-- The loop over the ports from `i` on: the registers, and `enable`.
pub setup_loop : ℕ → ℕ → ℕ → Registers → ℕ → Registers × ℕ
setup_loop port_mask zero i s enable = (s, enable)
setup_loop port_mask (suc n) i s enable =
    if flag port_mask (2 ^ i)
    then setup_loop port_mask n (suc i) (poke (0xc * i) poll_command s)
        (bit_or enable (enable_of i))
    else setup_loop port_mask n (suc i) s enable

pub setup_serial_devices : ℕ → Registers → Registers
unfolding setup_loop
setup_serial_devices port_mask s =
    let cleared = poke 0x38 0 (poke 0x3c 0 s) in
    let started = poke 0x34 0 (poke 0x30 (bit_and port_mask 0xf * 2 ^ 4) cleared) in
    let (ports, enable) = setup_loop port_mask 4 0 started 0 in
    if port_mask == 0 then s else poke 0x38 (bit_or enable (ports 0x38)) ports

pub request_serial_direct : ℕ → ℕ → Registers → Registers
request_serial_direct port command s =
    let sent = poke (0xc * port) command s in poke 0x38 (bit_or (enable_of port) (sent 0x38)) sent

-- One round of `TW_RequestSerialBuffer`, on the array `output`.
pub store_word : ℕ → ℕ → ℕ → List ℕ → List ℕ
store_word word i output_len output =
    let first = set output i (word / 2 ^ 24 % 256) in
    let second =
      if ltb (i + 1) output_len then set first (i + 1) (word / 2 ^ 16 % 256) else first in
    let third =
      if ltb (i + 2) output_len then set second (i + 2) (word / 2 ^ 8 % 256) else second in
    if ltb (i + 3) output_len then set third (i + 3) (word % 256) else third

-- Its loop from `i` on; the fuel bounds the rounds.
pub buffer_loop : ℕ → ℕ → ℕ → Registers → List ℕ → List ℕ
unfolding store_word
buffer_loop zero i output_len s output = output
buffer_loop (suc fuel) i output_len s output =
    let rest =
      buffer_loop fuel (i + 4) output_len s (store_word (s (0x80 + i)) i output_len output) in
    if ltb i output_len then rest else output

-- The port and the input are not read. A round covers four bytes, so as many rounds as bytes are enough.
pub request_serial_buffer : ℕ → List ℕ → ℕ → Registers → List ℕ → List ℕ
unfolding buffer_loop
request_serial_buffer port input output_len s output = buffer_loop output_len 0 output_len s output

-- `desc`, and whether the third byte is not 0.
pub identify_serial_controller : ℕ → Registers → ℕ × Bool
unfolding request_serial_buffer
identify_serial_controller port s =
    let output = request_serial_buffer port (replicate 4 0) 3 s (replicate 4 0) in
    let desc =
      bit_or (bit_and (get_or output 0 0) 0xff * 2 ^ 8) (bit_and (get_or output 1 0) 0xff) in
    (desc, not (get_or output 2 0 == 0))

pub get_serial_inputs : ℕ → Registers → ℕ × ℕ
get_serial_inputs port s = (s (port * 0xc + 4), s (port * 0xc + 8))
