-- ===== src/Serial/Examples.antt =====
-- Runs of the serial interface.
use libtwilight.Prelude.{
  ◌-◌, ◌*◌, ◌^◌, ◌≡◌, ◌==◌, refl, arith, true, [], ◌∷◌, if◌then◌else◌, ltb, get_or,
}
use libtwilight.Prelude.Bits.{bit_at}
use libtwilight.Integer.{flag, one_if}
use libtwilight.Serial.{
  Registers, poll_command, setup_serial_devices, request_serial_buffer, identify_serial_controller,
}
use libtwilight.Serial.Ports.{setup_serial_devices-ports}
use libtwilight.Serial.Description.{buffer_byte, get_or-request_serial_buffer}

-- A GameCube controller in the buffer.
abbrev controller : Registers
controller = λ a. if a == 0x80 then 0x09000800 else 7

identified : identify_serial_controller 2 controller ≡ (0x0900, true)
unfolding identify_serial_controller
identified = refl

setup_serial_devices-ports_example :
    (setup_serial_devices 5 controller (0xc * 2)
      ≡ (if flag 5 (2 ^ 2) then poll_command else controller (0xc * 2)))
    × (bit_at (31 - 8 * 2) (setup_serial_devices 5 controller 0x38) ≡ one_if (flag 5 (2 ^ 2)))
setup_serial_devices-ports_example =
    setup_serial_devices-ports 5 2 controller (λ e. absurd (omega arith)) (omega arith)

get_or-request_serial_buffer_example :
    get_or (request_serial_buffer 0 [] 3 controller (1 ∷ 2 ∷ 3 ∷ 4 ∷ [])) 2 0
    ≡ (if ltb 2 3 then buffer_byte controller 2 else get_or (1 ∷ 2 ∷ 3 ∷ 4 ∷ []) 2 0)
get_or-request_serial_buffer_example =
    get_or-request_serial_buffer 0 3 2 [] (1 ∷ 2 ∷ 3 ∷ 4 ∷ []) controller (omega arith)
