-- ===== src/Serial/Tests.antt =====
-- Runs of the serial port on a transmitter that records what it sends.
use matryoshka_os.Prelude.{◌≡◌, refl}
use matryoshka_os.Serial.{set_up, serial_init}
use matryoshka_os.Serial.Line.{line_machine, idle_line}

answers : (serial_init line_machine idle_line).0 ≡ 0
unfolding serial_init set_up
answers = refl
