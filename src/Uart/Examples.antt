-- ===== src/Uart/Examples.antt =====
-- "Hi" at the first serial port, which is busy at first.
use barevisor.Base.{ℕ, ◌-◌, ◌≡◌, some, List, [], ◌∷◌, arith, returns}
use barevisor.Uart.{com1, Io, new_uart, write_str}
use barevisor.Uart.Sent.{Device, after, ready, configured, write_str-new_uart}

abbrev uart : Device
uart = record {
  divisor_low = 12;
  divisor_high = 0;
  interrupt_enable = 0;
  fifo_control = 0;
  line_control = 0x83;
  modem_control = 0;
  sent = [];
}

abbrev line : List ℕ
line = 0 ∷ 0x60 ∷ 0x40 ∷ 0x20 ∷ 0x60 ∷ []

write_str-new_uart_example :
    (port : ℕ × Io) × (io' : Io) × (new_uart com1 115200 (record { written = []; statuses = line })
      ≡ returns port)
    × (write_str port.0 (0x48 ∷ 0x69 ∷ []) port.1 ≡ some io')
    × (ready io'.statuses ≡ ready line - 2)
    × (after port.0 uart io'.written ≡ configured 1 (0x48 ∷ 0x69 ∷ []))
unfolding ready
write_str-new_uart_example =
    write_str-new_uart com1 115200 (0x48 ∷ 0x69 ∷ []) line uart (omega arith) (omega arith)
