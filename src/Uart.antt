-- ===== src/Uart.antt =====
-- src/hvcore/src/hypervisor/serial_logger.rs: the UART. The state is what was written to I/O ports
-- so far, and the line statuses that the coming reads of port 5 of the UART will give. The
-- formatting of a record and the mutex are not modelled.
pub mod Sent
pub mod Examples
use barevisor.Base.{
  ℕ, ◌+◌, ◌/◌, ◌%◌, ◌^◌, Bool, not, ◌==◌, if◌then◌else◌, Option, none, some, List, [], ◌∷◌, ◌++◌,
  Outcome, returns, panics, ◌>>=◌, ◌>>◌, assert,
}

pub data SerialPort : Type 0 where
  com1 : SerialPort
  com2 : SerialPort
  com3 : SerialPort
  com4 : SerialPort

-- `port as u16`.
abbrev pub number : SerialPort → ℕ
number com1 = 0x3f8
number com2 = 0x2f8
number com3 = 0x3e8
number com4 = 0x2e8

pub record Io : Type 0 where
  pub written : List (ℕ × ℕ)
  pub statuses : List ℕ

abbrev pub outb : ℕ → ℕ → Io → Io
outb port data_ io = record io { written = io.written ++ ((port, data_) ∷ []) }

-- `Uart::init`, which divides by the baud rate.
pub init_uart : ℕ → ℕ → Io → Outcome Io
init_uart port baud_rate io = do
  let latched = outb (port + 3) 0x80 (outb (port + 1) 0 io)
  assert (not (baud_rate == 0))
  let divider = 115200 / baud_rate
  let dlab_low = divider % 2 ^ 8
  let dlab_high = divider / 2 ^ 8 % 2 ^ 8
  let divided = outb (port + 1) dlab_high (outb (port + 0) dlab_low latched)
  returns (
      outb (port + 1) 0x1
        (outb (port + 4) 0xb (outb (port + 2) 0xc7 (outb (port + 3) 0x3 divided))))

-- `Uart::new`; a Uart is the number of its port.
pub new_uart : SerialPort → ℕ → Io → Outcome (ℕ × Io)
new_uart port baud_rate io = do
  io' ← init_uart (number port) baud_rate io
  returns (number port, io')

-- The loop on THRE, which is bit 5: the statuses after the one that has it set.
pub wait : List ℕ → Option (List ℕ)
wait [] = none
wait (status ∷ statuses) =
    let rest = wait statuses in if status / 2 ^ 5 % 2 == 0 then rest else some statuses

-- `write_str` on the bytes of the text. There is no result if the reads that the state has do not
-- suffice.
pub write_str : ℕ → List ℕ → Io → Option Io
write_str port [] io = some io
write_str port (data_ ∷ msg) io = elim (wait io.statuses) [
  | none ↦ none
  | some statuses ↦ write_str port msg (outb port data_ (record io { statuses = statuses }))
]
