-- ===== src/Uart/Sent.antt =====
-- What a 16550 UART makes of the writes to its ports.
use mathlib.Core.List.{append-nil, append_assoc}
use barevisor.Base.{
  ℕ, suc, ◌+◌, ◌-◌, ◌/◌, ◌%◌, ◌^◌, ◌<◌, ◌≤◌, ◌≡◌, refl, sym, ap, ◌∙◌, Bool, true, false, arith,
  ◌==◌, Bool-cases, inl, inr, if◌then◌else◌, Option, none, some, List, [], ◌∷◌, ◌++◌, length, map,
  returns,
}
use barevisor.Uart.{
  SerialPort, com1, com2, com3, com4, number, Io, outb, init_uart, new_uart, wait, write_str,
}

-- The registers, and the bytes that were transmitted.
pub record Device : Type 0 where
  pub divisor_low : ℕ
  pub divisor_high : ℕ
  pub interrupt_enable : ℕ
  pub fifo_control : ℕ
  pub line_control : ℕ
  pub modem_control : ℕ
  pub sent : List ℕ

-- The divisor latch is at the first two ports while bit 7 of the line control is set.
abbrev pub latched : Device → Bool
latched d = d.line_control / 2 ^ 7 % 2 == 1

abbrev pub receive : ℕ → Device → ℕ × ℕ → Device
receive port d (p, v) =
    if p == port
    then (if latched d
        then record d { divisor_low = v }
        else record d { sent = d.sent ++ (v ∷ []) })
    else if p == port + 1
    then (if latched d then record d { divisor_high = v } else record d { interrupt_enable = v })
    else if p == port + 2
    then record d { fifo_control = v }
    else if p == port + 3
    then record d { line_control = v }
    else if p == port + 4
    then record d { modem_control = v }
    else d

pub after : ℕ → Device → List (ℕ × ℕ) → Device
after port d [] = d
after port d (w ∷ ws) = after port (receive port d w) ws

-- How many of the statuses say that the UART can take a byte.
unfoldable pub ready : List ℕ → ℕ
ready [] = 0
ready (status ∷ statuses) =
    let rest = ready statuses in if status / 2 ^ 5 % 2 == 0 then rest else suc rest

wait-ready :
    (statuses : List ℕ) (n : ℕ)
    → ready statuses ≡ suc n
    → (rest : List ℕ) × (wait statuses ≡ some rest) × (ready rest ≡ n)
unfolding wait ready
wait-ready [] n e = absurd (omega (arith, e))
wait-ready (status ∷ statuses) n e = elim (Bool-cases (status / 2 ^ 5 % 2 == 0)) [
  | inl busy ↦
      let rest = wait-ready statuses n (ground (arith, e, busy)) in
      (rest.0, rw busy (rest.1), rest.2)
  | inr free ↦ (statuses, rw free refl, ground (arith, e, free))
]

write_str-wait :
    (port b : ℕ) (msg : List ℕ) (io : Io) (rest : List ℕ)
    → wait io.statuses ≡ some rest
    → write_str port (b ∷ msg) io ≡ write_str port msg (outb port b (record io { statuses = rest }))
unfolding write_str
write_str-wait port b msg io rest e =
    ap
      (λ o. elim o as (λ o. Option Io) [
        | none ↦ none
        | some statuses ↦ write_str port msg (outb port b (record io { statuses = statuses }))
      ])
      e

write_str-returns :
    (port : ℕ) (msg : List ℕ) (io : Io) (n : ℕ)
    → ready io.statuses ≡ length msg + n
    → (io' : Io) × (write_str port msg io ≡ some io')
      × (io'.written ≡ io.written ++ map (λ b. (port, b)) msg)
      × (ready io'.statuses ≡ n)
unfolding write_str
write_str-returns port [] io n e = (io, refl, sym (append-nil io.written), omega (arith, e))
write_str-returns port (b ∷ msg) io n e =
    let waited = wait-ready io.statuses (length msg + n) (omega (arith, e)) in
    let rest =
      write_str-returns port msg (outb port b (record io { statuses = waited.0 })) n (waited.2) in
    (
      rest.0,
      write_str-wait port b msg io waited.0 waited.1 ∙ rest.1,
      rest.2 ∙ append_assoc io.written ((port, b) ∷ []) (map (λ b. (port, b)) msg),
      rest.3,
    )

abbrev init_writes : ℕ → ℕ → List (ℕ × ℕ)
init_writes port divider =
    (port + 1, 0)
    ∷ (port + 3, 0x80)
    ∷ (port + 0, divider % 2 ^ 8)
    ∷ (port + 1, divider / 2 ^ 8 % 2 ^ 8)
    ∷ (port + 3, 3)
    ∷ (port + 2, 0xc7)
    ∷ (port + 4, 0xb)
    ∷ (port + 1, 1)
    ∷ []

init_uart-writes :
    (port baud_rate : ℕ) (statuses : List ℕ)
    → (baud_rate == 0) ≡ false
    → init_uart port baud_rate (record { written = []; statuses = statuses })
      ≡ returns (record { written = init_writes port (115200 / baud_rate); statuses = statuses })
unfolding init_uart
init_uart-writes port baud_rate statuses e = rw e refl

-- The UART after `init_uart`.
abbrev pub configured : ℕ → List ℕ → Device
configured divider sent = record {
  divisor_low = divider % 2 ^ 8;
  divisor_high = divider / 2 ^ 8 % 2 ^ 8;
  interrupt_enable = 1;
  fifo_control = 0xc7;
  line_control = 3;
  modem_control = 0xb;
  sent = sent;
}

after-init_writes_first :
    (serial : SerialPort) (divider : ℕ) (d : Device)
    → after (number serial) d (init_writes (number serial) divider)
      ≡ configured divider (receive (number serial) d (number serial + 1, 0)).sent
unfolding after
after-init_writes_first com1 divider d = refl
after-init_writes_first com2 divider d = refl
after-init_writes_first com3 divider d = refl
after-init_writes_first com4 divider d = refl

sent_cases :
    (d : Device) (a b : Device)
    → a.sent ≡ d.sent
    → b.sent ≡ d.sent
    → (if latched d then a else b).sent ≡ d.sent
sent_cases d a b left_is right_is = elim (Bool-cases (latched d)) [
  | inl open_ ↦ rw open_ left_is
  | inr closed ↦ rw closed right_is
]

-- The first write disables the interrupts, or reaches the divisor if the latch is open.
sent-receive :
    (serial : SerialPort) (d : Device)
    → (receive (number serial) d (number serial + 1, 0)).sent ≡ d.sent
sent-receive com1 d = sent_cases d _ _ refl refl
sent-receive com2 d = sent_cases d _ _ refl refl
sent-receive com3 d = sent_cases d _ _ refl refl
sent-receive com4 d = sent_cases d _ _ refl refl

after-init_writes :
    (serial : SerialPort) (divider : ℕ) (d : Device)
    → after (number serial) d (init_writes (number serial) divider) ≡ configured divider d.sent
after-init_writes serial divider d =
    after-init_writes_first serial divider d ∙ ap (configured divider) (sent-receive serial d)

after-append :
    (port : ℕ) (d : Device) (xs ys : List (ℕ × ℕ))
    → after port d (xs ++ ys) ≡ after port (after port d xs) ys
unfolding after
after-append port d [] ys = refl
after-append port d (x ∷ xs) ys = after-append port (receive port d x) xs ys

receive-configured :
    (port divider : ℕ) (sent : List ℕ) (b : ℕ)
    → receive port (configured divider sent) (port, b) ≡ configured divider (sent ++ (b ∷ []))
receive-configured port divider sent b =
    let here : (port == port) ≡ true = ground arith in rw here refl

after-bytes :
    (port divider : ℕ) (sent msg : List ℕ)
    → after port (configured divider sent) (map (λ b. (port, b)) msg)
      ≡ configured divider (sent ++ msg)
unfolding after
after-bytes port divider sent [] = ap (configured divider) (sym (append-nil sent))
after-bytes port divider sent (b ∷ msg) =
    ap (λ d. after port d (map (λ b'. (port, b')) msg)) (receive-configured port divider sent b)
    ∙ after-bytes port divider (sent ++ (b ∷ [])) msg
    ∙ ap (configured divider) (append_assoc sent (b ∷ []) msg)

-- For a baud rate that is not 0, if the coming reads say as often as the text has bytes, or more, that
-- the UART can take a byte, `new_uart` and then `write_str` on its Uart return, and have used up one of these
-- reads for each byte; and then the UART has sent the bytes of the text in their order and no other
-- byte, whatever state it was in, with the divisor of the baud rate, 8 bits and the latch closed.
pub write_str-new_uart :
    (serial : SerialPort) (baud_rate : ℕ) (msg statuses : List ℕ) (d : Device)
    → 0 < baud_rate
    → length msg ≤ ready statuses
    → (uart : ℕ × Io) × (io' : Io) × (new_uart serial baud_rate
          (record { written = []; statuses = statuses })
        ≡ returns uart)
      × (write_str uart.0 msg uart.1 ≡ some io')
      × (ready io'.statuses ≡ ready statuses - length msg)
      × (after uart.0 d io'.written ≡ configured (115200 / baud_rate) (d.sent ++ msg))
unfolding new_uart
write_str-new_uart serial baud_rate msg statuses d positive enough =
    let port = number serial in
    let divider = 115200 / baud_rate in
    let io : Io = record { written = init_writes port divider; statuses = statuses } in
    let wrote =
      write_str-returns port msg io (ready statuses - length msg) (omega (arith, enough)) in
    (
      (port, io),
      wrote.0,
      rw (init_uart-writes port baud_rate statuses (ground (arith, positive))) refl,
      wrote.1,
      wrote.3,
      ap (after port d) (wrote.2)
          ∙ after-append port d (init_writes port divider) (map (λ b. (port, b)) msg)
          ∙ ap (λ d'. after port d' (map (λ b. (port, b)) msg)) (after-init_writes serial divider d)
          ∙ after-bytes port divider d.sent msg,
    )
