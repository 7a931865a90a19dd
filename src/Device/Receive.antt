-- ===== src/Device/Receive.antt =====
-- src/uart.c: a byte from the terminal reaches the guest once, through the receive buffer.
use tinyvm.Base.{
  ℕ, ◌≡◌, refl, true, false, ◌==◌, if◌then◌else◌, if-elim, has_flag, u8, Option, some, List, ◌∷◌,
  ok, modify, ◌>>=◌,
}
use tinyvm.Machine.{Machine, Uart}
use tinyvm.Device.Plic.{plic_set_pending, plic_update_seip, any_fires}
use tinyvm.Device.Uart.{
  receive, read_input, uart_poll_rx, read_rbr, notify, on_uart, uart_lcr_dlab, ier_rda_enable,
}

-- The serial port and the terminal are as said.
record IsPort (u : Uart) (rest : List (Option ℕ)) (m : Machine) : Type 0 where
  pub uart_is : m.uart ≡ u
  pub input_is : m.input ≡ rest

plic_update_seip-IsPort :
    (u : Uart) (rest : List (Option ℕ)) (m : Machine)
    → IsPort u rest m
    → IsPort u rest (plic_update_seip m)
unfolding plic_update_seip
plic_update_seip-IsPort u rest m h =
    if-elim (IsPort u rest) (any_fires m.plic 31 1) _ _
      (λ _. record { uart_is = h.uart_is; input_is = h.input_is })
      (λ _. record { uart_is = h.uart_is; input_is = h.input_is })

notify-IsPort :
    (u : Uart) (rest : List (Option ℕ)) (m : Machine) → IsPort u rest m → IsPort u rest (notify m)
unfolding plic_set_pending
notify-IsPort u rest m h =
    plic_update_seip-IsPort u rest _ (record { uart_is = h.uart_is; input_is = h.input_is })

-- The machine after the byte `c` has come in.
abbrev pub arrived : ℕ → List (Option ℕ) → Machine → Machine
arrived c rest m =
    let got = on_uart (λ u. record u { rx_buf = c; rx_ready = true }) (record m { input = rest }) in
    if has_flag got.uart.ier ier_rda_enable then notify got else got

arrived-IsPort :
    (c : ℕ) (rest : List (Option ℕ)) (m : Machine)
    → IsPort (record m.uart { rx_buf = c; rx_ready = true }) rest (arrived c rest m)
arrived-IsPort c rest m =
    let got = on_uart (λ u. record u { rx_buf = c; rx_ready = true }) (record m { input = rest }) in
    if-elim (IsPort got.uart rest) (has_flag got.uart.ier ier_rda_enable) (notify got) got
      (λ _. notify-IsPort got.uart rest got (record { uart_is = refl; input_is = refl }))
      (λ _. record { uart_is = refl; input_is = refl })

-- Reading the buffer gives `c`, and reading it again gives 0.
pub record IsReceived (c : ℕ) (rest : List (Option ℕ)) (m : Machine) : Type 0 where
  pub first_read : (read_rbr m).0 ≡ c
  pub second_read : (read_rbr (read_rbr m).1).0 ≡ 0
  pub input_is : m.input ≡ rest

buffered-IsReceived :
    (c : ℕ) (rest : List (Option ℕ)) (u : Uart) (m : Machine)
    → IsPort (record u { rx_buf = c; rx_ready = true }) rest m
    → has_flag u.lcr uart_lcr_dlab ≡ false
    → IsReceived c rest m
unfolding read_rbr
buffered-IsReceived c rest u m h e = record {
  first_read = rw (h.uart_is, e) refl;
  second_read = rw (h.uart_is, e) (rw e refl);
  input_is = h.input_is;
}

uart_poll_rx-arrived :
    (c : ℕ) (rest : List (Option ℕ)) (m : Machine)
    → m.uart.rx_ready ≡ false
    → m.input ≡ some c ∷ rest
    → (u8 c == 0x1C) ≡ false
    → uart_poll_rx m ≡ ok (tt, arrived (u8 c) rest m)
unfolding uart_poll_rx read_input receive ◌>>=◌ modify
uart_poll_rx-arrived c rest m e q k = rw (e, q, k) refl

-- With an empty buffer and the divisor latch closed, a poll that finds a byte other than Ctrl-\
-- takes it off the terminal's input; the guest's next read of the buffer gives that byte, and the
-- read after that gives 0.
pub uart_poll_rx-receives :
    (c : ℕ) (rest : List (Option ℕ)) (m : Machine)
    → m.uart.rx_ready ≡ false
    → m.input ≡ some c ∷ rest
    → (u8 c == 0x1C) ≡ false
    → has_flag m.uart.lcr uart_lcr_dlab ≡ false
    → (uart_poll_rx m ≡ ok (tt, arrived (u8 c) rest m))
      × IsReceived (u8 c) rest (arrived (u8 c) rest m)
uart_poll_rx-receives c rest m e q k l = (
  uart_poll_rx-arrived c rest m e q k,
  buffered-IsReceived (u8 c) rest m.uart (arrived (u8 c) rest m) (arrived-IsPort (u8 c) rest m) l,
)
