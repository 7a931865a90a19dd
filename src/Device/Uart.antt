-- ===== src/Device/Uart.antt =====
-- src/uart.c: the NS16550 serial port. The terminal is the input and output of the machine.
use tinyvm.Base.{
  ℕ, ◌&&◌, true, false, not, bit_and, bit_or, ◌==◌, if◌then◌else◌, Option, none, some, List, [],
  ◌∷◌, has_flag, u8, Exec, pure, exit, modify, gets, state, ◌>>◌,
}
use tinyvm.Machine.{Machine, Uart}
use tinyvm.Device.Plic.{plic_set_pending, plic_irq_uart}

abbrev pub uart_base : ℕ
uart_base = 0x10000000

abbrev pub uart_size : ℕ
uart_size = 8

abbrev pub ier_rda_enable : ℕ
ier_rda_enable = 1

abbrev pub ier_thre_enable : ℕ
ier_thre_enable = 2

abbrev pub uart_lcr_dlab : ℕ
uart_lcr_dlab = 0x80

abbrev pub uart_iir_no_int : ℕ
uart_iir_no_int = 0xC1

abbrev pub uart_iir_thre : ℕ
uart_iir_thre = 0xC2

abbrev pub uart_iir_rda : ℕ
uart_iir_rda = 0xC4

abbrev pub uart_msr_ready : ℕ
uart_msr_ready = 0xB0

abbrev pub on_uart : (Uart → Uart) → Machine → Machine
on_uart f m = record m { uart = f m.uart }

-- plic_set_pending(PLIC_IRQ_UART).
abbrev pub notify : Machine → Machine
notify = plic_set_pending plic_irq_uart

-- A byte from the terminal is kept, and announced if the guest asked for that. Ctrl-\ ends the
-- emulator.
unfoldable pub receive : ℕ → Exec Machine (Unit {0})
receive c = if c == 0x1C then exit 0 else do
  modify (on_uart (λ u. record u { rx_buf = c; rx_ready = true }))
  modify (λ m. if has_flag m.uart.ier ier_rda_enable then notify m else m)

-- read(STDIN_FILENO, &c, 1) takes the next entry of the input; at its end there is no byte.
unfoldable pub read_input : List (Option ℕ) → Exec Machine (Unit {0})
read_input [] = pure tt
read_input (none ∷ rest) = modify (λ m. record m { input = rest })
read_input (some c ∷ rest) = do modify (λ m. record m { input = rest }); receive (u8 c)

unfoldable pub uart_poll_rx : Exec Machine (Unit {0})
uart_poll_rx m = if m.uart.rx_ready then pure tt m else read_input m.input m

-- The terminal is polled every 1024 steps.
unfoldable pub uart_irq_source : Exec Machine (Unit {0})
uart_irq_source m = if has_flag m.cpu.steps 0x3FF then pure tt m else uart_poll_rx m

-- Reading the receive buffer empties it.
unfoldable pub read_rbr : Machine → ℕ × Machine
read_rbr m =
    if has_flag m.uart.lcr uart_lcr_dlab
    then (m.uart.dll, m)
    else if not m.uart.rx_ready
    then (0, m)
    else (m.uart.rx_buf, on_uart (λ u. record u { rx_ready = false }) m)

-- The pending interrupt of highest priority; reporting THRE clears it.
unfoldable pub read_iir : Machine → ℕ × Machine
read_iir m =
    if m.uart.rx_ready && has_flag m.uart.ier ier_rda_enable
    then (uart_iir_rda, m)
    else if m.uart.thre_ip && has_flag m.uart.ier ier_thre_enable
    then (uart_iir_thre, on_uart (λ u. record u { thre_ip = false }) m)
    else (uart_iir_no_int, m)

abbrev pub line_status : Machine → ℕ
line_status m = bit_or 0x60 (if m.uart.rx_ready then 1 else 0)

unfoldable pub uart_read : ℕ → Exec Machine ℕ
uart_read offset =
    if offset == 0
    then state read_rbr
    else if offset == 1
    then gets (λ m. if has_flag m.uart.lcr uart_lcr_dlab then m.uart.dlh else m.uart.ier)
    else if offset == 2
    then (do uart_poll_rx; state read_iir)
    else if offset == 3
    then gets (λ m. m.uart.lcr)
    else if offset == 4
    then gets (λ m. m.uart.mcr)
    else if offset == 5
    then (do uart_poll_rx; gets line_status)
    else if offset == 6
    then pure uart_msr_ready
    else if offset == 7
    then gets (λ m. m.uart.scr)
    else pure 0

-- A byte is sent, and the empty holding register announced if the guest asked for that.
unfoldable pub write_thr : ℕ → Machine → Machine
write_thr v m =
    if has_flag m.uart.lcr uart_lcr_dlab
    then on_uart (λ u. record u { dll = v }) m
    else let sent =
        on_uart (λ u. record u { thre_ip = true }) (record m { output = v ∷ m.output }) in
      if has_flag sent.uart.ier ier_thre_enable then notify sent else sent

unfoldable pub write_ier : ℕ → Machine → Machine
write_ier v m =
    if has_flag m.uart.lcr uart_lcr_dlab
    then on_uart (λ u. record u { dlh = v }) m
    else let m₁ = on_uart (λ u. record u { ier = v }) m in
      if has_flag v ier_thre_enable
      then notify (on_uart (λ u. record u { thre_ip = true }) m₁)
      else if has_flag v ier_rda_enable && m₁.uart.rx_ready
      then notify m₁
      else m₁

unfoldable pub uart_write : ℕ → ℕ → Machine → Machine
uart_write offset val m =
    let v = u8 (bit_and val 0xFF) in
    if offset == 0
    then write_thr v m
    else if offset == 1
    then write_ier v m
    else if offset == 2
    then m
    else if offset == 3
    then on_uart (λ u. record u { lcr = v }) m
    else if offset == 4
    then on_uart (λ u. record u { mcr = v }) m
    else if offset == 7
    then on_uart (λ u. record u { scr = v }) m
    else m
