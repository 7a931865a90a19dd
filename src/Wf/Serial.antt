-- ===== src/Wf/Serial.antt =====
-- src/uart.c: the serial port keeps the machine well-formed.
use tinyvm.Base.{
  ℕ, Bool, true, false, ◌==◌, ◌&&◌, not, if◌then◌else◌, if-elim, u8, has_flag, arith, List, [], ◌∷◌,
  Option, none, some, Gives, Keeps, Gives-pure, Keeps-pure, Gives-exit, Gives-gets, Keeps-modify,
  Gives-state, Gives-if, Gives-bind, state, bit_and, Post, Any,
}
use tinyvm.Base.Bits.{bit_or-lt}
use tinyvm.Machine.{Machine, Uart}
use tinyvm.Device.Plic.{plic_set_pending}
use tinyvm.Device.Uart.{
  receive, read_input, uart_poll_rx, uart_irq_source, read_rbr, read_iir, line_status, uart_read,
  write_thr, write_ier, uart_write, on_uart, ier_rda_enable, ier_thre_enable, uart_lcr_dlab,
}
use tinyvm.Wf.Defs.{IsMachine, IsUart, IsU64, IsU8}
use tinyvm.Wf.Device.{set_uart-IsMachine, plic_set_pending-IsMachine, IsReply}

-- The terminal is no part of the invariant.
set_input-IsMachine :
    (m : Machine) (i : List (Option ℕ)) → IsMachine m → IsMachine (record m { input = i })
set_input-IsMachine m i h = record {
  is_cpu = h.is_cpu;
  are_regions = h.are_regions;
  is_virtio = h.is_virtio;
  mtimecmp_fits = h.mtimecmp_fits;
  is_plic = h.is_plic;
  is_uart = h.is_uart;
}

set_output-IsMachine :
    (m : Machine) (o : List ℕ) → IsMachine m → IsMachine (record m { output = o })
set_output-IsMachine m o h = record {
  is_cpu = h.is_cpu;
  are_regions = h.are_regions;
  is_virtio = h.is_virtio;
  mtimecmp_fits = h.mtimecmp_fits;
  is_plic = h.is_plic;
  is_uart = h.is_uart;
}

-- An update of registers that keeps the bytes.
on_uart-IsMachine :
    (f : Uart → Uart) (m : Machine)
    → ((u : Uart) → IsUart u → IsUart (f u))
    → IsMachine m
    → IsMachine (on_uart f m)
on_uart-IsMachine f m k h = set_uart-IsMachine m (f m.uart) h (k m.uart h.is_uart)

notify_if-IsMachine :
    (b : Bool) (m : Machine) → IsMachine m → IsMachine (if b then plic_set_pending 1 m else m)
notify_if-IsMachine b m h = if-elim IsMachine b _ m (λ _. plic_set_pending-IsMachine 1 m h) (λ _. h)

receive-Keeps : (c : ℕ) → IsU8 c → Keeps IsMachine (receive c)
unfolding receive
receive-Keeps c l =
    Gives-if (c == 0x1C) _ _ (λ _. Gives-exit 0)
      λ _.
        Gives-bind _ _
          (Keeps-modify _ (λ m h.
            on_uart-IsMachine (λ u. record u { rx_buf = c; rx_ready = true }) m
              (λ u k. record {
                lcr_fits = k.lcr_fits;
                ier_fits = k.ier_fits;
                mcr_fits = k.mcr_fits;
                scr_fits = k.scr_fits;
                dll_fits = k.dll_fits;
                dlh_fits = k.dlh_fits;
                rx_buf_fits = l;
              })
              h))
          (λ _ _.
            Keeps-modify _ (λ m h. notify_if-IsMachine (has_flag m.uart.ier ier_rda_enable) m h))

read_input-Keeps : (i : List (Option ℕ)) → Keeps IsMachine (read_input i)
unfolding read_input
read_input-Keeps [] = Keeps-pure tt
read_input-Keeps (none ∷ rest) = Keeps-modify _ (λ m h. set_input-IsMachine m rest h)
read_input-Keeps (some c ∷ rest) =
    Gives-bind _ _ (Keeps-modify _ (λ m h. set_input-IsMachine m rest h))
      (λ _ _. receive-Keeps (u8 c) (omega arith))

pub uart_poll_rx-Keeps : Keeps IsMachine uart_poll_rx
uart_poll_rx-Keeps = record {
  at = λ m h.
      unfold uart_poll_rx in
      if-elim (Post (λ r. Any r.0 × IsMachine r.1)) m.uart.rx_ready _ _
        (λ _. (Keeps-pure {P = IsMachine} tt).at m h) (λ _. (read_input-Keeps m.input).at m h);
}

pub uart_irq_source-Keeps : Keeps IsMachine uart_irq_source
uart_irq_source-Keeps = record {
  at = λ m h.
      unfold uart_irq_source in
      if-elim (Post (λ r. Any r.0 × IsMachine r.1)) (has_flag m.cpu.steps 0x3FF) _ _
        (λ _. (Keeps-pure {P = IsMachine} tt).at m h) (λ _. uart_poll_rx-Keeps.at m h);
}

-- The two flags are not bytes.
uart_flags-IsMachine :
    (m : Machine) (ready thre : Bool)
    → IsMachine m
    → IsMachine (record m { uart = record m.uart { rx_ready = ready; thre_ip = thre } })
uart_flags-IsMachine m ready thre h = set_uart-IsMachine m _ h (record {
  lcr_fits = h.is_uart.lcr_fits;
  ier_fits = h.is_uart.ier_fits;
  mcr_fits = h.is_uart.mcr_fits;
  scr_fits = h.is_uart.scr_fits;
  dll_fits = h.is_uart.dll_fits;
  dlh_fits = h.is_uart.dlh_fits;
  rx_buf_fits = h.is_uart.rx_buf_fits;
})

read_rbr-IsReply : (m : Machine) → IsMachine m → IsReply (read_rbr m)
unfolding read_rbr
read_rbr-IsReply m h =
    if-elim IsReply (has_flag m.uart.lcr uart_lcr_dlab) _ _
      (λ _. record { value_fits = omega (arith, h.is_uart.dll_fits); is_machine = h })
      λ _.
        if-elim IsReply (not m.uart.rx_ready) _ _
          (λ _. record { value_fits = omega arith; is_machine = h })
          λ _. record {
            value_fits = omega (arith, h.is_uart.rx_buf_fits);
            is_machine = uart_flags-IsMachine m false m.uart.thre_ip h;
          }

read_iir-IsReply : (m : Machine) → IsMachine m → IsReply (read_iir m)
unfolding read_iir
read_iir-IsReply m h =
    if-elim IsReply (m.uart.rx_ready && has_flag m.uart.ier ier_rda_enable) _ _
      (λ _. record { value_fits = omega arith; is_machine = h })
      λ _.
        if-elim IsReply (m.uart.thre_ip && has_flag m.uart.ier ier_thre_enable) _ _
          (λ _. record {
            value_fits = omega arith;
            is_machine = uart_flags-IsMachine m m.uart.rx_ready false h;
          })
          (λ _. record { value_fits = omega arith; is_machine = h })

Gives-reply :
    (f : Machine → ℕ × Machine)
    → ((m : Machine) → IsMachine m → IsReply (f m))
    → Gives IsMachine IsU64 (state f)
Gives-reply f k = Gives-state f (λ m h. ((k m h).value_fits, (k m h).is_machine))

line_status-fits : (m : Machine) → IsU64 (line_status m)
line_status-fits m =
    bit_or-lt 64 0x60 _ (omega arith)
      (if-elim IsU64 m.uart.rx_ready 1 0 (λ _. omega arith) (λ _. omega arith))

byte-IsU64 : {v : ℕ} → IsU8 v → IsU64 v
byte-IsU64 h = omega arith

pub uart_read-Gives : (offset : ℕ) → Gives IsMachine IsU64 (uart_read offset)
unfolding uart_read
uart_read-Gives offset =
    Gives-if (offset == 0) _ _ (λ _. Gives-reply read_rbr read_rbr-IsReply)
      λ _.
        Gives-if (offset == 1) _ _
          (λ _. Gives-gets _ (λ m h.
            if-elim IsU64 (has_flag m.uart.lcr uart_lcr_dlab) _ _
              (λ _. byte-IsU64 h.is_uart.dlh_fits) (λ _. byte-IsU64 h.is_uart.ier_fits)))
          λ _.
            Gives-if (offset == 2) _ _
              (λ _.
                Gives-bind _ _ uart_poll_rx-Keeps (λ _ _. Gives-reply read_iir read_iir-IsReply))
              λ _.
                Gives-if (offset == 3) _ _
                  (λ _. Gives-gets _ (λ m h. byte-IsU64 h.is_uart.lcr_fits))
                  λ _.
                    Gives-if (offset == 4) _ _
                      (λ _. Gives-gets _ (λ m h. byte-IsU64 h.is_uart.mcr_fits))
                      λ _.
                        Gives-if (offset == 5) _ _
                          (λ _.
                            Gives-bind _ _ uart_poll_rx-Keeps
                              (λ _ _. Gives-gets line_status (λ m h. line_status-fits m)))
                          λ _.
                            Gives-if (offset == 6) _ _ (λ _. Gives-pure _ (omega arith))
                              λ _.
                                Gives-if (offset == 7) _ _
                                  (λ _. Gives-gets _ (λ m h. byte-IsU64 h.is_uart.scr_fits))
                                  (λ _. Gives-pure _ (omega arith))

-- The byte registers, each given anew.
uart_bytes-IsMachine :
    (m : Machine) (lcr ier mcr scr dll dlh : ℕ) (thre : Bool)
    → IsMachine m
    → IsU8 lcr
    → IsU8 ier
    → IsU8 mcr
    → IsU8 scr
    → IsU8 dll
    → IsU8 dlh
    → IsMachine (record m {
      uart = record m.uart {
        lcr = lcr;
        ier = ier;
        mcr = mcr;
        scr = scr;
        dll = dll;
        dlh = dlh;
        thre_ip = thre;
      };
    })
uart_bytes-IsMachine m lcr ier mcr scr dll dlh thre h a b c d e f =
    set_uart-IsMachine m _ h (record {
      lcr_fits = a;
      ier_fits = b;
      mcr_fits = c;
      scr_fits = d;
      dll_fits = e;
      dlh_fits = f;
      rx_buf_fits = h.is_uart.rx_buf_fits;
    })

write_thr-IsMachine : (v : ℕ) (m : Machine) → IsU8 v → IsMachine m → IsMachine (write_thr v m)
unfolding write_thr
write_thr-IsMachine v m l h =
    let u = m.uart in
    let k = h.is_uart in
    if-elim IsMachine (has_flag u.lcr uart_lcr_dlab) _ _
      (λ _.
        uart_bytes-IsMachine m u.lcr u.ier u.mcr u.scr v u.dlh u.thre_ip h k.lcr_fits k.ier_fits
          k.mcr_fits k.scr_fits l k.dlh_fits)
      (λ _.
        notify_if-IsMachine (has_flag u.ier ier_thre_enable) _
          (uart_flags-IsMachine _ u.rx_ready true (set_output-IsMachine m (v ∷ m.output) h)))

write_ier-IsMachine : (v : ℕ) (m : Machine) → IsU8 v → IsMachine m → IsMachine (write_ier v m)
unfolding write_ier
write_ier-IsMachine v m l h =
    let u = m.uart in
    let k = h.is_uart in
    let stored = λ (thre : Bool).
      uart_bytes-IsMachine m u.lcr v u.mcr u.scr u.dll u.dlh thre h k.lcr_fits l k.mcr_fits
        k.scr_fits k.dll_fits k.dlh_fits in
    if-elim IsMachine (has_flag u.lcr uart_lcr_dlab) _ _
      (λ _.
        uart_bytes-IsMachine m u.lcr u.ier u.mcr u.scr u.dll v u.thre_ip h k.lcr_fits k.ier_fits
          k.mcr_fits k.scr_fits k.dll_fits l)
      λ _.
        if-elim IsMachine (has_flag v ier_thre_enable) _ _
          (λ _. plic_set_pending-IsMachine 1 _ (stored true))
          (λ _. notify_if-IsMachine (has_flag v ier_rda_enable && u.rx_ready) _ (stored u.thre_ip))

pub uart_write-IsMachine :
    (offset val : ℕ) (m : Machine) → IsMachine m → IsMachine (uart_write offset val m)
unfolding uart_write
uart_write-IsMachine offset val m h =
    let v = u8 (bit_and val 0xFF) in
    let l : IsU8 v = omega arith in
    let u = m.uart in
    let k = h.is_uart in
    if-elim IsMachine (offset == 0) _ _ (λ _. write_thr-IsMachine v m l h)
      λ _.
        if-elim IsMachine (offset == 1) _ _ (λ _. write_ier-IsMachine v m l h)
          λ _.
            if-elim IsMachine (offset == 2) _ _ (λ _. h)
              λ _.
                if-elim IsMachine (offset == 3) _ _
                  (λ _.
                    uart_bytes-IsMachine m v u.ier u.mcr u.scr u.dll u.dlh u.thre_ip h l k.ier_fits
                      k.mcr_fits k.scr_fits k.dll_fits k.dlh_fits)
                  λ _.
                    if-elim IsMachine (offset == 4) _ _
                      (λ _.
                        uart_bytes-IsMachine m u.lcr u.ier v u.scr u.dll u.dlh u.thre_ip h
                          k.lcr_fits k.ier_fits l k.scr_fits k.dll_fits k.dlh_fits)
                      λ _.
                        if-elim IsMachine (offset == 7) _ _
                          (λ _.
                            uart_bytes-IsMachine m u.lcr u.ier u.mcr v u.dll u.dlh u.thre_ip h
                              k.lcr_fits k.ier_fits k.mcr_fits l k.dll_fits k.dlh_fits)
                          (λ _. h)
