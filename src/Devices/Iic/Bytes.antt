-- ===== src/Devices/Iic/Bytes.antt =====
-- The bytes that a transaction on a register sends, and how it ends.
use fpga_tools.Prelude.{
  ℕ, zero, suc, ◌+◌, ◌*◌, ◌/◌, ◌%◌, ◌^◌, ◌≡◌, refl, ap, ◌∙◌, sym, arith, false, ◌≤◌, ◌<◌, List, [],
  ◌∷◌, ◌++◌, bit_or, bit_and, bit_and_low, bit_and_shifted, bit_or_low_shifted, ◌==◌, if◌then◌else◌,
}
use native.Mathlib.Nat.{mod-add-div, div-div-eq-div-mul, pow-suc}
use fpga_tools.Trigger.{Bus}
use fpga_tools.Devices.{Driver, or_fail, pure, minus_one, write_register}
use fpga_tools.Devices.Trace.{
  write_all, write_all-append, Accepts, or_fail_accepted, or_fail_failed,
}
use fpga_tools.Devices.Iic.{
  AxiIic, iic_write, iic_cr_offset, iic_tx_fifo_offset, iic_pirq_offset, addr_byte, value_byte,
  write_address, write_value, start_transaction, write_iic_bus_with_reg,
}

-- Byte `i` of a number, counted from the lowest.
abbrev pub byte_at : ℕ → ℕ → ℕ
byte_at n i = n / 2 ^ (i * 8) % 256

-- The writes of the bytes of an address and of a value, the top byte first; the last byte of a value has
-- the STOP bit, 2 ^ 9.
unfoldable pub address_writes : ℕ → ℕ → List (ℕ × ℕ)
address_writes reg_addr zero = []
address_writes reg_addr (suc i) =
    (iic_tx_fifo_offset, byte_at reg_addr i) ∷ address_writes reg_addr i

unfoldable pub value_writes : ℕ → ℕ → List (ℕ × ℕ)
value_writes reg_value zero = []
value_writes reg_value (suc i) =
    (iic_tx_fifo_offset, byte_at reg_value i + (if i == 0 then 2 ^ 9 else 0))
    ∷ value_writes reg_value i

addr_byte_lem : (reg_addr i : ℕ) → i < 4 → addr_byte reg_addr i ≡ byte_at reg_addr i
unfolding addr_byte
addr_byte_lem r zero small = omega (arith, bit_and_shifted 0 r 255, bit_and_low 8 r)
addr_byte_lem r (suc zero) small = omega (arith, bit_and_shifted 8 r 255, bit_and_low 8 (r / 2 ^ 8))
addr_byte_lem r (suc (suc zero)) small =
    omega (arith, bit_and_shifted 16 r 255, bit_and_low 8 (r / 2 ^ 16))
addr_byte_lem r (suc (suc (suc zero))) small =
    omega (arith, bit_and_shifted 24 r 255, bit_and_low 8 (r / 2 ^ 24))
addr_byte_lem r (suc (suc (suc (suc i)))) small = absurd (omega arith)

value_byte_lem :
    (reg_value i : ℕ) → value_byte reg_value i ≡ byte_at reg_value i + (if i == 0 then 2 ^ 9 else 0)
unfolding value_byte
value_byte_lem reg_value i = ground (
  arith,
  bit_and_low 8 (reg_value / 2 ^ (i * 8)),
  bit_or_low_shifted 9 (reg_value / 2 ^ (i * 8) % 2 ^ 8) 1 (omega arith),
)

abbrev pub start_writes : ℕ → List (ℕ × ℕ)
start_writes iic_addr =
    (iic_pirq_offset, 0xF)
    ∷ (iic_cr_offset, 0x2)
    ∷ (iic_cr_offset, 0x0)
    ∷ (iic_tx_fifo_offset, bit_or (bit_and iic_addr 0xFE) (2 ^ 8))
    ∷ []

module _ (bus : Bus) (iic : AxiIic) (accepts : Accepts bus) where
  write_address-all :
      (reg_addr n : ℕ) (next : Driver bus.State ℕ) (s : bus.State)
      → n ≤ 4
      → write_address bus iic reg_addr n next s
        ≡ next (write_all bus iic.axi_addr (address_writes reg_addr n) s)
  unfolding write_address iic_write write_all address_writes
  write_address-all reg_addr zero next s small = refl
  write_address-all reg_addr (suc i) next s small =
      or_fail_accepted bus iic.axi_addr 0 iic_tx_fifo_offset (addr_byte reg_addr i)
        (write_address bus iic reg_addr i next) s accepts
      ∙ write_address-all reg_addr i next _ (omega arith)
      ∙ ap
          (λ byte. next (
            write_all bus iic.axi_addr (address_writes reg_addr i)
              (bus.write_addr iic.axi_addr iic_tx_fifo_offset byte s).1))
          (addr_byte_lem reg_addr i (omega arith))

  write_value-all :
      (reg_value n : ℕ) (next : Driver bus.State ℕ) (s : bus.State)
      → write_value bus iic reg_value n next s
        ≡ next (write_all bus iic.axi_addr (value_writes reg_value n) s)
  unfolding write_value iic_write write_all value_writes
  write_value-all reg_value zero next s = refl
  write_value-all reg_value (suc i) next s =
      or_fail_accepted bus iic.axi_addr minus_one iic_tx_fifo_offset (value_byte reg_value i)
        (write_value bus iic reg_value i next) s accepts
      ∙ write_value-all reg_value i next _
      ∙ ap
          (λ byte. next (
            write_all bus iic.axi_addr (value_writes reg_value i)
              (bus.write_addr iic.axi_addr iic_tx_fifo_offset byte s).1))
          (value_byte_lem reg_value i)

  start_transaction-all :
      (error iic_addr : ℕ) (next : Driver bus.State ℕ) (s : bus.State)
      → start_transaction bus iic error iic_addr next s
        ≡ next (write_all bus iic.axi_addr (start_writes iic_addr) s)
  unfolding start_transaction iic_write write_register or_fail write_all
  start_transaction-all error iic_addr next s = simp accepts refl

  -- On a bus whose writes work, and for register addresses of at most four bytes,
  -- write_iic_bus_with_reg returns 0 and makes these writes in this order: the reset of the
  -- controller, the address of the chip, the base-256 digits of the register's address and those
  -- of the value, each with the top one first and 2 ^ 9 added to the value's last, and the start
  -- of the transfer.
  pub write_iic_bus_with_reg_lem :
      (iic_addr reg_addr reg_value : ℕ) (s : bus.State)
      → iic.reg_addr_size ≤ 4
      → write_iic_bus_with_reg bus iic iic_addr reg_addr reg_value s ≡ (
        0,
        write_all bus iic.axi_addr
            (start_writes iic_addr
              ++ address_writes reg_addr iic.reg_addr_size
              ++ value_writes reg_value iic.data_size
              ++ ((iic_cr_offset, 0x1) ∷ []))
            s,
      )
  unfolding write_iic_bus_with_reg iic_write write_all
  write_iic_bus_with_reg_lem iic_addr reg_addr reg_value s small =
      start_transaction-all minus_one iic_addr send_address s
      ∙ write_address-all reg_addr iic.reg_addr_size send_value (run started s) small
      ∙ write_value-all reg_value iic.data_size finish (run address (run started s))
      ∙ or_fail_accepted bus iic.axi_addr minus_one iic_cr_offset 0x1 (pure 0) _ accepts
      ∙ ap (λ s'. (0, run last s'))
          (ap (run values) (sym (write_all-append bus iic.axi_addr started address s))
            ∙ sym (write_all-append bus iic.axi_addr (started ++ address) values s))
      ∙ ap (λ s'. (0, s'))
          (sym (write_all-append bus iic.axi_addr (started ++ address ++ values) last s))
    where
      finish : Driver bus.State ℕ
      finish = or_fail minus_one (iic_write bus iic iic_cr_offset 0x1) (pure 0)

      send_value : Driver bus.State ℕ
      send_value = write_value bus iic reg_value iic.data_size finish

      send_address : Driver bus.State ℕ
      send_address = write_address bus iic reg_addr iic.reg_addr_size send_value

      run : List (ℕ × ℕ) → bus.State → bus.State
      run = write_all bus iic.axi_addr

      started : List (ℕ × ℕ)
      started = start_writes iic_addr

      address : List (ℕ × ℕ)
      address = address_writes reg_addr iic.reg_addr_size

      values : List (ℕ × ℕ)
      values = value_writes reg_value iic.data_size

      last : List (ℕ × ℕ)
      last = (iic_cr_offset, 0x1) ∷ []

-- The bytes that are sent are those of the value: read back with the top byte first and without the STOP
-- bit, the `n` bytes give the value modulo 2 ^ (8 * n).
unfoldable pub received : ℕ → List (ℕ × ℕ) → ℕ
received acc [] = acc
received acc ((offset, byte) ∷ writes) = received (acc * 2 ^ 8 + byte % 2 ^ 8) writes

byte_at-mod :
    (reg_value i : ℕ)
    → (byte_at reg_value i + (if i == 0 then 2 ^ 9 else 0)) % 2 ^ 8
      ≡ reg_value / 2 ^ (i * 8) % 2 ^ 8
byte_at-mod reg_value i = ground arith

mod_split : (v p : ℕ) → v % (p * 2 ^ 8) ≡ v / p % 2 ^ 8 * p + v % p
mod_split v p = grind (
  arith,
  mod-add-div v p,
  mod-add-div v (p * 2 ^ 8),
  div-div-eq-div-mul v p (2 ^ 8),
  ap (λ t. p * t) (mod-add-div (v / p) (2 ^ 8)),
)

gather : (acc d p r : ℕ) → (acc * 2 ^ 8 + d) * p + r ≡ acc * (p * 2 ^ 8) + (d * p + r)
gather acc d p r = grind arith

eight_more : (i : ℕ) → 2 ^ (suc i * 8) ≡ 2 ^ (i * 8) * 2 ^ 8
eight_more i =
    ap (λ n. 2 ^ n) {x = suc i * 8} {y = suc (suc (suc (suc (suc (suc (suc (suc (i * 8))))))))}
      (omega arith)
    ∙ omega (
      arith,
      pow-suc 2 (i * 8),
      pow-suc 2 (suc (i * 8)),
      pow-suc 2 (suc (suc (i * 8))),
      pow-suc 2 (suc (suc (suc (i * 8)))),
      pow-suc 2 (suc (suc (suc (suc (i * 8))))),
      pow-suc 2 (suc (suc (suc (suc (suc (i * 8)))))),
      pow-suc 2 (suc (suc (suc (suc (suc (suc (i * 8))))))),
      pow-suc 2 (suc (suc (suc (suc (suc (suc (suc (i * 8)))))))),
    )

-- The bytes that write_iic_bus_with_reg sends for the value, put together with the top byte first
-- and without the STOP bit behind what was received before, give the value modulo 2 ^ 8 to their
-- number.
pub received-value_writes :
    (reg_value n acc : ℕ)
    → received acc (value_writes reg_value n) ≡ acc * 2 ^ (n * 8) + reg_value % 2 ^ (n * 8)
unfolding received value_writes
received-value_writes reg_value zero acc = omega arith
received-value_writes reg_value (suc i) acc =
    received-value_writes reg_value i _
    ∙ rw (byte_at-mod reg_value i, eight_more i, mod_split reg_value (2 ^ (i * 8)))
        (gather acc (reg_value / 2 ^ (i * 8) % 2 ^ 8) (2 ^ (i * 8)) (reg_value % 2 ^ (i * 8)))

-- If a transaction starts, but the write of the top byte of the register's address fails,
-- write_iic_bus_with_reg returns 0, as after a success, though it stops there.
pub write_iic_bus_with_reg_unsent :
    (bus : Bus) (iic : AxiIic) (iic_addr reg_addr reg_value i code : ℕ) (s started : bus.State)
    → iic.reg_addr_size ≡ suc i
    → ((next : Driver bus.State ℕ)
        → start_transaction bus iic minus_one iic_addr next s ≡ next started)
    → (bus.write_addr iic.axi_addr iic_tx_fifo_offset (addr_byte reg_addr i) started).0 ≡ code
    → (code == 0) ≡ false
    → write_iic_bus_with_reg bus iic iic_addr reg_addr reg_value s
      ≡ (0, (bus.write_addr iic.axi_addr iic_tx_fifo_offset (addr_byte reg_addr i) started).1)
unfolding write_iic_bus_with_reg write_address iic_write
write_iic_bus_with_reg_unsent bus iic iic_addr reg_addr reg_value i code s started size starts fails
      nonzero =
    starts (write_address bus iic reg_addr iic.reg_addr_size send_value)
    ∙ ap (λ n. write_address bus iic reg_addr n send_value started) size
    ∙ or_fail_failed bus iic.axi_addr 0 iic_tx_fifo_offset (addr_byte reg_addr i) code
        (write_address bus iic reg_addr i send_value) started fails nonzero
  where
    send_value : Driver bus.State ℕ
    send_value =
        write_value bus iic reg_value iic.data_size
          (or_fail minus_one (iic_write bus iic iic_cr_offset 0x1) (pure 0))
