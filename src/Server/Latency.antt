-- ===== src/Server/Latency.antt =====
-- Double reads of fakernet_code/ceres_server.c and kintex_client_server.c on an interface of the FPGA that
-- answers each read with what the read before it found.
use fpga_tools.Prelude.{
  ℕ, ◌+◌, ◌%◌, ◌^◌, ◌<◌, ◌≡◌, ◌≢◌, ap, ◌∙◌, arith, Option, some, false, u32, swap32, bit_or_shifted,
  bit_and_low, bit_or, bit_and, ◌==◌, if◌then◌else◌,
}
use native.Mathlib.Nat.{mod-lt}
use fpga_tools.Server.{
  Fnet, FnetState, request, read_addr, double_read_addr, write_addr, fakernet_reg_access_addr_read,
  fakernet_reg_access_addr_write, address_mask,
}
use fpga_tools.Server.Kintex as Kintex

-- The 26 bits of an address that reach the board.
abbrev pub wire : ℕ → ℕ
wire addr = u32 addr % 2 ^ 26

-- What the firmware does, by the comment at `double_read_addr`: a read answers what the read before it
-- found, and finds what its register holds; a write changes its register alone.
pub record HasOneReadLatency (fnet : Fnet) (client : Option ℕ) : Type 0 where
  pub register : fnet.State → ℕ → ℕ
  pub found : fnet.State → ℕ
  pub read_answers :
      (a : ℕ) (s : fnet.State)
      → a < 2 ^ 26
      → (fnet.send_recv_regacc client (swap32 (2 ^ 29 + a)) 0 s).0 ≡ (some 1, swap32 (found s))
  pub read_finds :
      (a : ℕ) (s : fnet.State)
      → a < 2 ^ 26
      → found (fnet.send_recv_regacc client (swap32 (2 ^ 29 + a)) 0 s).1 ≡ register s a
  pub write_answers :
      (a d : ℕ) (s : fnet.State)
      → a < 2 ^ 26
      → d < 2 ^ 32
      → (fnet.send_recv_regacc client (swap32 (2 ^ 31 + a)) (swap32 d) s).0.0 ≡ some 1
  pub write_sets :
      (a d : ℕ) (s : fnet.State)
      → a < 2 ^ 26
      → d < 2 ^ 32
      → register (fnet.send_recv_regacc client (swap32 (2 ^ 31 + a)) (swap32 d) s).1 a ≡ d
  pub write_keeps :
      (a b d : ℕ) (s : fnet.State)
      → a < 2 ^ 26
      → d < 2 ^ 32
      → a ≢ b
      → register (fnet.send_recv_regacc client (swap32 (2 ^ 31 + a)) (swap32 d) s).1 b
        ≡ register s b
  pub holds_words : (s : fnet.State) → found s < 2 ^ 32

pub swap32_involutive : (w : ℕ) → w < 2 ^ 32 → swap32 (swap32 w) ≡ w
unfolding swap32
swap32_involutive w below = omega arith

wire_below : (addr : ℕ) → wire addr < 2 ^ 26
wire_below addr = mod-lt (u32 addr) {m = 2 ^ 26} (omega arith)

-- The words that are sent.
read_word :
    (addr : ℕ)
    → bit_or fakernet_reg_access_addr_read (bit_and (u32 addr) address_mask) ≡ 2 ^ 29 + wire addr
read_word addr =
    ground (arith, bit_and_low 26 (u32 addr), bit_or_shifted 26 8 (wire addr), wire_below addr)

write_word :
    (addr : ℕ)
    → bit_or fakernet_reg_access_addr_write (bit_and (u32 addr) address_mask) ≡ 2 ^ 31 + wire addr
write_word addr =
    ground (arith, bit_and_low 26 (u32 addr), bit_or_shifted 26 32 (wire addr), wire_below addr)

module _ (fnet : Fnet) (client : Option ℕ) (fpga : HasOneReadLatency fnet client) where
  after_read : ℕ → fnet.State → fnet.State
  after_read a s = (fnet.send_recv_regacc client (swap32 (2 ^ 29 + a)) 0 s).1

  read_request :
      (addr : ℕ) (s : fnet.State)
      → request fnet fakernet_reg_access_addr_read addr 0 (client, s)
        ≡ ((some 1, swap32 (fpga.found s)), (client, after_read (wire addr) s))
  unfolding request after_read swap32
  read_request addr s =
      ap
        (λ (w : ℕ).
          let (answer, s') = fnet.send_recv_regacc client (swap32 w) 0 s in (answer, (client, s')))
        (read_word addr)
      ∙ ap (λ (answer : Option ℕ × ℕ). (answer, (client, after_read (wire addr) s)))
          (fpga.read_answers (wire addr) s (wire_below addr))

  read_of :
      (base addr : ℕ) (s : fnet.State)
      → read_addr fnet false base addr (client, s)
        ≡ (some (fpga.found s), (client, after_read (wire (base + addr)) s))
  unfolding read_addr
  read_of base addr s =
      ground
        (arith, read_request (base + addr) s, swap32_involutive (fpga.found s) (fpga.holds_words s))

  kintex_read_of :
      (base addr : ℕ) (s : fnet.State)
      → Kintex.read_addr fnet false base addr (client, s)
        ≡ (some (fpga.found s), (client, after_read (wire (base + addr)) s))
  unfolding Kintex.read_addr
  kintex_read_of base addr s =
      ground
        (arith, read_request (base + addr) s, swap32_involutive (fpga.found s) (fpga.holds_words s))

  -- A double read answers what the register holds.
  double_read :
      (safe_read_address base addr : ℕ) (s : fnet.State)
      → ((double_read_addr fnet false safe_read_address base addr (client, s)).0
          ≡ some (fpga.register s (wire (base + addr))))
        × ((Kintex.double_read_addr fnet false safe_read_address base addr (client, s)).0
            ≡ some (fpga.register s (wire (base + addr))))
  unfolding double_read_addr Kintex.double_read_addr after_read
  double_read safe_read_address base addr s =
      let s' = after_read (wire (base + addr)) s in
      let finds = fpga.read_finds (wire (base + addr)) s (wire_below (base + addr)) in
      (
        ground (arith, read_of base addr s, read_of safe_read_address 0 s', finds),
        ground (arith, kintex_read_of base addr s, kintex_read_of safe_read_address 0 s', finds),
      )

  after_write : ℕ → ℕ → fnet.State → fnet.State
  after_write a d s = (fnet.send_recv_regacc client (swap32 (2 ^ 31 + a)) (swap32 d) s).1

  write_of :
      (base o d : ℕ) (s : fnet.State)
      → d < 2 ^ 32
      → write_addr fnet false base o d (client, s)
        ≡ (0, (client, after_write (wire (base + o)) d s))
  unfolding write_addr request after_write
  write_of base o d s below =
      let swapped : o + base ≡ base + o = omega arith in
      ground (
        arith,
        swapped,
        write_word (base + o),
        fpga.write_answers (wire (base + o)) d s (wire_below (base + o)) below,
      )

  -- On an FPGA whose reads answer what the read before them found, and outside dummy mode: after
  -- the write of a 32-bit word, which returns 0, a double read of an address with the same 26 low
  -- bits gives that word, and a double read of any other address gives what it gave before; with
  -- the read functions of both servers.
  pub double_read_addr-write_addr :
      (safe_read_address base o base' o' d : ℕ) (s : fnet.State)
      → d < 2 ^ 32
      → let written = write_addr fnet false base o d (client, s) in
        let read = λ (after : FnetState fnet).
          (double_read_addr fnet false safe_read_address base' o' after).0 in
        let kintex_read = λ (after : FnetState fnet).
          (Kintex.double_read_addr fnet false safe_read_address base' o' after).0 in
        let same = wire (base' + o') == wire (base + o) in
        (written.0 ≡ 0)
        × (read written.1 ≡ (if same then some d else read (client, s)))
        × (kintex_read written.1 ≡ (if same then some d else kintex_read (client, s)))
  unfolding after_write
  double_read_addr-write_addr safe_read_address base o base' o' d s below =
      let a = wire (base + o) in
      let b = wire (base' + o') in
      let s' = after_write a d s in
      let now = double_read safe_read_address base' o' s' in
      let before = double_read safe_read_address base' o' s in
      let sets = fpga.write_sets a d s (wire_below (base + o)) below in
      let keeps = fpga.write_keeps a b d s (wire_below (base + o)) below in
      ground (arith, write_of base o d s below, now.0, now.1, before.0, before.1, sets, keeps)
