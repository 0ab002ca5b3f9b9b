-- ===== src/Tests/Server.antt =====
-- The servers with a network that is an array of registers.
use fpga_tools.Prelude.{
  ℕ, ◌+◌, ◌-◌, ◌^◌, ◌<◌, ◌≡◌, ◌==◌, ap, ap₂, ◌∙◌, refl, Bool, true, false, Option, none, some, [],
  ◌∷◌, if◌then◌else◌, arith, leb, u32, swap32,
}
use native.Mathlib.Nat.{mod-lt}
use text.Mathlib.Text as Text
use fpga_tools.Commands.{Args}
use fpga_tools.Server.{Fnet, double_read_addr, write_addr}
use fpga_tools.Server.Kintex as Kintex
use fpga_tools.Server.Latency.{HasOneReadLatency, swap32_involutive, double_read_addr-write_addr}
use fpga_tools.Server.Active.{choose_xems}
use fpga_tools.Server.Active.Chosen.{IsRight, choose_xems-IsRight}
use fpga_tools.Server.Call.{Strings}
use fpga_tools.Server.Single.{fontus_server, single_ceres_server}
use fpga_tools.Server.Frames.Single.{single_servers-AreItems}
use fpga_tools.Server.Memory.{ceres_server_ignores}
use fpga_tools.Server.Process.{ceres_server}
use fpga_tools.Server.Frames.{AreItems}
use fpga_tools.Server.Frames.Table.{ceres_server-AreItems}

-- The registers, and what the last read found.
board_answers : ℕ → ℕ → (ℕ → ℕ) × ℕ → (Option ℕ × ℕ) × ((ℕ → ℕ) × ℕ)
board_answers addr word (registers, found) =
    if leb (2 ^ 31) addr
    then ((some 1, 0), ((λ (b : ℕ). if addr - 2 ^ 31 == b then word else registers b), found))
    else ((some 1, swap32 (u32 found)), (registers, registers (addr - 2 ^ 29)))

abbrev board : Fnet
board = record {
  State = (ℕ → ℕ) × ℕ;
  send_recv_regacc = λ client addr word s. board_answers (swap32 addr) (swap32 word) s;
}

on_read :
    (a word : ℕ) (s : (ℕ → ℕ) × ℕ)
    → a < 2 ^ 26
    → board_answers (2 ^ 29 + a) word s ≡ ((some 1, swap32 (u32 s.1)), (s.0, s.0 a))
unfolding board_answers
on_read a word s below =
    let reads : leb (2 ^ 31) (2 ^ 29 + a) ≡ false = ground arith in
    let place : 2 ^ 29 + a - 2 ^ 29 ≡ a = omega arith in ground (arith, reads, ap s.0 place)

on_write :
    (a word : ℕ) (s : (ℕ → ℕ) × ℕ)
    → a < 2 ^ 26
    → board_answers (2 ^ 31 + a) word s
      ≡ ((some 1, 0), ((λ (b : ℕ). if a == b then word else s.0 b), s.1))
unfolding board_answers
on_write a word s below =
    let writes : leb (2 ^ 31) (2 ^ 31 + a) ≡ true = ground arith in
    let place : 2 ^ 31 + a - 2 ^ 31 ≡ a = omega arith in
    ap
      (λ (b : Bool).
        if b
        then ((some 1, 0), ((λ (b : ℕ). if 2 ^ 31 + a - 2 ^ 31 == b then word else s.0 b), s.1))
        else ((some 1, swap32 (u32 s.1)), (s.0, s.0 (2 ^ 31 + a - 2 ^ 29))))
      writes
    ∙ ap (λ (t : ℕ). ((some 1, 0), ((λ (b : ℕ). if t == b then word else s.0 b), s.1))) place

board_at_read :
    (a : ℕ) (s : (ℕ → ℕ) × ℕ)
    → a < 2 ^ 26
    → board.send_recv_regacc (some 0) (swap32 (2 ^ 29 + a)) 0 s
      ≡ ((some 1, swap32 (u32 s.1)), (s.0, s.0 a))
board_at_read a s below =
    ap (λ w. board_answers w (swap32 0) s) (swap32_involutive (2 ^ 29 + a) (omega arith))
    ∙ on_read a (swap32 0) s below

board_at_write :
    (a d : ℕ) (s : (ℕ → ℕ) × ℕ)
    → a < 2 ^ 26
    → d < 2 ^ 32
    → board.send_recv_regacc (some 0) (swap32 (2 ^ 31 + a)) (swap32 d) s
      ≡ ((some 1, 0), ((λ (b : ℕ). if a == b then d else s.0 b), s.1))
board_at_write a d s below word =
    ap₂ (λ w e. board_answers w e s) (swap32_involutive (2 ^ 31 + a) (omega arith))
      (swap32_involutive d word)
    ∙ on_write a d s below

board-HasOneReadLatency : HasOneReadLatency board (some 0)
board-HasOneReadLatency = record {
  register = λ s a. u32 (s.0 a);
  found = λ s. u32 s.1;
  read_answers = λ a s below. ap (λ r. r.0) (board_at_read a s below);
  read_finds = λ a s below. ap (λ r. u32 r.1.1) (board_at_read a s below);
  write_answers = λ a d s below word. ap (λ r. r.0.0) (board_at_write a d s below word);
  write_sets =
      λ a d s below word. ap (λ r. u32 (r.1.0 a)) (board_at_write a d s below word) ∙ ground arith;
  write_keeps = λ a b d s below word ne.
      ap (λ r. u32 (r.1.0 b)) (board_at_write a d s below word) ∙ ground arith;
  holds_words = λ s. mod-lt s.1 {m = 2 ^ 32} (omega arith);
}

-- All registers are 0.
abbrev blank : (ℕ → ℕ) × ℕ
blank = ((λ (b : ℕ). 0), 0)

double_read_addr-write_addr_example :
    let written = write_addr board false 0x400000 8 77 (some 0, blank) in
    (written.0 ≡ 0)
    × ((double_read_addr board false 0x400000 0x400000 8 written.1).0 ≡ some 77)
    × ((Kintex.double_read_addr board false 0x400000 0x400000 8 written.1).0 ≡ some 77)
double_read_addr-write_addr_example =
    double_read_addr-write_addr board (some 0) board-HasOneReadLatency 0x400000 0x400000 8 0x400000
      8 77 blank (omega arith)

choose_xems-IsRight_example :
    IsRight false (λ i. some i) 0x50 (choose_xems false (λ i. some i) 0x50)
choose_xems-IsRight_example = choose_xems-IsRight false (λ i. some i) 0x50

abbrev strings : Strings
strings = record {
  strtoul = λ word. 0;
  strtol = λ word. none;
  string2ll = λ word. none;
  strcasecmp = λ a b. Text.◌==◌ a b;
}

abbrev memory : ℕ → Args
memory i j = 0

ceres_server-AreItems_example :
    AreItems 1
      (ceres_server strings board false
        (λ i. some i)
        memory
        3
        ("get_available_xems" ∷ [])
        (none, (none, (none, blank)))).0
ceres_server-AreItems_example =
    ceres_server-AreItems strings board false (λ i. some i) memory 3 "get_available_xems" []
      (none, (none, (none, blank))) refl

-- Other memory.
abbrev memory' : ℕ → Args
memory' i j = i + j

ceres_server_ignores_example :
    ceres_server strings board false
      (λ i. some i)
      memory
      3
      ("jesd_error_count" ∷ "0" ∷ [])
      (some 5, (none, (none, blank)))
    ≡ ceres_server strings board false
        (λ i. some i)
        memory'
        3
        ("jesd_error_count" ∷ "0" ∷ [])
        (some 5, (none, (none, blank)))
ceres_server_ignores_example =
    ceres_server_ignores strings board false (λ i. some i) memory memory' 3
      ("jesd_error_count" ∷ "0" ∷ []) (some 5, (none, (none, blank)))

single_servers-AreItems_example :
    AreItems 1
      (fontus_server strings board false
        (memory 0)
        (λ word. word)
        0
        ("add_to_trigger_mask_hr" ∷ "0" ∷ "INNER" ∷ "MULT" ∷ "0" ∷ [])
        (none, (some 0, blank))).0
    × AreItems 1
        (single_ceres_server strings board false
          (memory 0)
          3
          ("add_to_trigger_mask_hr" ∷ "0" ∷ "INNER" ∷ "MULT" ∷ "0" ∷ [])
          (none, (some 0, blank))).0
single_servers-AreItems_example =
    single_servers-AreItems strings board false (memory 0) (λ word. word) 0 3
      "add_to_trigger_mask_hr" ("0" ∷ "INNER" ∷ "MULT" ∷ "0" ∷ []) (none, (some 0, blank))
      (none, (some 0, blank)) refl
