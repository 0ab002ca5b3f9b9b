-- ===== src/Prelude/Store.antt =====
-- Byte-addressed memory: a function from addresses to bytes, on a little-endian host.
use Prim.Native.Nat.{ℕ, zero, suc, ◌+◌, ◌*◌, ◌/◌, ◌%◌, ◌^◌, ◌≤◌, ◌<◌}
use mathlib.Core.Path.{◌≡◌, refl}
use mathlib.Core.Logic.{◌⊎◌}
use mathlib.Core.List.{List, [], ◌∷◌}
use native.Mathlib.Omega.{arith}
use fpga_tools.Prelude.Tests.{◌==◌, if◌then◌else◌}
use fpga_tools.Prelude.Lists.{length, get_or}

abbrev pub Memory : Type 0
Memory = ℕ → ℕ

unfoldable pub store8 : Memory → ℕ → ℕ → Memory
store8 m p v q = if q == p then v else m q

unfoldable pub store_bytes : Memory → ℕ → List ℕ → Memory
unfolding store8
store_bytes m p [] = m
store_bytes m p (b ∷ bs) = store_bytes (store8 m p b) (p + 1) bs

-- `*(uint32_t*)(m + p)` on a little-endian host.
unfoldable pub load32 : Memory → ℕ → ℕ
load32 m p = m p + m (p + 1) * 2 ^ 8 + m (p + 2) * 2 ^ 16 + m (p + 3) * 2 ^ 24

-- The four bytes of a word, lowest address first.
abbrev pub bytes32 : ℕ → List ℕ
bytes32 w = w % 256 ∷ w / 2 ^ 8 % 256 ∷ w / 2 ^ 16 % 256 ∷ w / 2 ^ 24 % 256 ∷ []

-- `*(uint32_t*)(m + p) = w`
unfoldable pub store32 : Memory → ℕ → ℕ → Memory
unfolding store_bytes
store32 m p w = store_bytes m p (bytes32 w)

unfoldable pub store16 : Memory → ℕ → ℕ → Memory
unfolding store_bytes
store16 m p w = store_bytes m p (w % 256 ∷ w / 2 ^ 8 % 256 ∷ [])

unfoldable pub store64 : Memory → ℕ → ℕ → Memory
unfolding store_bytes
store64 m p w = store_bytes (store_bytes m p (bytes32 w)) (p + 4) (bytes32 (w / 2 ^ 32))

pub store_bytes-outside :
    (m : Memory) (p : ℕ) (bs : List ℕ) (q : ℕ)
    → (q < p) ⊎ (p + length bs ≤ q)
    → store_bytes m p bs q ≡ m q
unfolding store_bytes
store_bytes-outside m p [] q h = refl
store_bytes-outside m p (b ∷ bs) q h =
    ground (arith, store_bytes-outside (store8 m p b) (p + 1) bs q)

pub store_bytes-inside :
    (m : Memory) (p : ℕ) (bs : List ℕ) (i : ℕ)
    → i < length bs
    → store_bytes m p bs (p + i) ≡ get_or bs i 0
unfolding store_bytes
store_bytes-inside m p [] i h = absurd (omega arith)
store_bytes-inside m p (b ∷ bs) zero h =
    ground (arith, store_bytes-outside (store8 m p b) (p + 1) bs (p + 0))
store_bytes-inside m p (b ∷ bs) (suc i) h =
    ground (arith, store_bytes-inside (store8 m p b) (p + 1) bs i)
