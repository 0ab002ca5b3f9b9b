-- ===== src/Parser.antt =====
-- fakernet_code/look_at_data/data_parser.c: the reader of saved CERES events. An open file is its
-- bytes, their number and the position; `fread` and `fseek` do what the C library says of them. A
-- failed `assert` ends the program. Allocation succeeds, and the time between events is left out.
pub mod Words
pub mod Index
pub mod Event
use fpga_tools.Prelude.{
  ℕ, zero, suc, ◌+◌, ◌-◌, ◌*◌, ◌/◌, ◌%◌, ◌^◌, Bool, true, false, ◌&&◌, ◌||◌, Option, none, some,
  List, [], ◌∷◌, ◌++◌, length, tabulate, if◌then◌else◌, ltb, leb, ◌==◌,
}
use fpga_tools.Prelude.{bit_and, bit_or, u16, u32, ◌<<<◌, ◌>>>◌, swap16, Memory, load32}

abbrev pub nchannels : ℕ
nchannels = 16

-- `TrigHeader`
pub record TrigHeader : Type 0 where
  pub magic_number : ℕ
  pub trig_number : ℕ
  pub clock : ℕ
  pub length : ℕ
  pub device_number : ℕ
  pub crc : ℕ

-- `FILE`
pub record File : Type 0 where
  pub contents : Memory
  pub size : ℕ
  pub position : ℕ

-- How a call ends: with the result -1, with a failed assertion, or with its value.
pub data Outcome {ℓ} (A : Type ℓ) : Type ℓ where
  failed : Outcome A
  aborted : Outcome A
  got : A → Outcome A

abbrev pub Action {ℓ} : Type ℓ → Type ℓ
Action A = File → Outcome A × File

infixl 5 ◌>>=◌ ◌>>◌
abbrev pub ◌>>=◌ : {A B : Type 0} → Action A → (A → Action B) → Action B
◌>>=◌ m f s =
    let (r, s') = m s in elim r [ failed ↦ (failed, s') | aborted ↦ (aborted, s') | got a ↦ f a s' ]

abbrev pub ◌>>◌ : {A B : Type 0} → Action A → Action B → Action B
m >> k = m >>= λ _. k

abbrev pub pure : {A : Type 0} → A → Action A
pure a s = (got a, s)

abbrev pub assert : Bool → Action (Unit {0})
assert b s = (if b then got tt else aborted, s)

-- `fread` of one item of `n` bytes, or of `n` bytes in items that fill them: the address of the
-- first byte. A read that is cut short ends at the end of the file.
unfoldable pub fread : ℕ → Action ℕ
fread n f =
    if leb (f.position + n) f.size
    then (got f.position, record f { position = f.position + n })
    else (failed, record f { position = if leb f.size f.position then f.position else f.size })

abbrev pub seek_set : ℕ → File → File
seek_set offset f = record f { position = offset }

abbrev pub seek_cur : ℕ → File → File
seek_cur offset f = record f { position = f.position + offset }

-- The contents of a file do not change; a read that succeeds gives their bytes.
abbrev pub load8 : Memory → ℕ → ℕ
load8 m p = m p

unfoldable pub load16 : Memory → ℕ → ℕ
load16 m p = m p + m (p + 1) * 2 ^ 8

unfoldable pub load64 : Memory → ℕ → ℕ
load64 m p = load32 m p + load32 m (p + 4) * 2 ^ 32

-- One item of `n` bytes, with the function that reads it from memory.
abbrev pub item : (Memory → ℕ → ℕ) → ℕ → Action ℕ
item load n f =
    let (r, f') = fread n f in
    (elim r [ failed ↦ failed | aborted ↦ aborted | got p ↦ got (load f.contents p) ], f')

unfoldable pub bswap16 : ℕ → ℕ
bswap16 a = u16 (bit_or (bit_and a 0x00FF <<< 8) (bit_and a 0xFF00 >>> 8))

unfoldable pub bswap32 : ℕ → ℕ
bswap32 a =
    bit_or
      (bit_or (bit_or (bit_and a 0x000000FF <<< 24) (bit_and a 0x0000FF00 <<< 8))
        (bit_and a 0x00FF0000 >>> 8))
      (bit_and a 0xFF000000 >>> 24)

unfoldable pub bswap64 : ℕ → ℕ
bswap64 a =
    bit_or
      (bit_or
        (bit_or
          (bit_or
            (bit_or
              (bit_or
                (bit_or (bit_and a 0x00000000000000FF <<< 56) (bit_and a 0x000000000000FF00 <<< 40))
                (bit_and a 0x0000000000FF0000 <<< 24))
              (bit_and a 0x00000000FF000000 <<< 8))
            (bit_and a 0x000000FF00000000 >>> 8))
          (bit_and a 0x0000FF0000000000 >>> 24))
        (bit_and a 0x00FF000000000000 >>> 40))
      (bit_and a 0xFF00000000000000 >>> 56)

unfoldable pub read_header : Action TrigHeader
read_header = do
  magic ← item load32 4
  trig ← item load32 4
  clock ← item load64 8
  length ← item load16 2
  device ← item load8 1
  crc ← item load8 1
  let header : TrigHeader = record {
    magic_number = bswap32 magic;
    trig_number = bswap32 trig;
    clock = bswap64 clock;
    length = swap16 length;
    device_number = device;
    crc = crc;
  }
  assert (header.magic_number == 0xFFFFFFFF)
  pure header

-- The bytes from the end of a header to the next one.
unfoldable pub bytes_forward : TrigHeader → ℕ
bytes_forward header = nchannels * (header.length * 2 * 2 + 4 + 4)

-- The loop of `count_events`; the result of the assertion is `aborted`, and `failed` is no fuel.
unfoldable pub count_loop : ℕ → ℕ → Action ℕ
count_loop zero count f = (failed, f)
count_loop (suc fuel) count f =
    let (r, f') = read_header f in
    elim r [
      | failed ↦ (got count, f')
      | aborted ↦ (aborted, f')
      | got header ↦ count_loop fuel (count + 1) (seek_cur (bytes_forward header) f')
    ]

-- Each round takes twenty bytes at least.
unfoldable pub count_events : Action ℕ
count_events f =
    let (r, f') = count_loop (f.size / 20 + 1) 0 (seek_set 0 f) in (r, seek_set f.position f')

-- `EventIndex`
pub record EventIndex : Type 0 where
  pub locations : List ℕ
  pub nsamples : List ℕ
  pub nevents : ℕ

unfoldable pub index_loop : ℕ → ℕ → EventIndex → Action EventIndex
index_loop zero max_counts index f = (failed, f)
index_loop (suc fuel) max_counts index f =
    let (r, f') = read_header f in
    elim r [
      | failed ↦ (got index, f')
      | aborted ↦ (aborted, f')
      | got header ↦ elim (max_counts == 0 || ltb index.nevents max_counts) [
        | false ↦ (got index, f')
        | true ↦
            index_loop fuel max_counts
              (record {
                locations = index.locations ++ (f'.position - 20) ∷ [];
                nsamples = index.nsamples ++ header.length * 2 ∷ [];
                nevents = index.nevents + 1;
              })
              (seek_cur (bytes_forward header) f')
      ]
    ]

unfoldable pub get_events_index : ℕ → Action EventIndex
get_events_index max_counts f =
    let (counted, f₁) = count_events f in
    elim counted [
      | failed ↦ (failed, f₁)
      | aborted ↦ (aborted, f₁)
      | got nevents ↦
          (let (r, f₂) =
              index_loop (f.size / 20 + 1) max_counts
                (record { locations = []; nsamples = []; nevents = 0 }) (seek_set 0 f₁) in
            (r, seek_set f.position f₂))
    ]

-- One channel of `read_event`: its header, its samples with their bytes swapped, and its CRC.
unfoldable pub read_channel : ℕ → ℕ → Action (List ℕ)
read_channel nsamples i f =
    (do
      reserved1 ← item load8 1
      channel_id1 ← item load8 1
      reserved2 ← item load8 1
      channel_id2 ← item load8 1
      assert (channel_id1 == channel_id2)
      assert (channel_id1 == i)
      assert (reserved1 == reserved2)
      assert (reserved1 == 0xFF)
      p ← fread (2 * nsamples)
      crc ← item load32 4
      pure (tabulate nsamples (λ j. bswap16 (load16 f.contents (p + 2 * j)))))
      f

-- The channels from `i` on, `left` of them.
unfoldable pub read_channels : ℕ → ℕ → ℕ → List ℕ → Action (List ℕ)
read_channels nsamples zero i samples f = (got samples, f)
read_channels nsamples (suc left) i samples f =
    let (r, f') = read_channel nsamples i f in
    elim r [
      | failed ↦ (failed, f')
      | aborted ↦ (aborted, f')
      | got channel ↦ read_channels nsamples left (i + 1) (samples ++ channel) f'
    ]

-- `nsamples` is a `uint16_t`.
unfoldable pub read_event : ℕ → Action (List ℕ)
read_event nsamples f = read_channels (u16 nsamples) nchannels 0 [] f

-- The number of samples of a channel, the samples and the header; on an error the file stays where
-- the error left it.
unfoldable pub get_event : ℕ → Action (ℕ × List ℕ × TrigHeader)
get_event offset f =
    let initial_position = f.position in
    let (r, f₁) = read_header (seek_set offset f) in
    elim r [
      | failed ↦ (failed, f₁)
      | aborted ↦ (aborted, f₁)
      | got header ↦
          (let (s, f₂) = read_event (header.length * 2) f₁ in
            elim s [
              | failed ↦ (failed, f₂)
              | aborted ↦ (aborted, f₂)
              | got samples ↦
                  (got (header.length * 2, samples, header), seek_set initial_position f₂)
            ])
    ]
