-- ===== src/Parser/Event.antt =====
-- What `get_event` reads, against where `stash_with_reorder` of fakernet_code/data_builder.c puts it.
use mathlib.Core.List.{append_assoc, append-nil}
use fpga_tools.Prelude.{ℕ, zero, suc, ◌+◌, ◌*◌, ◌^◌, ◌≤◌, ◌<◌, ◌≡◌, refl, ap, ap₂, ◌∙◌, sym, arith}
use fpga_tools.Prelude.{List, [], ◌++◌, length, tabulate, tabulate_ext, Memory, load32, u16}
use fpga_tools.Builder.Event.{stash_offset}
use fpga_tools.Parser.{
  TrigHeader, File, got, fread, seek_set, bswap16, bswap32, load16, read_header, read_channel,
  read_channels, read_event, get_event, nchannels,
}
use fpga_tools.Parser.Words.{header_at, file_at, read_header-got, bswap16-load16}

-- The channel header that the parser asks for: 0xFF, the channel, 0xFF and the channel again.
pub record IsChannel (m : Memory) (q i : ℕ) : Type 0 where
  pub reserved1 : m q ≡ 0xFF
  pub channel_id1 : m (q + 1) ≡ i
  pub reserved2 : m (q + 2) ≡ 0xFF
  pub channel_id2 : m (q + 3) ≡ i

-- Sample `j` of channel `i` of the event at `p`, in network order: two samples make one stashed word.
abbrev pub sample_at : Memory → ℕ → ℕ → ℕ → ℕ → ℕ
sample_at m p l i j = let q = p + stash_offset i 1 l + 2 * j in m q * 256 + m (q + 1)

-- The samples of the channels from `i` on.
abbrev pub samples_from : Memory → ℕ → ℕ → ℕ → ℕ → List ℕ
samples_from m p l zero i = []
samples_from m p l (suc left) i =
    tabulate (l * 2) (sample_at m p l i) ++ samples_from m p l left (i + 1)

module _ (m : Memory) (n : ℕ) (bytes : (q : ℕ) → m q < 256) where
  read_channel-got :
      (nsamples i q : ℕ)
      → IsChannel m q i
      → q + 8 + 2 * nsamples ≤ n
      → read_channel nsamples i (file_at m n q) ≡ (
        got (tabulate nsamples (λ j. bswap16 (load16 m (q + 4 + 2 * j)))),
        file_at m n (q + 8 + 2 * nsamples),
      )
  unfolding read_channel fread
  read_channel-got nsamples i q c fits = ground (arith, c)

  read_channels-next :
      (nsamples left i q q' : ℕ) (samples channel : List ℕ)
      → read_channel nsamples i (file_at m n q) ≡ (got channel, file_at m n q')
      → read_channels nsamples (suc left) i samples (file_at m n q)
        ≡ read_channels nsamples left (i + 1) (samples ++ channel) (file_at m n q')
  unfolding read_channels
  read_channels-next nsamples left i q q' samples channel e = ground (arith, e)

  module _ (p l : ℕ) where
    channel_ends : (i : ℕ) → p + stash_offset i 0 l + 8 + 2 * (l * 2) ≡ p + stash_offset (i + 1) 0 l
    unfolding stash_offset
    channel_ends i = omega arith

    channel_samples :
        (i : ℕ)
        → tabulate (l * 2) (λ j. bswap16 (load16 m (p + stash_offset i 0 l + 4 + 2 * j)))
          ≡ tabulate (l * 2) (sample_at m p l i)
    unfolding stash_offset
    channel_samples i = tabulate_ext (l * 2) _ _ λ j h.
        let here : p + stash_offset i 0 l + 4 + 2 * j ≡ p + stash_offset i 1 l + 2 * j =
          omega arith in
        bswap16-load16 m (p + stash_offset i 0 l + 4 + 2 * j) bytes
        ∙ ap (λ q. m q * 256 + m (q + 1)) here

    channels_grow : (i j : ℕ) → i ≤ j → stash_offset i 0 l ≤ stash_offset j 0 l
    unfolding stash_offset
    channels_grow i j h = grind arith

    read_channels-got :
        (left i end : ℕ) (samples : List ℕ)
        → i + left ≡ end
        → ((j : ℕ) → j < end → IsChannel m (p + stash_offset j 0 l) j)
        → p + stash_offset end 0 l ≤ n
        → read_channels (l * 2) left i samples (file_at m n (p + stash_offset i 0 l))
          ≡ (got (samples ++ samples_from m p l left i), file_at m n (p + stash_offset end 0 l))
    unfolding read_channels
    read_channels-got zero i end samples e channels fits =
        let here : i ≡ end = omega (arith, e) in
        ap₂ (λ l' k. (got l', file_at m n (p + stash_offset k 0 l))) (sym (append-nil samples)) here
    read_channels-got (suc left) i end samples e channels fits =
        let channel = tabulate (l * 2) (sample_at m p l i) in
        let room : p + stash_offset i 0 l + 8 + 2 * (l * 2) ≤ n =
          omega (arith, channel_ends i, channels_grow (i + 1) end (omega (arith, e)), fits) in
        read_channels-next (l * 2) left i (p + stash_offset i 0 l) (p + stash_offset (i + 1) 0 l)
          samples channel
          (read_channel-got (l * 2) i (p + stash_offset i 0 l) (channels i (omega (arith, e))) room
            ∙ ap₂ (λ c q. (got c, file_at m n q)) (channel_samples i) (channel_ends i))
        ∙ read_channels-got left (i + 1) end (samples ++ channel) (omega (arith, e)) channels fits
        ∙ ap (λ c. (got c, file_at m n (p + stash_offset end 0 l)))
            (append_assoc samples channel (samples_from m p l left (i + 1)))

get_event-from :
    (f : File) (p : ℕ) (h : TrigHeader) (samples : List ℕ) (f₁ f₂ : File)
    → read_header (seek_set p f) ≡ (got h, f₁)
    → read_event (h.length * 2) f₁ ≡ (got samples, f₂)
    → get_event p f ≡ (got (h.length * 2, samples, h), seek_set f.position f₂)
unfolding get_event
get_event-from f p h samples f₁ f₂ e e' = ground (arith, e, e')

first_channel : (p l : ℕ) → p + 20 ≡ p + stash_offset 0 0 l
unfolding stash_offset
first_channel p l = omega arith

header_fits : (p l : ℕ) → p + 20 ≤ p + stash_offset nchannels 0 l
unfolding stash_offset
header_fits p l = omega arith

read_event-got :
    (m : Memory) (n p l : ℕ)
    → ((q : ℕ) → m q < 256)
    → l < 2 ^ 15
    → ((i : ℕ) → i < nchannels → IsChannel m (p + stash_offset i 0 l) i)
    → p + stash_offset nchannels 0 l ≤ n
    → read_event (l * 2) (file_at m n (p + 20))
      ≡ (got (samples_from m p l nchannels 0), file_at m n (p + stash_offset nchannels 0 l))
unfolding read_event
read_event-got m n p l bytes small channels fits =
    let whole : u16 (l * 2) ≡ l * 2 = omega arith in
    ap₂ (λ k q. read_channels k nchannels 0 [] (file_at m n q)) whole (first_channel p l)
    ∙ read_channels-got m n bytes p l nchannels 0 nchannels [] refl channels fits

-- In a file of bytes with an event at p of a length below 2 ^ 15, whose magic number and channel
-- headers are right and whose data are all there, get_event returns its number of samples, its
-- header, and for each of the 16 channels in order the samples in the words from stash_offset i 1
-- on, and leaves the file as it was.
pub get_event-got :
    (f : File) (p l : ℕ)
    → ((q : ℕ) → f.contents q < 256)
    → l < 2 ^ 15
    → bswap32 (load32 f.contents p) ≡ 0xFFFFFFFF
    → (header_at f.contents p).length ≡ l
    → ((i : ℕ) → i < nchannels → IsChannel f.contents (p + stash_offset i 0 l) i)
    → p + stash_offset nchannels 0 l ≤ f.size
    → get_event p f
      ≡ (got (l * 2, samples_from f.contents p l nchannels 0, header_at f.contents p), f)
get_event-got f p l bytes small magic length channels fits =
    get_event-from f p (header_at f.contents p) _ _ _
      (read_header-got f.contents f.size p (omega (arith, header_fits p l, fits)) magic)
      (ap (λ (k : ℕ). read_event (k * 2) (file_at f.contents f.size (p + 20))) length
        ∙ read_event-got f.contents f.size p l bytes small channels fits)
    ∙ ap
        (λ (k : ℕ).
          (got (k * 2, samples_from f.contents p l nchannels 0, header_at f.contents p), f))
        length
