-- ===== src/Tests/Parser.antt =====
-- A file with one event of two samples in each channel.
use fpga_tools.Prelude.{
  ℕ, ◌+◌, ◌-◌, ◌*◌, ◌/◌, ◌%◌, ◌<◌, ◌≤◌, ◌≡◌, refl, arith, ◌||◌, [], ◌∷◌, if◌then◌else◌, ltb, leb,
  ◌==◌, Memory, load32, swap16,
}
use fpga_tools.Builder.Event.{stash_offset}
use fpga_tools.Parser.{File, got, bswap32, load16, get_event, get_events_index, nchannels}
use fpga_tools.Parser.Words.{header_at}
use fpga_tools.Parser.Index.{EventsFrom, starts, doubled, get_events_index-got}
use fpga_tools.Parser.Event.{IsChannel, samples_from, get_event-got}

abbrev saved : Memory
saved = λ (q : ℕ).
    if leb 212 q
    then 0
    else if ltb q 4
    then 255
    else if ltb q 20
    then (if q == 17 then 1 else 0)
    else if (q - 20) % 12 == 0 || (q - 20) % 12 == 2
    then 255
    else if leb 4 ((q - 20) % 12)
    then 7
    else (q - 20) / 12

abbrev file : File
file = record { contents = saved; size = 212; position = 0 }

saved-bytes : (q : ℕ) → saved q < 256
saved-bytes q = ground arith

magic : bswap32 (load32 saved 0) ≡ 0xFFFFFFFF
unfolding bswap32 load32
magic = refl

one_word : (header_at saved 0).length ≡ 1
unfolding swap16 load16
one_word = refl

saved-IsChannel : (i : ℕ) → i < nchannels → IsChannel saved (0 + stash_offset i 0 1) i
unfolding stash_offset
saved-IsChannel i small = record {
  reserved1 = ground arith;
  channel_id1 = ground arith;
  reserved2 = ground arith;
  channel_id2 = ground arith;
}

fits : 0 + stash_offset nchannels 0 1 ≤ 212
unfolding stash_offset
fits = omega arith

get_event-got_example :
    get_event 0 file ≡ (got (1 * 2, samples_from saved 0 1 nchannels 0, header_at saved 0), file)
get_event-got_example =
    get_event-got file 0 1 saved-bytes (omega arith) magic one_word saved-IsChannel fits

saved-EventsFrom : EventsFrom saved 212 0 (1 ∷ [])
saved-EventsFrom = (omega arith, magic, one_word, omega arith)

get_events_index-got_example :
    (get_events_index 0 file).0
    ≡ got (record { locations = starts 0 (1 ∷ []); nsamples = doubled (1 ∷ []); nevents = 1 })
get_events_index-got_example = get_events_index-got file (1 ∷ []) saved-EventsFrom
