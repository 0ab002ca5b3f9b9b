-- ===== src/Parser/Index.antt =====
-- What `count_events` and `get_events_index` find in a file of saved events.
use mathlib.Core.List.{append_assoc, append-nil}
use fpga_tools.Prelude.{
  ℕ, zero, suc, ◌+◌, ◌-◌, ◌*◌, ◌/◌, ◌≤◌, ◌<◌, ◌≡◌, inl, inr, refl, ap, ap₂, ◌∙◌, arith,
}
use fpga_tools.Prelude.{List, [], ◌∷◌, ◌++◌, length, Memory, load32}
use fpga_tools.Parser.{
  File, got, seek_cur, seek_set, bswap32, read_header, bytes_forward, count_loop, count_events,
  EventIndex, index_loop, get_events_index,
}
use fpga_tools.Parser.Words.{
  header_at, file_at, read_header-got, read_header-failed, SameFile, read_header-SameFile,
  Outcome-cases,
}

-- The bytes of an event of the given length.
abbrev pub event_bytes : ℕ → ℕ
event_bytes length = 20 + 16 * (length * 2 * 2 + 4 + 4)

-- From `p` on, the file holds the headers of events of these lengths, each where the event before it
-- ends, and then too few bytes for another header. The data of the last event may be cut short.
abbrev pub EventsFrom : Memory → ℕ → ℕ → List ℕ → Type 0
EventsFrom m n p [] = n < p + 20
EventsFrom m n p (l ∷ ls) =
    (p + 20 ≤ n)
    × (bswap32 (load32 m p) ≡ 0xFFFFFFFF)
    × ((header_at m p).length ≡ l)
    × EventsFrom m n (p + event_bytes l) ls

-- Where those events start.
abbrev pub starts : ℕ → List ℕ → List ℕ
starts p [] = []
starts p (l ∷ ls) = p ∷ starts (p + event_bytes l) ls

abbrev pub doubled : List ℕ → List ℕ
doubled [] = []
doubled (l ∷ ls) = l * 2 ∷ doubled ls

module _ (m : Memory) (n : ℕ) where
  enough_rounds : (p : ℕ) (ls : List ℕ) → EventsFrom m n p ls → length ls < (n - p) / 20 + 1
  enough_rounds p [] e = omega arith
  enough_rounds p (l ∷ []) e = omega (arith, e.0)
  enough_rounds p (l ∷ k ∷ ls) e =
      omega (arith, e.0, e.3.0, enough_rounds (p + event_bytes l) (k ∷ ls) e.3)

  -- A round of either loop stands at the next event afterwards.
  next_event :
      (p l : ℕ)
      → (header_at m p).length ≡ l
      → seek_cur (bytes_forward (header_at m p)) (file_at m n (p + 20))
        ≡ file_at m n (p + event_bytes l)
  unfolding bytes_forward
  next_event p l e = ap (file_at m n) (omega (arith, e))

  count_loop-next :
      (fuel count p l : ℕ)
      → p + 20 ≤ n
      → bswap32 (load32 m p) ≡ 0xFFFFFFFF
      → (header_at m p).length ≡ l
      → count_loop (suc fuel) count (file_at m n p)
        ≡ count_loop fuel (count + 1) (file_at m n (p + event_bytes l))
  unfolding count_loop
  count_loop-next fuel count p l fits magic e =
      ground (arith, read_header-got m n p fits magic)
      ∙ ap (count_loop fuel (count + 1)) (next_event p l e)

  count_loop-got :
      (fuel count p : ℕ) (ls : List ℕ)
      → EventsFrom m n p ls
      → length ls < fuel
      → (count_loop fuel count (file_at m n p)).0 ≡ got (count + length ls)
  unfolding count_loop
  count_loop-got zero count p ls e enough = absurd (omega arith)
  count_loop-got (suc fuel) count p [] e enough = ground (arith, read_header-failed m n p e)
  count_loop-got (suc fuel) count p (l ∷ ls) e enough =
      ap (λ r. r.0) (count_loop-next fuel count p l e.0 e.1 e.2)
      ∙ count_loop-got fuel (count + 1) (p + event_bytes l) ls e.3 (omega arith)
      ∙ ap got (omega arith)

  -- The index with one more event.
  abbrev with_event : EventIndex → ℕ → ℕ → EventIndex
  with_event index p l = record {
    locations = index.locations ++ p ∷ [];
    nsamples = index.nsamples ++ l * 2 ∷ [];
    nevents = index.nevents + 1;
  }

  -- The index with the events of a list.
  abbrev with_events : EventIndex → ℕ → List ℕ → EventIndex
  with_events index p ls = record {
    locations = index.locations ++ starts p ls;
    nsamples = index.nsamples ++ doubled ls;
    nevents = index.nevents + length ls;
  }

  with_events-with_event :
      (index : EventIndex) (p l : ℕ) (ls : List ℕ)
      → with_events (with_event index p l) (p + event_bytes l) ls ≡ with_events index p (l ∷ ls)
  with_events-with_event index p l ls =
      simp (append_assoc, append_assoc)
        (ap
          (λ k. record {
            locations = index.locations ++ starts p (l ∷ ls);
            nsamples = index.nsamples ++ doubled (l ∷ ls);
            nevents = k;
          })
          (omega arith))

  index_loop-next :
      (fuel p l : ℕ) (index : EventIndex)
      → p + 20 ≤ n
      → bswap32 (load32 m p) ≡ 0xFFFFFFFF
      → (header_at m p).length ≡ l
      → index_loop (suc fuel) 0 index (file_at m n p)
        ≡ index_loop fuel 0 (with_event index p l) (file_at m n (p + event_bytes l))
  unfolding index_loop
  index_loop-next fuel p l index fits magic e =
      let back : p + 20 - 20 ≡ p = omega arith in
      ground (arith, read_header-got m n p fits magic)
      ∙ ap₂ (index_loop fuel 0) (ap₂ (with_event index) back e) (next_event p l e)

  index_loop-got :
      (fuel : ℕ) (index : EventIndex) (p : ℕ) (ls : List ℕ)
      → EventsFrom m n p ls
      → length ls < fuel
      → (index_loop fuel 0 index (file_at m n p)).0 ≡ got (with_events index p ls)
  unfolding index_loop
  index_loop-got zero index p ls e enough = absurd (omega arith)
  index_loop-got (suc fuel) index p [] e enough =
      simp (append-nil, append-nil) (ground (arith, read_header-failed m n p e))
  index_loop-got (suc fuel) index p (l ∷ ls) e enough =
      ap (λ r. r.0) (index_loop-next fuel p l index e.0 e.1 e.2)
      ∙ index_loop-got fuel (with_event index p l) (p + event_bytes l) ls e.3 (omega arith)
      ∙ ap got (with_events-with_event index p l ls)

count_loop-SameFile : (fuel count : ℕ) (f : File) → SameFile f (count_loop fuel count f).1
unfolding count_loop
count_loop-SameFile zero count f = (refl, refl)
count_loop-SameFile (suc fuel) count f = elim (Outcome-cases (read_header f).0) [
  | inl end ↦ ground (arith, read_header-SameFile f)
  | inr (inl stop) ↦ ground (arith, read_header-SameFile f)
  | inr (inr (h, next)) ↦ ground (
    arith,
    read_header-SameFile f,
    count_loop-SameFile fuel (count + 1) (seek_cur (bytes_forward h) (read_header f).1),
  )
]

-- In a file whose headers follow one another as their lengths say, `count_events` counts them, and
-- goes back to where it was.
pub count_events-got :
    (f : File) (ls : List ℕ)
    → EventsFrom f.contents f.size 0 ls
    → count_events f ≡ (got (length ls), f)
unfolding count_events
count_events-got f ls e = ground (
  arith,
  count_loop-got f.contents f.size (f.size / 20 + 1) 0 0 ls e
      (omega (arith, enough_rounds f.contents f.size 0 ls e)),
  count_loop-SameFile (f.size / 20 + 1) 0 (seek_set 0 f),
)

-- In a file that holds events of given lengths, each where the one before it ends, and then too
-- few bytes for a header, get_events_index without a limit returns where each event starts, how
-- many samples its channels have, and the number of events.
pub get_events_index-got :
    (f : File) (ls : List ℕ)
    → EventsFrom f.contents f.size 0 ls
    → (get_events_index 0 f).0
      ≡ got (record { locations = starts 0 ls; nsamples = doubled ls; nevents = length ls })
unfolding get_events_index
get_events_index-got f ls e = ground (
  arith,
  count_events-got f ls e,
  index_loop-got f.contents f.size (f.size / 20 + 1)
      (record { locations = []; nsamples = []; nevents = 0 }) 0 ls e
      (omega (arith, enough_rounds f.contents f.size 0 ls e)),
)
