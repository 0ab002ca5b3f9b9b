-- ===== src/Builder/Event/Layout.antt =====
-- Where the reordering of channels and `stash_with_reorder` put each word of an event.
use fpga_tools.Prelude.{
  ℕ, suc, ◌+◌, ◌*◌, ◌^◌, ◌≤◌, ◌<◌, ◌≡◌, ◌≢◌, ◌⊎◌, inl, inr, refl, sym, ap, ◌∙◌, Bool, true, false,
  ◌&&◌, arith,
}
use fpga_tools.Prelude.{
  ltb→lt, ltb, ◌==◌, passes_below, passes_below_lem, store_bytes-outside, store32, bytes32, swap32,
  Bool-cases,
}
use fpga_tools.Builder.Event.{
  EventBuffer, event_buffer_size, num_channels, put_word, reordered, stash_offset,
  stash_with_reorder,
}

channel_table :
    (b : Bool)
    → passes_below (λ c. ltb (reordered b c) 16 && (reordered b (reordered b c) == c)) 16 ≡ true
unfolding passes_below reordered
channel_table true = refl
channel_table false = refl

-- Both channel orders map the 16 channels to the 16 channels and are their own inverses.
pub reordered_involution :
    (is_xem1 : Bool) (c : ℕ)
    → c < num_channels
    → (reordered is_xem1 c < num_channels) × (reordered is_xem1 (reordered is_xem1 c) ≡ c)
reordered_involution b c h = ground (arith, passes_below_lem _ c 16 h (channel_table b))

mul_mono : (a b w : ℕ) → a ≤ b → a * w ≤ b * w
mul_mono a b w h = grind arith

row_below : (a b w i j : ℕ) → a < b → i < w → a * w + i + 1 ≤ b * w + j
row_below a b w i j h hi = omega (arith, mul_mono (suc a) b w h)

-- Rows of `w` words: two positions in different rows, or at different columns, are different.
row_apart :
    (a b w i j : ℕ)
    → i < w
    → j < w
    → (a ≢ b) ⊎ (i ≢ j)
    → (a * w + i + 1 ≤ b * w + j) ⊎ (b * w + j + 1 ≤ a * w + i)
row_apart a b w i j hi hj h = elim (Bool-cases (ltb a b)) [
  | inl below ↦ inl (row_below a b w i j (ltb→lt a b below) hi)
  | inr not_below ↦ elim (Bool-cases (ltb b a)) [
    | inl above ↦ inr (row_below b a w j i (ltb→lt b a above) hj)
    | inr not_above ↦ let e : a ≡ b = ground arith in ground (arith, ap (λ (t : ℕ). t * w) e)
  ]
]

reordered_ne :
    (b : Bool) (c d : ℕ)
    → c < num_channels
    → d < num_channels
    → (i j : ℕ) → (c ≢ d) ⊎ (i ≢ j)
    → (reordered b c ≢ reordered b d) ⊎ (i ≢ j)
reordered_ne b c d hc hd i j (inl ne) = inl (λ e.
    ne (sym (reordered_involution b c hc).1 ∙ ap (reordered b) e ∙ (reordered_involution b d hd).1))
reordered_ne b c d hc hd i j (inr ne) = inr ne

-- Two words of an event that belong to different channels of the 16, or to different places of the
-- wf_length + 2 words of a channel, have offsets at least four bytes apart.
pub stash_offset_apart :
    (is_xem1 : Bool) (c d i j wf_length : ℕ)
    → c < num_channels
    → d < num_channels
    → i < wf_length + 2
    → j < wf_length + 2
    → (c ≢ d) ⊎ (i ≢ j)
    → let p = stash_offset (reordered is_xem1 c) i wf_length in
      let q = stash_offset (reordered is_xem1 d) j wf_length in (p + 4 ≤ q) ⊎ (q + 4 ≤ p)
unfolding stash_offset
stash_offset_apart b c d i j wf_length hc hd hi hj h = omega (
  arith,
  row_apart (reordered b c) (reordered b d) (wf_length + 2) i j hi hj
      (reordered_ne b c d hc hd i j h),
)

-- The reach of one stashed word in an event of a 16-bit length, overshooting samples included.
pub stash_offset_bound :
    (new_channel isample wf_length : ℕ)
    → new_channel < num_channels
    → isample ≤ wf_length + 3
    → wf_length < 2 ^ 16
    → stash_offset new_channel isample wf_length + 4 ≤ event_buffer_size
unfolding stash_offset
stash_offset_bound c i w hc hi hw = omega (arith, mul_mono c 15 ((w + 2) * 4) (omega arith))

pub put_word-outside :
    (eb : EventBuffer) (offset word q : ℕ)
    → offset + 4 ≤ q
    → (put_word eb offset word).bytes q ≡ eb.bytes q
unfolding put_word store32
put_word-outside eb offset word q h =
    store_bytes-outside eb.bytes offset (bytes32 (swap32 word)) q (inr (omega arith))

-- stash_with_reorder changes no byte past the event buffer, for a channel below 16, a 16-bit
-- waveform length and a sample index at most three above it.
pub stash_with_reorder-outside :
    (eb : EventBuffer) (word channel isample wf_length : ℕ) (is_xem1 : Bool) (q : ℕ)
    → channel < num_channels
    → isample ≤ wf_length + 3
    → wf_length < 2 ^ 16
    → event_buffer_size ≤ q
    → (stash_with_reorder eb word channel isample wf_length is_xem1).bytes q ≡ eb.bytes q
unfolding stash_with_reorder
stash_with_reorder-outside eb word c i w b q hc hi hw hq =
    put_word-outside eb (stash_offset (reordered b c) i w) _ q
      (omega (arith, stash_offset_bound (reordered b c) i w (reordered_involution b c hc).0 hi hw))
