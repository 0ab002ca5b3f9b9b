-- ===== src/Zipper/RunReply/Fields.antt =====
-- What `parse_run_info_redis_reply` takes from a reply: the fields of a record of the stream, by the
-- last value under each name.
use fpga_tools.Prelude.{
  ℕ, ◌*◌, ◌≡◌, inl, inr, refl, sym, Bool, false, Bool-cases, ◌&&◌, not, arith, Option, none, some,
  Option-cases, List, [], ◌∷◌, if◌then◌else◌, length,
}
use fpga_tools.Zipper.RunReply.{
  RunInfo, Reply, str, array, Replies, nil, cons, count, nth, element, same_name, run_number_name,
  sub_run_name, number_of, read_pair, read_pairs, read_record, read_records, stream_data_of,
  parse_run_info_redis_reply,
}

abbrev pub Fields : Type 0
Fields = List (List ℕ × List ℕ)

-- The keys and values of a record, as redis sends them.
unfoldable pub replies_of : Fields → Replies
replies_of [] = nil
replies_of ((k, v) ∷ fields) = cons (str k) (cons (str v) (replies_of fields))

abbrev pub record_of : List ℕ → Fields → Reply
record_of key fields = array (cons (str key) (cons (array (replies_of fields)) nil))

-- The reply of `XREAD` on one stream.
abbrev pub xread : Reply → Replies → Reply
xread name records = array (cons (array (cons name (cons (array records) nil))) nil)

-- The last value under a name of which the test holds.
unfoldable pub last_of : (List ℕ → Bool) → Fields → Option (List ℕ)
last_of test [] = none
last_of test ((k, v) ∷ fields) = elim (last_of test fields) [
  | none ↦ if test k then some v else none
  | some w ↦ some w
]

abbrev pub is_run_number : List ℕ → Bool
is_run_number k = same_name run_number_name k

abbrev pub is_sub_run : List ℕ → Bool
is_sub_run k = not (is_run_number k) && same_name sub_run_name k

module _ (string2ll : List ℕ → Option ℕ) where
  -- The number under a name, or `start` without one.
  unfoldable pub number_under : (List ℕ → Bool) → Fields → ℕ → ℕ
  number_under test fields start = elim (last_of test fields) [
    | none ↦ start
    | some v ↦ number_of string2ll v
  ]

  number_under-pair :
      (test : List ℕ → Bool) (k v : List ℕ) (fields : Fields) (start : ℕ)
      → number_under test ((k, v) ∷ fields) start
        ≡ number_under test fields (if test k then number_of string2ll v else start)
  unfolding number_under last_of
  number_under-pair test k v fields start = elim (Option-cases (last_of test fields)) [
    | inl missing ↦ elim (Bool-cases (test k)) [
      | inl same ↦ ground arith
      | inr differs ↦ ground arith
    ]
    | inr (w, found) ↦ ground arith
  ]

  -- What the body of the loop does to the two fields.
  read_pair-run_number :
      (k v : List ℕ) (ret : RunInfo)
      → (read_pair string2ll k v ret).run_number
        ≡ (if is_run_number k then number_of string2ll v else ret.run_number)
  unfolding read_pair
  read_pair-run_number k v ret = ground arith

  read_pair-sub_run :
      (k v : List ℕ) (ret : RunInfo)
      → (read_pair string2ll k v ret).sub_run
        ≡ (if is_sub_run k then number_of string2ll v else ret.sub_run)
  unfolding read_pair
  read_pair-sub_run k v ret = ground arith

  read_pairs-replies_of :
      (fields : Fields) (ret : RunInfo)
      → read_pairs string2ll (replies_of fields) ret
        ≡ some (record {
          run_number = number_under is_run_number fields ret.run_number;
          sub_run = number_under is_sub_run fields ret.sub_run;
        })
  unfolding read_pairs replies_of number_under last_of
  read_pairs-replies_of [] ret = refl
  read_pairs-replies_of ((k, v) ∷ fields) ret =
      rw (number_under-pair is_run_number k v fields ret.run_number) (
        rw (number_under-pair is_sub_run k v fields ret.sub_run) (
          rw (sym (read_pair-run_number k v ret)) (
            rw (sym (read_pair-sub_run k v ret))
              (read_pairs-replies_of fields (read_pair string2ll k v ret)))))

  count-replies_of : (fields : Fields) → count (replies_of fields) ≡ 2 * length fields
  unfolding count replies_of
  count-replies_of [] = refl
  count-replies_of ((k, v) ∷ fields) = ground (arith, count-replies_of fields)

  -- From the reply to XREAD on one stream parse_run_info_redis_reply takes the fields of the first
  -- record, whatever records follow: as each of the two numbers the last value whose name compares
  -- equal, or 0 without one, for any string2ll.
  pub parse_run_info_redis_reply-xread :
      (name : Reply) (key k v : List ℕ) (fields : Fields) (newer : Replies)
      → parse_run_info_redis_reply string2ll
          (xread name (cons (record_of key ((k, v) ∷ fields)) newer))
          false
        ≡ some (record {
          run_number = number_under is_run_number ((k, v) ∷ fields) 0;
          sub_run = number_under is_sub_run ((k, v) ∷ fields) 0;
        })
  unfolding parse_run_info_redis_reply read_records read_record element count nth stream_data_of
  parse_run_info_redis_reply-xread name key k v fields newer = ground (
    arith,
    read_pairs-replies_of ((k, v) ∷ fields) (record { run_number = 0; sub_run = 0 }),
    count-replies_of ((k, v) ∷ fields),
  )
