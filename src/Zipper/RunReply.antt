-- ===== src/Zipper/RunReply.antt =====
-- `parse_run_info_redis_reply` of fakernet_code/zipper.c: the number of the run from a reply of redis.
-- `string2ll`, a copy of redis's function, is a parameter. The bytes of a string end where its length
-- says; a number or nil has no bytes, and a reply that is no array no elements, as hiredis makes them.
-- An error or a status, which has bytes, does not stand among the values of a stream. `none` is an assertion that fails or an element that is not there.
pub mod Fields
use fpga_tools.Prelude.{
  ℕ, zero, suc, Bool, true, ◌&&◌, Option, none, some, List, [], ◌∷◌, if◌then◌else◌, leb, ◌==◌,
}

-- `RunInfo`; a signed number is its bit pattern, and -1 is no run.
pub record RunInfo : Type 0 where
  pub run_number : ℕ
  pub sub_run : ℕ

-- `redisReply`, as far as the function tells replies apart.
mutual
  pub data Reply : Type 0 where
    str : List ℕ → Reply
    array : Replies → Reply
    other : Reply

  pub data Replies : Type 0 where
    nil : Replies
    cons : Reply → Replies → Replies

-- `reply->element`
unfoldable pub element : Reply → Replies
element (str bytes) = nil
element (array replies) = replies
element other = nil

-- `reply->elements`
unfoldable pub count : Replies → ℕ
count nil = 0
count (cons reply replies) = suc (count replies)

unfoldable pub nth : Replies → ℕ → Option Reply
nth nil i = none
nth (cons reply replies) zero = some reply
nth (cons reply replies) (suc i) = nth replies i

-- `reply->str` with `reply->len`
unfoldable pub bytes_of : Reply → List ℕ
bytes_of (str bytes) = bytes
bytes_of (array replies) = []
bytes_of other = []

-- "run_number" and "sub_run"
abbrev pub run_number_name : List ℕ
run_number_name = 114 ∷ 117 ∷ 110 ∷ 95 ∷ 110 ∷ 117 ∷ 109 ∷ 98 ∷ 101 ∷ 114 ∷ []

abbrev pub sub_run_name : List ℕ
sub_run_name = 115 ∷ 117 ∷ 98 ∷ 95 ∷ 114 ∷ 117 ∷ 110 ∷ []

-- `strncmp(name, k->str, k->len) == 0`: the name ends with a 0, where the comparison ends too.
unfoldable pub same_name : List ℕ → List ℕ → Bool
same_name name [] = true
same_name [] (c ∷ k) = c == 0
same_name (a ∷ name) (c ∷ k) = a == c && same_name name k

module _ (string2ll : List ℕ → Option ℕ) where
  -- A number that cannot be parsed is 0.
  unfoldable pub number_of : List ℕ → ℕ
  number_of v = elim (string2ll v) [ none ↦ 0 | some value ↦ value ]

  -- The body of the loop.
  unfoldable pub read_pair : List ℕ → List ℕ → RunInfo → RunInfo
  unfolding same_name number_of
  read_pair k v ret =
      if same_name run_number_name k
      then record ret { run_number = number_of v }
      else if same_name sub_run_name k
      then record ret { sub_run = number_of v }
      else ret

  -- The loop over keys and values: a key without a value is read past the end.
  unfoldable pub read_pairs : Replies → RunInfo → Option RunInfo
  unfolding read_pair bytes_of
  read_pairs nil ret = some ret
  read_pairs (cons (str k) (cons v replies)) ret = read_pairs replies (read_pair k (bytes_of v) ret)
  read_pairs (cons (str k) nil) ret = none
  read_pairs (cons (array k) replies) ret = none
  read_pairs (cons other replies) ret = none

  -- A record: its key and its values.
  unfoldable pub read_record : Option Reply → Option RunInfo
  unfolding read_pairs count
  read_record (some (array (cons (str key) (cons (array values) nil)))) =
      if leb 2 (count values)
      then read_pairs values (record { run_number = 0; sub_run = 0 })
      else none
  read_record r = none

  -- The records of a stream; the record is taken by the number of elements of the whole reply.
  unfoldable pub read_records : ℕ → Option Reply → Option RunInfo
  unfolding read_record nth
  read_records zero stream_data = none
  read_records (suc elements) (some (array records)) = read_record (nth records elements)
  read_records (suc elements) stream_data = none

  unfoldable pub stream_data_of : Replies → Option Reply
  stream_data_of (cons (array (cons name (cons stream_data nil))) nil) = some stream_data
  stream_data_of replies = none

  unfoldable pub parse_run_info_redis_reply : Reply → Bool → Option RunInfo
  unfolding read_records element count stream_data_of
  parse_run_info_redis_reply reply skip_steps =
      read_records (count (element reply))
        (if skip_steps then some reply else stream_data_of (element reply))
