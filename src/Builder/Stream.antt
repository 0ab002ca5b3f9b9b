-- ===== src/Builder/Stream.antt =====
-- What the ring buffer promises its clients: the bytes of a connection in order, those read since
-- the last event boundary, and those still to be read.
use fpga_tools.Prelude.{ℕ, List, [], ◌++◌, take, drop}

pub record Stream : Type 0 where
  pub kept : List ℕ
  pub unread : List ℕ

unfoldable pub receive : List ℕ → Stream → Stream
receive bytes s = record s { unread = s.unread ++ bytes }

unfoldable pub consume : ℕ → Stream → Stream
consume n s = record { kept = s.kept ++ take n s.unread; unread = drop n s.unread }

unfoldable pub release : Stream → Stream
release s = record s { kept = [] }
