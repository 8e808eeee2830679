-- ===== src/Buffer/Read.antt =====
-- The reading half of mac/chatkit/cim/base/buffer.h: peeks, reads, slices and searches.
-- A `Slice` of the unread bytes is the list of those bytes at the time of the call.
use coffee_chat_desktop.Prelude.{
  ℕ, suc, Bool, false, List, [], ◌∷◌, Option, none, some, if◌then◌else◌, ltb, leb, ◌==◌, ◌&&◌,
  get_or, drop, add_size, sub_size, Outcome, ok, ◌>>=◌, ◌>>◌, assert,
}
use coffee_chat_desktop.Buffer.Bytes.{of_be, of_le, bswap64}
use coffee_chat_desktop.Buffer.{
  Buffer, cheap_prepend_size, length_of, bytes_at_data, create, write, skip, reset,
}

-- `PeekInt64`, `PeekInt32`, `PeekInt16` and `PeekInt8` as bit patterns.
unfoldable pub peek_int64 : Buffer → Outcome ℕ
peek_int64 b = do l ← length_of b; assert (leb 8 l); ok (bswap64 (of_le (bytes_at_data b 8)))

unfoldable pub peek_int32 : Buffer → Outcome ℕ
peek_int32 b = do l ← length_of b; assert (leb 4 l); ok (of_be (bytes_at_data b 4))

unfoldable pub peek_int16 : Buffer → Outcome ℕ
peek_int16 b = do l ← length_of b; assert (leb 2 l); ok (of_be (bytes_at_data b 2))

unfoldable pub peek_int8 : Buffer → Outcome ℕ
peek_int8 b = do l ← length_of b; assert (leb 1 l); ok (of_be (bytes_at_data b 1))

unfoldable pub read_int64 : Buffer → Outcome (ℕ × Buffer)
read_int64 b = do x ← peek_int64 b; b' ← skip b 8; ok (x, b')

unfoldable pub read_int32 : Buffer → Outcome (ℕ × Buffer)
read_int32 b = do x ← peek_int32 b; b' ← skip b 4; ok (x, b')

unfoldable pub read_int16 : Buffer → Outcome (ℕ × Buffer)
read_int16 b = do x ← peek_int16 b; b' ← skip b 2; ok (x, b')

unfoldable pub read_int8 : Buffer → Outcome (ℕ × Buffer)
read_int8 b = do x ← peek_int8 b; b' ← skip b 1; ok (x, b')

-- `ToSlice()` and `ToString()`.
unfoldable pub to_slice : Buffer → Outcome (List ℕ)
to_slice b = do l ← length_of b; ok (bytes_at_data b l)

unfoldable pub next_all : Buffer → Outcome (List ℕ × Buffer)
next_all b = do l ← length_of b; ok (bytes_at_data b l, reset b)

-- `Next(len)` and `NextString(len)`.
unfoldable pub next : Buffer → ℕ → Outcome (List ℕ × Buffer)
next b len = do
  l ← length_of b
  if ltb len l
      then ok (bytes_at_data b len, record b { read_index = add_size b.read_index len })
      else next_all b

unfoldable pub shrink : Buffer → ℕ → Outcome Buffer
shrink b reserve = do
  l ← length_of b
  other ← create (add_size l reserve) cheap_prepend_size
  s ← to_slice b
  write other s

-- `ReadByte()`: its assert fails on an empty buffer, before the test that returns 0.
unfoldable pub read_byte : Buffer → Outcome (ℕ × Buffer)
read_byte b = do
  l ← length_of b
  assert (leb 1 l)
  if l == 0
      then ok (0, b)
      else ok (get_or b.buffer b.read_index 0, record b { read_index = add_size b.read_index 1 })

unfoldable pub unread_bytes : Buffer → ℕ → Outcome Buffer
unread_bytes b n = do
  assert (ltb n b.read_index)
  ok (record b { read_index = sub_size b.read_index n })

-- `std::search` for "\r\n" and `memchr` for '\n', as offsets from the start of the bytes.
succ_of : Option ℕ → Option ℕ
succ_of none = none
succ_of (some i) = some (suc i)

starts_with_lf : List ℕ → Bool
starts_with_lf [] = false
starts_with_lf (x ∷ xs) = x == 10

unfoldable pub search_crlf : List ℕ → Option ℕ
unfolding succ_of starts_with_lf
search_crlf [] = none
search_crlf (x ∷ xs) = if x == 13 && starts_with_lf xs then some 0 else succ_of (search_crlf xs)

unfoldable pub search_eol : List ℕ → Option ℕ
unfolding succ_of
search_eol [] = none
search_eol (x ∷ xs) = if x == 10 then some 0 else succ_of (search_eol xs)

-- `FindCRLF(start)` with the offset of `start` from `data()`; `FindCRLF()` starts at offset 0.
-- The result is an offset from `start`.
unfoldable pub find_crlf : Buffer → ℕ → Outcome (Option ℕ)
find_crlf b start = do
  l ← length_of b
  assert (leb start l)
  ok (search_crlf (drop start (bytes_at_data b l)))

unfoldable pub find_eol : Buffer → ℕ → Outcome (Option ℕ)
find_eol b start = do
  l ← length_of b
  assert (leb start l)
  ok (search_eol (drop start (bytes_at_data b l)))
