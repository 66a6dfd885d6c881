-- ===== src/Base/Io.antt =====
-- Reading and writing in full, and the growing byte buffer, of native/src/base/stream.cpp.
pub mod Whole
pub mod Growth
use kitsune_ufork.Common.{
  ℕ, zero, suc, ◌+◌, ◌-◌, ◌*◌, ◌/◌, Bool, true, false, not, ◌&&◌, ◌||◌, Option, none, some, List,
  [], ◌∷◌, ◌++◌, Text, length, take, drop, leb, ltb, ◌==◌, if◌then◌else◌,
}
use Prim.Native.Nat.{min, max}

-- What one call of the system gives: at most so many bytes, EINTR, or another error.
pub data Call : Type 0 where
  moves : ℕ → Call
  interrupted failed : Call

-- How a loop over such calls ends; `blocked` means that the calls at hand ran out.
pub data End : Type 0 where
  returns : Text → Text → End
  fails : End
  blocked : End

-- in_stream::readFully: what was read so far and what the stream still holds. A read moves at most
-- what is asked for and what is there.
unfoldable pub read_fully : List Call → ℕ → Text → Text → End
read_fully [] len done source = blocked
read_fully (failed ∷ calls) len done source = fails
read_fully (interrupted ∷ calls) len done source =
    let again = read_fully calls len done source in
    if length done == len then returns done source else again
read_fully (moves n ∷ calls) len done source =
    let ret = min n (len - length done) in
    let got = take ret source in
    let done' = done ++ got in
    let again = read_fully calls len done' (drop ret source) in
    if length done' == len || length got == 0 then returns done' (drop ret source) else again

-- file_stream::write: what do_write has taken, and what is left. It returns true at `returns`.
unfoldable pub write_fully : List Call → Text → Text → End
write_fully [] sent input = blocked
write_fully (failed ∷ calls) sent input = fails
write_fully (interrupted ∷ calls) sent input =
    let again = write_fully calls sent input in
    if length input == 0 then returns sent input else again
write_fully (moves n ∷ calls) sent input =
    let ret = min n (length input) in
    let sent' = sent ++ take ret input in
    let input' = drop ret input in
    let again = write_fully calls sent' input' in
    if length input' == 0 || ret == 0 then returns sent' input' else again

-- byte_stream: the bytes below _sz, the position, and the capacity.
pub record ByteStream : Type 0 where
  pub bytes : Text
  pub at : ℕ
  pub cap : ℕ

abbrev grow : ℕ → ℕ
grow cap = if cap == 0 then 4096 else cap * 2 - cap / 2

-- The loop of `resize`; `none` means that the fuel ran out.
unfoldable pub resize_loop : ℕ → ℕ → ℕ → Option ℕ
resize_loop zero new_sz cap = none
resize_loop (suc fuel) new_sz cap =
    let more = resize_loop fuel new_sz (grow cap) in if ltb cap new_sz then more else some cap

-- Every round adds one at least.
unfoldable pub resize : ℕ → ℕ → Option ℕ
resize new_sz cap = resize_loop (suc (suc new_sz)) new_sz cap

unfoldable pub stream_read : ℕ → ByteStream → ByteStream × Text
stream_read len s =
    let n = min len (length s.bytes - s.at) in
    (record s { at = s.at + n }, take n (drop s.at s.bytes))

-- Bytes behind the write stay: the write may fall inside.
unfoldable pub stream_write : Text → ByteStream → Option ByteStream
stream_write buf s = elim (resize (s.at + length buf) s.cap) [
  | none ↦ none
  | some cap ↦ some (record {
    bytes = take s.at s.bytes ++ (buf ++ drop (s.at + length buf) s.bytes);
    at = s.at + length buf;
    cap = cap;
  })
]
