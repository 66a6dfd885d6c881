-- ===== src/Base/Chunks.antt =====
-- `chunk_out_stream` of native/src/base/stream.cpp: writes of any size go on in chunks of one size.
pub mod Whole
use kitsune_ufork.Common.{
  ℕ, zero, suc, ◌+◌, ◌-◌, Bool, true, false, Option, none, some, List, [], ◌∷◌, ◌++◌, Text, length,
  take, drop, leb, if◌then◌else◌,
}

-- `buffered` is what `data` holds below buf_off; `written` is what write_chunk has taken so far, in
-- order.
pub record Chunker : Type 0 where
  pub buffered : Text
  pub written : List Text

-- Enough input for a chunk: the buffer, filled up from the input, or the input alone.
unfoldable pub fill : ℕ → Text → Text → Text × Text
fill chunk_sz [] input = (take chunk_sz input, drop chunk_sz input)
fill chunk_sz (b ∷ bs) input =
    let copy = chunk_sz - length (b ∷ bs) in ((b ∷ bs) ++ take copy input, drop copy input)

-- write_chunk is virtual: whether the stream below, which may remember what it took, takes a chunk.
module _ (accepts : List Text → Text → Bool) (chunk_sz : ℕ) where
  unfoldable pub write_chunk : Text → Chunker → Chunker × Bool
  write_chunk src c =
      if accepts c.written src
      then (record c { written = c.written ++ src ∷ [] }, true)
      else (c, false)

  -- `while (len)`; `none` means that the fuel ran out.
  unfoldable pub write_loop : ℕ → Text → Chunker → Option (Chunker × Bool)
  unfolding write_chunk fill
  write_loop zero input c = none
  write_loop (suc fuel) [] c = some (c, true)
  write_loop (suc fuel) (b ∷ input) c =
      let (src, rest) = fill chunk_sz c.buffered (b ∷ input) in
      let (c', done) = write_chunk src (record c { buffered = [] }) in
      let next = write_loop fuel rest c' in
      let full = if done then next else some (c', false) in
      if leb chunk_sz (length c.buffered + length (b ∷ input))
      then full
      else some (record c { buffered = c.buffered ++ b ∷ input }, true)

  -- Each round takes at least one byte.
  unfoldable pub write : Text → Chunker → Option (Chunker × Bool)
  write input c = write_loop (suc (length input)) input c

  abbrev pub flush : Text → Chunker → Chunker
  flush [] c = c
  flush (b ∷ bs) c = record (write_chunk (b ∷ bs) c).0 { buffered = [] }

  -- An error here is only logged.
  unfoldable pub finalize : Chunker → Chunker
  finalize c = flush c.buffered c

  -- A program's writes, up to the first that fails, and its end.
  unfoldable pub write_all : List Text → Chunker → Option (Chunker × Bool)
  write_all [] c = some (c, true)
  write_all (x ∷ xs) c = elim (write x c) [
    | none ↦ none
    | some (c', done) ↦ elim done [ true ↦ write_all xs c' | false ↦ some (c', false) ]
  ]
