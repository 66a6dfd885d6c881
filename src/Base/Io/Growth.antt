-- ===== src/Base/Io/Growth.antt =====
-- The buffer of `byte_stream` in native/src/base/stream.cpp is always large enough.
use kitsune_ufork.Common.{
  ℕ, zero, suc, ◌+◌, ◌-◌, ◌*◌, ◌≤◌, ◌<◌, ◌≡◌, refl, ◌⊎◌, inl, inr, some, ◌++◌, Text, length,
  length-append, length-take, length-drop, take, drop, arith, ltb, Bool-cases,
}
use kitsune_ufork.Base.Io.{ByteStream, grow, resize_loop, resize, stream_write}

-- What `resize` makes of a capacity: enough, and no more than half as much again as needed, unless
-- that is less than the first 4,096 bytes or the old capacity.
abbrev pub Fits : ℕ → ℕ → ℕ → Type 0
Fits new_sz cap cap' =
    (new_sz ≤ cap') × (cap ≤ cap') × ((cap' ≡ cap) ⊎ (2 * cap' ≤ 3 * new_sz + 8192))

grow-lt : (cap : ℕ) → cap < grow cap
grow-lt cap = ground arith

grow-bound : (cap new_sz : ℕ) → cap < new_sz → 2 * grow cap ≤ 3 * new_sz + 8192
grow-bound cap new_sz h = ground arith

resize_loop-Fits :
    (fuel new_sz old : ℕ)
    → 0 < fuel
    → new_sz < old + fuel
    → (cap' : ℕ) × (resize_loop fuel new_sz old ≡ some cap') × Fits new_sz old cap'
unfolding resize_loop
resize_loop-Fits zero new_sz old p h = absurd (omega arith)
resize_loop-Fits (suc fuel) new_sz old p h = elim (Bool-cases (ltb old new_sz)) [
  | inr enough ↦ (old, rw enough refl, (ground arith, omega arith, inl refl))
  | inl small ↦
      let (cap', ran, (fits, up, tight)) =
        resize_loop-Fits fuel new_sz (grow old) (ground arith) (ground (arith, grow-lt old)) in
      (
        cap',
        rw small ran,
        (fits, omega (arith, grow-lt old), inr (ground (arith, tight, grow-bound old new_sz))),
      )
]

resize-Fits : (new_sz old : ℕ) → (cap' : ℕ) × (resize new_sz old ≡ some cap') × Fits new_sz old cap'
unfolding resize
resize-Fits new_sz old = resize_loop-Fits (suc (suc new_sz)) new_sz old (omega arith) (omega arith)

-- The position and the bytes are within the buffer.
pub record IsWithin (s : ByteStream) : Type 0 where
  pub at_end : s.at ≤ length s.bytes
  pub room : length s.bytes ≤ s.cap

-- A write always finds room: it ends, puts its bytes at the position, keeps those before and those
-- behind, and the bytes stay within the buffer.
pub stream_write_lem :
    (buf : Text) (s : ByteStream)
    → IsWithin s
    → (s' : ByteStream) × (stream_write buf s ≡ some s')
      × IsWithin s'
      × (s'.bytes ≡ take s.at s.bytes ++ (buf ++ drop (s.at + length buf) s.bytes))
      × (s'.at ≡ s.at + length buf)
unfolding stream_write
stream_write_lem buf s v =
    let (cap', ran, (fits, up, tight)) = resize-Fits (s.at + length buf) s.cap in
    let bytes = take s.at s.bytes ++ (buf ++ drop (s.at + length buf) s.bytes) in
    let size : length bytes ≡ s.at + (length buf + (length s.bytes - (s.at + length buf))) = omega (
      arith,
      length-append (take s.at s.bytes) (buf ++ drop (s.at + length buf) s.bytes),
      length-append buf (drop (s.at + length buf) s.bytes),
      length-take s.at s.bytes v.at_end,
      length-drop (s.at + length buf) s.bytes,
    ) in
    (
      record { bytes = bytes; at = s.at + length buf; cap = cap' },
      rw (ran, stream_write),
      record { at_end = omega arith; room = omega (arith, v.room) },
      refl,
      refl,
    )
