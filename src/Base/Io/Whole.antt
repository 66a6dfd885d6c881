-- ===== src/Base/Io/Whole.antt =====
-- Partial reads and writes of native/src/base/stream.cpp lose no byte.
use Prim.Native.Nat.{min}
use kitsune_ufork.Common.{
  ℕ, zero, suc, ◌-◌, ◌≤◌, ◌<◌, length-drop, take_all, drop_all, ◌≡◌, refl, ap, ◌∙◌, inl, inr, ◌||◌,
  List, [], ◌∷◌, ◌++◌, Text, length, length-append, take, drop, take-append-drop, arith, ◌==◌,
  Bool-cases,
}
use mathlib.Core.List.{append_assoc}
use kitsune_ufork.Base.Io.{
  Call, moves, interrupted, failed, End, returns, fails, blocked, read_fully, write_fully,
}

length-take-le {ℓ} : {A : Type ℓ} (n : ℕ) (xs : List A) → length (take n xs) ≤ n
length-take-le zero xs = omega arith
length-take-le (suc n) [] = omega arith
length-take-le (suc n) (x ∷ xs) = omega (arith, length-take-le n xs)

-- What a run that started with `done` and `source` may end in.
abbrev pub Reads : ℕ → Text → Text → End → Type 0
Reads len done source (returns got left) =
    (got ++ left ≡ done ++ source) × (length got ≤ len) × (length done ≤ length got)
Reads len done source fails = Unit
Reads len done source blocked = Unit

Reads-later :
    (len : ℕ) (done source done' source' : Text) (r : End)
    → done' ++ source' ≡ done ++ source
    → length done ≤ length done'
    → Reads len done' source' r
    → Reads len done source r
Reads-later len done source done' source' (returns got left) e l (a, b, c) = (a ∙ e, b, omega arith)
Reads-later len done source done' source' fails e l r = tt
Reads-later len done source done' source' blocked e l r = tt

-- `readFully` returns what it read first and no more than was asked for; with what is left in the
-- stream this is what was there.
pub read_fully-Reads :
    (calls : List Call) (len : ℕ) (done source : Text)
    → length done ≤ len
    → Reads len done source (read_fully calls len done source)
unfolding read_fully
read_fully-Reads [] len done source h = tt
read_fully-Reads (failed ∷ calls) len done source h = tt
read_fully-Reads (interrupted ∷ calls) len done source h = elim (Bool-cases (length done == len)) [
  | inl full ↦ rw full (refl, h, omega arith)
  | inr part ↦ rw part (read_fully-Reads calls len done source h)
]
read_fully-Reads (moves n ∷ calls) len done source h =
    let ret = min n (len - length done) in
    let got = take ret source in
    let e =
      append_assoc done got (drop ret source)
      ∙ ap (λ (l : Text). done ++ l) (take-append-drop ret source) in
    let fits : length (done ++ got) ≤ len =
      omega (arith, length-append done got, length-take-le ret source) in
    let grows : length done ≤ length (done ++ got) = omega (arith, length-append done got) in
    elim (Bool-cases (length (done ++ got) == len || length got == 0)) [
      | inl stop ↦ rw stop (e, fits, grows)
      | inr more ↦ rw more (
          Reads-later len done source (done ++ got) (drop ret source) _ e grows
            (read_fully-Reads calls len (done ++ got) (drop ret source) fits))
    ]

-- What a run of the writing loop may end in.
abbrev pub Writes : Text → Text → End → Type 0
Writes sent input (returns got left) = got ++ left ≡ sent ++ input
Writes sent input fails = Unit
Writes sent input blocked = Unit

Writes-later :
    (sent input sent' input' : Text) (r : End)
    → sent' ++ input' ≡ sent ++ input
    → Writes sent' input' r
    → Writes sent input r
Writes-later sent input sent' input' (returns got left) e w = w ∙ e
Writes-later sent input sent' input' fails e w = tt
Writes-later sent input sent' input' blocked e w = tt

-- `write` sends a beginning of its input, each byte once and in order.
pub write_fully-Writes :
    (calls : List Call) (sent input : Text) → Writes sent input (write_fully calls sent input)
unfolding write_fully
write_fully-Writes [] sent input = tt
write_fully-Writes (failed ∷ calls) sent input = tt
write_fully-Writes (interrupted ∷ calls) sent input = elim (Bool-cases (length input == 0)) [
  | inl empty ↦ rw empty refl
  | inr part ↦ rw part (write_fully-Writes calls sent input)
]
write_fully-Writes (moves n ∷ calls) sent input =
    let ret = min n (length input) in
    let e =
      append_assoc sent (take ret input) (drop ret input)
      ∙ ap (λ (l : Text). sent ++ l) (take-append-drop ret input) in
    elim (Bool-cases (length (drop ret input) == 0 || ret == 0)) [
      | inl stop ↦ rw stop e
      | inr more ↦ rw more (
          Writes-later sent input (sent ++ take ret input) (drop ret input) _ e
            (write_fully-Writes calls (sent ++ take ret input) (drop ret input)))
    ]

-- Calls without an error that each move something.
abbrev pub AllMove : List Call → Type 0
AllMove [] = Unit
AllMove (moves n ∷ calls) = (1 ≤ n) × AllMove calls
AllMove (interrupted ∷ calls) = ⊥
AllMove (failed ∷ calls) = ⊥

-- When no call fails and each moves something, `write` ends after as many calls as there are
-- bytes, and has sent them all.
pub write_fully_all :
    (calls : List Call) (sent input : Text)
    → AllMove calls
    → length input < length calls
    → write_fully calls sent input ≡ returns (sent ++ input) []
unfolding write_fully
write_fully_all [] sent input m l = absurd (omega arith)
write_fully_all (interrupted ∷ calls) sent input m l = absurd m
write_fully_all (failed ∷ calls) sent input m l = absurd m
write_fully_all (moves n ∷ calls) sent input (k, m) l =
    let ret = min n (length input) in
    let short = length-drop ret input in
    let joined =
      ap (λ (s : Text). returns s [])
        (append_assoc sent (take ret input) (drop ret input)
          ∙ ap (λ (t : Text). sent ++ t) (take-append-drop ret input)) in
    elim (Bool-cases (length (drop ret input) == 0 || ret == 0)) [
      | inl stop ↦
          let whole : length input ≤ ret = ground (arith, stop, short, k) in
          rw (stop, take_all ret input whole, drop_all ret input whole) refl
      | inr more ↦
          let fewer : length (drop ret input) < length calls = ground (arith, more, short, l) in
          rw more (write_fully_all calls (sent ++ take ret input) (drop ret input) m fewer ∙ joined)
    ]

-- A call that moves nothing ends the loop, and `write` reports success with all its input unsent.
pub write_fully_stalls :
    (calls : List Call) (sent input : Text)
    → write_fully (moves 0 ∷ calls) sent input ≡ returns (sent ++ []) input
unfolding write_fully
write_fully_stalls calls sent input =
    let none_moved : min 0 (length input) ≡ 0 = omega arith in
    rw none_moved (elim (Bool-cases (length input == 0)) [
      | inl empty ↦ rw empty refl
      | inr part ↦ rw part refl
    ])
