-- ===== src/Boot/Header/Laws.antt =====
-- The fields of each header class lie in the struct and apart from each other, so that what is
-- written through one reference is read back, and through no other.
use kitsune_ufork.Common.{
  ℕ, ◌+◌, ◌^◌, ◌≤◌, ◌<◌, ◌≡◌, ◌⊎◌, inl, inr, refl, sym, ap, ◌∙◌, subst, Bool, true, false, not,
  ◌&&◌, ◌||◌, Option, none, some, length, arith, leb, if◌then◌else◌, Option-cases, Bool-cases,
  ==_iff,
}
use kitsune_ufork.Boot.Memory.{to_le}
use kitsune_ufork.Boot.Memory.Laws.{length-to_le, length-store_at, load-store, load-store_apart}
use kitsune_ufork.Boot.Header.{
  Kind, v0, v1, v2, v3, v4, pxa, vnd_v3, vnd_v4, Field, Hdr, hdr_size, offset, width, get, set,
  fixed_page, is_page_size, shown,
}
use kitsune_ufork.Boot.Header.Numbers.{
  number_of, of_number, of_number_lem, same_field, every_field, every_field-at,
}

abbrev inside : Option ℕ → ℕ → ℕ → Bool → Bool
inside none n size fixed = true
inside (some a) n size fixed = leb (a + n) size && not fixed

abbrev apart : Option ℕ → ℕ → Option ℕ → ℕ → Bool
apart none n b m = true
apart (some a) n none m = true
apart (some a) n (some b) m = leb (a + n) b || leb (b + m) a

unfoldable placed : Kind → Field → Field → Bool
unfolding offset width hdr_size same_field
placed k f g =
    inside (offset k f) (width f) (hdr_size k) (fixed_page k && is_page_size f)
    && (same_field f g || apart (offset k f) (width f) (offset k g) (width g))

unfoldable all_placed : Kind → Bool
unfolding placed every_field
all_placed k = every_field (λ f. every_field (λ g. placed k f g))

all_placed_lem : (k : Kind) → all_placed k ≡ true
unfolding all_placed
all_placed_lem v0 = refl
all_placed_lem v1 = refl
all_placed_lem v2 = refl
all_placed_lem v3 = refl
all_placed_lem v4 = refl
all_placed_lem pxa = refl
all_placed_lem vnd_v3 = refl
all_placed_lem vnd_v4 = refl

placed_lem : (k : Kind) (f g : Field) → placed k f g ≡ true
unfolding all_placed
placed_lem k f g =
    every_field-at (λ g. placed k f g) g
      (every_field-at (λ f. every_field (λ g. placed k f g)) f (all_placed_lem k))

-- The raw header has the size of its struct.
abbrev pub IsHdr : Hdr → Type 0
IsHdr h = length h.raw ≡ hdr_size h.kind

pub is_inside : (k : Kind) (f : Field) (a : ℕ) → offset k f ≡ some a → a + width f ≤ hdr_size k
unfolding placed
is_inside k f a e = ground (arith, placed_lem k f f, e)

is_apart :
    (k : Kind) (f g : Field) (a b : ℕ)
    → same_field f g ≡ false
    → offset k f ≡ some a
    → offset k g ≡ some b
    → (a + width f ≤ b) ⊎ (b + width g ≤ a)
unfolding placed
is_apart k f g a b h d e = ground (arith, placed_lem k f g, h, d, e)

not_fixed :
    (k : Kind) (f : Field) (a : ℕ) → offset k f ≡ some a → (fixed_page k && is_page_size f) ≡ false
unfolding placed
not_fixed k f a e = ground (arith, placed_lem k f f, e)

same_field-eq : (f g : Field) → same_field f g ≡ true → f ≡ g
unfolding same_field
same_field-eq f g h =
    sym (of_number_lem f)
    ∙ ap of_number ((==_iff (number_of f) (number_of g)).0 h)
    ∙ of_number_lem g

pub set-IsHdr : (f : Field) (v : ℕ) (h : Hdr) → IsHdr h → IsHdr (set f v h)
unfolding set
set-IsHdr f v h i = elim (Option-cases (offset h.kind f)) [
  | inl e ↦ rw e i
  | inr (a, e) ↦ rw e (
      length-store_at a (to_le (width f) v) h.raw
        (omega (arith, i, is_inside h.kind f a e, length-to_le (width f) v))
      ∙ i)
]

pub get-set_other :
    (f g : Field) (v : ℕ) (h : Hdr) → IsHdr h → same_field f g ≡ false → get g (set f v h) ≡ get g h
unfolding set get
get-set_other f g v h i n = elim (Option-cases (offset h.kind f)) [
  | inl e ↦ rw e refl
  | inr (a, e) ↦ elim (Option-cases (offset h.kind g)) [
    | inl e' ↦ rw (e, e') refl
    | inr (b, e') ↦
        let low = is_inside h.kind f a e in
        let apart : (b + width g ≤ a) ⊎ (a + length (to_le (width f) v) ≤ b) =
          flip a b (width f) (width g) (length (to_le (width f) v)) (length-to_le (width f) v)
            (is_apart h.kind f g a b n e e') in
        ground (
          arith,
          load-store_apart (width g) b a (to_le (width f) v) h.raw apart (omega (arith, low, i)),
        )
  ]
]
  where
    flip : (a b n m l : ℕ) → l ≡ n → (a + n ≤ b) ⊎ (b + m ≤ a) → (b + m ≤ a) ⊎ (a + l ≤ b)
    flip a b n m l e (inl p) = inr (omega arith)
    flip a b n m l e (inr p) = inl p

get-set_same :
    (f : Field) (a v : ℕ) (h : Hdr)
    → IsHdr h
    → v < 2 ^ 32
    → width f ≡ 4
    → offset h.kind f ≡ some a
    → get f (set f v h) ≡ v
unfolding set get
get-set_same f a v h i b w e =
    let low = is_inside h.kind f a e in
    ground (arith, not_fixed h.kind f a e, load-store a v h.raw b (omega (arith, low, i)))

pub get-set_hidden :
    (f g : Field) (v : ℕ) (h : Hdr) → offset h.kind f ≡ none → get g (set f v h) ≡ get g h
unfolding set get
get-set_hidden f g v h e = ground arith

-- For each of the eight header classes: after `hdr->f() = v`, a 32-bit number, reading `f` gives
-- `v` if the class shows the field, and reading any other field gives what it gave before.
pub get-set :
    (f g : Field) (v : ℕ) (h : Hdr)
    → IsHdr h
    → v < 2 ^ 32
    → width f ≡ 4
    → get g (set f v h) ≡ (if same_field f g && shown h.kind f then v else get g h)
get-set f g v h i b w = elim (Bool-cases (same_field f g)) [
  | inr n ↦ rw n (get-set_other f g v h i n)
  | inl y ↦ elim (Option-cases (offset h.kind f)) [
    | inl e ↦ ground (arith, get-set_hidden f g v h e)
    | inr (a, e) ↦
        let same = same_field-eq f g y in
        let read = subst (λ k. get k (set f v h) ≡ v) same (get-set_same f a v h i b w e) in
        ground (arith, read)
  ]
]
