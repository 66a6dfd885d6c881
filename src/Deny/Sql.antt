-- ===== src/Deny/Sql.antt =====
-- The statements that native/src/core/deny/utils.cpp prints into its buffers.
use kitsune_ufork.Common.{◌&&◌, leb, Bool-cases, inl, inr}
use kitsune_ufork.Common.{
  ℕ, zero, suc, ap, ◌∙◌, ◌+◌, ◌≤◌, Bool, true, false, [], ◌∷◌, ◌++◌, ◌≡◌, refl, arith, Text, codes,
  length, length-append, take, take_all, str_eql, ◌==◌, if◌then◌else◌,
}
use kitsune_ufork.Deny.Validate.{validate, validate-no_quote, isolated_magic, quote, no_quote}
use kitsune_ufork.Deny.Edit.{insert_text, insert_sql, sql_buffer}
use kitsune_ufork.Deny.Enforce.{config_sql}

-- The statement and its final zero fit `char sql[64]`, which sprintf does not check.
pub config_sql_fits :
    (key : Text) (on : Bool) → length key ≤ 17 → length (config_sql key on) + 1 ≤ 64
unfolding config_sql
config_sql_fits key true h = omega (
  arith,
  length-append (codes "REPLACE INTO settings (key,value) VALUES('")
      (key ++ (codes "'," ++ (codes "1" ++ codes ")"))),
  length-append key (codes "'," ++ (codes "1" ++ codes ")")),
)
config_sql_fits key false h = omega (
  arith,
  length-append (codes "REPLACE INTO settings (key,value) VALUES('")
      (key ++ (codes "'," ++ (codes "0" ++ codes ")"))),
  length-append key (codes "'," ++ (codes "0" ++ codes ")")),
)

length-insert_text :
    (table pkg proc : Text)
    → length (insert_text table pkg proc) ≡ 51 + length table + length pkg + length proc
length-insert_text table pkg proc = simp (length-append) (omega arith)

-- Names of up to 4,000 characters together reach the database whole.
pub insert_sql_whole :
    (table pkg proc : Text)
    → length table ≤ 8
    → length pkg + length proc ≤ 4000
    → insert_sql table pkg proc ≡ insert_text table pkg proc
insert_sql_whole table pkg proc t h =
    take_all sql_buffer (insert_text table pkg proc)
      (omega (arith, length-insert_text table pkg proc))

-- The quotes in a text.
abbrev pub quotes : Text → ℕ
quotes [] = 0
quotes (c ∷ s) = (if c == quote then 1 else 0) + quotes s

quotes-append : (s t : Text) → quotes (s ++ t) ≡ quotes s + quotes t
quotes-append [] t = omega arith
quotes-append (c ∷ s) t = omega (arith, quotes-append s t)

quotes-no_quote : (s : Text) → no_quote s ≡ true → quotes s ≡ 0
quotes-no_quote [] h = refl
quotes-no_quote (c ∷ s) h = ground (arith, quotes-no_quote s)

quotes-insert_text :
    (table pkg proc : Text)
    → quotes (insert_text table pkg proc) ≡ quotes table + (4 + (quotes pkg + quotes proc))
quotes-insert_text table pkg proc = simp quotes-append (omega arith)

quotes-take : (n : ℕ) (s : Text) → quotes (take n s) ≤ quotes s
quotes-take zero s = omega arith
quotes-take (suc n) [] = omega arith
quotes-take (suc n) (c ∷ s) = omega (arith, quotes-take n s)

at_most : (n : ℕ) → n ≤ 4 → leb n 4 ≡ true
at_most n h = ground (arith, h)

is_four : (n : ℕ) → n ≡ 4 → (n == 4) ≡ true
is_four n h = ground (arith, h)

-- Into a table whose name has no quote, the INSERT that is sent for a name that validates for an app
-- has at most the four quotes of its template, and all four when the name of the table has at most 8
-- and the two names together at most 4,000 characters; a longer statement is cut.
pub insert_sql-quotes :
    (table pkg proc : Text)
    → quotes table ≡ 0
    → str_eql pkg isolated_magic ≡ false
    → validate pkg proc ≡ true
    → (if leb (length table) 8 && leb (length pkg + length proc) 4000
        then quotes (insert_sql table pkg proc) == 4
        else leb (quotes (insert_sql table pkg proc)) 4)
      ≡ true
insert_sql-quotes table pkg proc t app v =
    let (p, q) = validate-no_quote pkg proc app v in
    let four : quotes (insert_text table pkg proc) ≡ 4 =
      omega
        (arith, quotes-insert_text table pkg proc, quotes-no_quote pkg p, quotes-no_quote proc q) in
    let most : quotes (insert_sql table pkg proc) ≤ 4 =
      omega (arith, quotes-take sql_buffer (insert_text table pkg proc), four) in
    elim (Bool-cases (leb (length table) 8 && leb (length pkg + length proc) 4000)) [
      | inl short ↦
          let whole =
            insert_sql_whole table pkg proc (ground (arith, short)) (ground (arith, short)) in
          rw short (is_four (quotes (insert_sql table pkg proc)) (ap quotes whole ∙ four))
      | inr long ↦ rw long (at_most (quotes (insert_sql table pkg proc)) most)
    ]
