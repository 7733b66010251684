-- ===== src/Strconv.antt =====
-- What the handlers use of the standard library for resource versions: `fmt.Sprint` of an `int64`,
-- `strconv.ParseInt(s, 10, 64)`, and `int64` addition of one.
pub mod RoundTrip
use policy_server.Prelude.{
  ℕ, zero, suc, ◌+◌, ◌-◌, ◌*◌, ◌/◌, ◌%◌, ◌^◌, ◌<◌, ◌≡◌, refl, ◌||◌, Bool, true, false, Option, none,
  some, List, [], ◌∷◌, ltb, leb, ◌==◌, if◌then◌else◌,
}
use policy_server.Prelude.Texts.{Text, codes}
use policy_server.Result.{Error, invalid_syntax, out_of_range, Result, ok, err, panicked}

-- `negsuc n` is -(n + 1).
pub data ℤ : Type 0 where
  pos : ℕ → ℤ
  negsuc : ℕ → ℤ

-- The values of an `int64`.
abbrev pub IsInt64 : ℤ → Type 0
IsInt64 (pos n) = n < 2 ^ 63
IsInt64 (negsuc n) = n < 2 ^ 63

-- `x + 1` on `int64` wraps around.
unfoldable pub next_int64 : ℤ → ℤ
next_int64 (pos n) = if ltb (n + 1) (2 ^ 63) then pos (n + 1) else negsuc (2 ^ 63 - 1)
next_int64 (negsuc zero) = pos 0
next_int64 (negsuc (suc n)) = negsuc n

-- The decimal digits of `n` before `out`, at most `fuel` of them.
digits : ℕ → ℕ → Text → Text
digits zero n out = out
digits (suc fuel) n out =
    let rest = digits fuel (n / 10) ((48 + n % 10) ∷ out) in
    if n / 10 == 0 then (48 + n % 10) ∷ out else rest

-- `fmt.Sprint`. Twenty digits are enough for 64 bits.
unfoldable pub sprint : ℤ → Text
unfolding digits
sprint (pos n) = digits 20 n []
sprint (negsuc n) = b'-' ∷ digits 20 (n + 1) []

scan : Text → Text → ℕ → Result ℕ
scan whole [] n = ok n
scan whole (c ∷ s) n =
    if ltb c 48 || ltb 57 c
    then err (invalid_syntax whole)
    else if leb (2 ^ 64) (n * 10 + (c - 48))
    then err (out_of_range whole)
    else scan whole s (n * 10 + (c - 48))

-- `strconv.ParseUint(s, 10, 64)`
unfoldable pub parse_uint : Text → Text → Result ℕ
unfolding scan
parse_uint whole [] = err (invalid_syntax whole)
parse_uint whole (c ∷ s) = scan whole (c ∷ s) 0

abbrev max_magnitude : Bool → ℤ
max_magnitude true = negsuc (2 ^ 63 - 1)
max_magnitude false = pos (2 ^ 63 - 1)

abbrev negate : ℕ → ℤ
negate zero = pos 0
negate (suc n) = negsuc n

abbrev signed : Text → Bool → Result ℕ → ℤ × Option Error
signed whole neg (ok n) =
    if neg
    then (if leb n (2 ^ 63)
        then (negate n, none)
        else (max_magnitude neg, some (out_of_range whole)))
    else (if ltb n (2 ^ 63) then (pos n, none) else (max_magnitude neg, some (out_of_range whole)))
signed whole neg (err (out_of_range s)) = (max_magnitude neg, some (out_of_range whole))
signed whole neg (err _) = (pos 0, some (invalid_syntax whole))
signed whole neg panicked = (pos 0, none)

-- `strconv.ParseInt(s, 10, 64)`: the value and the error, as Go returns them.
unfoldable pub parse_int : Text → ℤ × Option Error
parse_int [] = (pos 0, some (invalid_syntax []))
parse_int (c ∷ s) =
    if c == b'-'
    then signed (c ∷ s) true (parse_uint (c ∷ s) s)
    else if c == b'+'
    then signed (c ∷ s) false (parse_uint (c ∷ s) s)
    else signed (c ∷ s) false (parse_uint (c ∷ s) (c ∷ s))

sprint_42 : (sprint (pos 42) ≡ codes "42") × (sprint (negsuc 9) ≡ codes "-10")
unfolding sprint
sprint_42 = (refl, refl)

parse_int_tests :
    (parse_int (codes "-10") ≡ (negsuc 9, none))
    × (parse_int (codes "9223372036854775808")
        ≡ (pos (2 ^ 63 - 1), some (out_of_range (codes "9223372036854775808"))))
    × (parse_int (codes "1x") ≡ (pos 0, some (invalid_syntax (codes "1x"))))
unfolding parse_int parse_uint
parse_int_tests = (refl, refl, refl)
