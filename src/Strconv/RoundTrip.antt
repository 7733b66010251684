-- ===== src/Strconv/RoundTrip.antt =====
-- Printing an `int64` and reading it back.
use policy_server.Prelude.{
  ℕ, zero, suc, ◌+◌, ◌*◌, ◌/◌, ◌%◌, ◌^◌, ◌≤◌, ◌<◌, ◌≡◌, refl, arith, none, [], ◌∷◌, inl, inr, false,
  Bool-cases, ◌==◌, lt→ltb, ltb, ltb→lt, Bool, true, leb,
}
use policy_server.Result.{Result, err, out_of_range, panicked, ok}
use policy_server.Strconv.{
  signed, ℤ, pos, negsuc, IsInt64, next_int64, digits, sprint, scan, parse_uint, parse_int,
}
use policy_server.Prelude.Texts.{Text}

-- The numbers of at most `k` digits lie below this.
ten_pow : ℕ → ℕ
ten_pow zero = 1
ten_pow (suc k) = 10 * ten_pow k

scan_digit :
    (whole : Text) (n m : ℕ) (out : Text)
    → m * 10 + n < 2 ^ 64
    → n < 10
    → scan whole ((48 + n) ∷ out) m ≡ scan whole out (m * 10 + n)
unfolding scan
scan_digit whole n m out h k = ground arith

scan_last :
    (whole : Text) (n : ℕ) (out : Text)
    → n < 2 ^ 64
    → scan whole ((48 + n % 10) ∷ out) (n / 10) ≡ scan whole out n
unfolding scan
scan_last whole n out h = ground arith

scan-digits :
    (whole : Text) (fuel n : ℕ) (out : Text)
    → n < ten_pow fuel
    → n < 2 ^ 64
    → 0 < fuel
    → scan whole (digits fuel n out) 0 ≡ scan whole out n
unfolding digits ten_pow
scan-digits whole zero n out h fits some_fuel = elim some_fuel [ ]
scan-digits whole (suc zero) n out h fits some_fuel = ground (arith, scan_last whole n out)
scan-digits whole (suc (suc fuel)) n out h fits some_fuel =
    ground
      (arith, scan_last whole n out, scan-digits whole (suc fuel) (n / 10) ((48 + n % 10) ∷ out))

-- The first byte is a digit.
digits_head :
    (fuel n : ℕ) (out : Text)
    → (c : ℕ) × (s : Text) × (digits (suc fuel) n out ≡ c ∷ s) × (48 ≤ c) × (c ≤ 57)
unfolding digits
digits_head zero n out = ((48 + n % 10), out, ground arith, omega arith, omega arith)
digits_head (suc fuel) n out = elim (Bool-cases (n / 10 == 0)) [
  | inl last ↦ ((48 + n % 10), out, rw last refl, omega arith, omega arith)
  | inr more ↦ rw more (digits_head fuel (n / 10) ((48 + n % 10) ∷ out))
]

below_limit : (n : ℕ) → n ≤ 2 ^ 63 → n < ten_pow 20
unfolding ten_pow
below_limit n h = omega arith

parse_uint-digits : (whole : Text) (n : ℕ) → n ≤ 2 ^ 63 → parse_uint whole (digits 20 n []) ≡ ok n
unfolding parse_uint
parse_uint-digits whole n h =
    let (c, s, e, low, high) = digits_head 19 n [] in
    let scanned : scan whole (digits 20 n []) 0 ≡ ok n =
      scan-digits whole 20 n [] (below_limit n h) (omega arith) (omega arith) in
    rw e (rw e at scanned)

parse_int_unsigned :
    (c : ℕ) (s : Text) (n : ℕ)
    → 48 ≤ c
    → parse_uint (c ∷ s) (c ∷ s) ≡ ok n
    → n < 2 ^ 63
    → parse_int (c ∷ s) ≡ (pos n, none)
unfolding parse_int
parse_int_unsigned c s n low read h =
    let dash : (c == b'-') ≡ false = ground arith in
    let plus : (c == b'+') ≡ false = ground arith in rw (dash, plus, read, lt→ltb n (2 ^ 63) h) refl

-- Every `int64` is read back from its decimal print.
pub parse_int-sprint : (z : ℤ) → IsInt64 z → parse_int (sprint z) ≡ (z, none)
unfolding parse_int sprint
parse_int-sprint (pos n) h =
    let (c, s, e, low, high) = digits_head 19 n [] in
    rw e (parse_int_unsigned c s n low (rw e at (parse_uint-digits (c ∷ s) n (omega arith))) h)
parse_int-sprint (negsuc n) h =
    ground (arith, parse_uint-digits (b'-' ∷ digits 20 (n + 1) []) (n + 1))

pub next_int64-IsInt64 : (z : ℤ) → IsInt64 z → IsInt64 (next_int64 z)
unfolding next_int64
next_int64-IsInt64 (pos n) h = ground arith
next_int64-IsInt64 (negsuc zero) h = omega arith
next_int64-IsInt64 (negsuc (suc n)) h = omega arith

signed-IsInt64 : (whole : Text) (neg : Bool) (r : Result ℕ) → IsInt64 (signed whole neg r).0
signed-IsInt64 whole true (ok zero) = ground arith
signed-IsInt64 whole true (ok (suc n)) = elim (Bool-cases (leb (suc n) (2 ^ 63))) [
  | inl fits ↦ rw fits (ground arith)
  | inr large ↦ rw large (omega arith)
]
signed-IsInt64 whole false (ok n) = elim (Bool-cases (ltb n (2 ^ 63))) [
  | inl fits ↦ rw fits (ltb→lt n (2 ^ 63) fits)
  | inr large ↦ rw large (omega arith)
]
signed-IsInt64 whole true (err (out_of_range s)) = omega arith
signed-IsInt64 whole false (err (out_of_range s)) = omega arith
signed-IsInt64 whole neg (err _) = omega arith
signed-IsInt64 whole neg panicked = omega arith

-- `ParseInt` returns an `int64`, also beside an error.
pub parse_int-IsInt64 : (s : Text) → IsInt64 (parse_int s).0
unfolding parse_int
parse_int-IsInt64 [] = omega arith
parse_int-IsInt64 (c ∷ s) = elim (Bool-cases (c == b'-')) [
  | inl dash ↦ rw dash (signed-IsInt64 (c ∷ s) true (parse_uint (c ∷ s) s))
  | inr other ↦ rw other (elim (Bool-cases (c == b'+')) [
    | inl plus ↦ rw plus (signed-IsInt64 (c ∷ s) false (parse_uint (c ∷ s) s))
    | inr digit ↦ rw digit (signed-IsInt64 (c ∷ s) false (parse_uint (c ∷ s) (c ∷ s)))
  ])
]
