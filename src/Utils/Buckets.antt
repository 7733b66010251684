-- ===== src/Utils/Buckets.antt =====
-- pkg/utils/monitoring.go: the histogram buckets for a scrape timeout. The default buckets, which the
-- metrics library holds, are a parameter: the first one and the others.
pub mod Kept
use policy_server.Prelude.{
  ℕ, zero, suc, ◌+◌, ◌*◌, ◌^◌, Bool, true, List, [], ◌∷◌, ◌++◌, if◌then◌else◌,
}
use policy_server.Strconv.{ℤ, pos}
use policy_server.Utils.Float64.{Float64, one_unit, of_int64, add64, sub64, div64, mul64, less}

abbrev pub last_of : Float64 → List Float64 → Float64
last_of b [] = b
last_of b (c ∷ cs) = last_of c cs

abbrev pub nth : ℕ → List Float64 → Float64
nth n [] = pos 0
nth zero (b ∷ bs) = b
nth (suc n) (b ∷ bs) = nth n bs

abbrev pub take : ℕ → List Float64 → List Float64
take zero bs = []
take (suc n) [] = []
take (suc n) (b ∷ bs) = b ∷ take n bs

abbrev pub drop : ℕ → List Float64 → List Float64
drop zero bs = bs
drop (suc n) [] = []
drop (suc n) (b ∷ bs) = drop n bs

-- `for i, bucket = range buckets { if bucket > timeoutSeconds { break } }`: the last `i` and `bucket`.
unfoldable pub first_above : Float64 → ℕ → Float64 → List Float64 → ℕ × Float64
first_above t i b [] = (i, b)
first_above t i b (c ∷ cs) =
    let rest = first_above t (i + 1) c cs in if less t b then (i, b) else rest

-- `bucket-timeoutSeconds < buckets[0] || (i > 0 && timeoutSeconds-buckets[i-1] < buckets[0])`
unfoldable pub is_close : Float64 → List Float64 → Float64 → ℕ → Float64 → Bool
is_close first rest t zero b = less (sub64 b t) first
is_close first rest t (suc i) b =
    if less (sub64 b t) first then true else less (sub64 t (nth i (first ∷ rest))) first

-- The branch of a timeout below the last bucket.
unfoldable pub with_timeout : Float64 → List Float64 → Float64 → List Float64
with_timeout first rest t =
    let (i, b) = first_above t 0 first rest in
    if is_close first rest t i b
    then first ∷ rest
    else take i (first ∷ rest) ++ (t ∷ drop i (first ∷ rest))

-- `float64(scrapeTimeout) / float64(time.Second)`, from nanoseconds.
unfoldable pub timeout_seconds : ℤ → Float64
timeout_seconds timeout = div64 (of_int64 timeout) (10 ^ 9 * one_unit)

-- `BucketsForScrapeDuration`
unfoldable pub buckets_for_scrape_duration : Float64 → List Float64 → ℤ → List Float64
buckets_for_scrape_duration first rest timeout =
    let max = last_of first rest in
    let t = timeout_seconds timeout in
    if less max t
    then (let halfway = add64 max (div64 (sub64 t max) (2 * one_unit)) in
        (first ∷ rest) ++ (halfway ∷ t ∷ mul64 t (3 * 2 ^ 1073) ∷ mul64 t (2 * one_unit) ∷ []))
    else if less t max
    then with_timeout first rest t
    else first ∷ rest
