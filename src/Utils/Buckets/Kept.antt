-- ===== src/Utils/Buckets/Kept.antt =====
-- The buckets keep the default ones, and have one for the timeout unless a default one is near.
use mathlib.Core.List.{Memᴰ}
use mathlib.Core.List.Memᴰ
use policy_server.Prelude.{
  ℕ, zero, suc, ◌+◌, ◌≡◌, refl, ap, subst, ◌∙◌, ◌⊎◌, inl, inr, true, false, Bool-cases, List, [],
  ◌∷◌, ◌++◌, arith,
}
use policy_server.Strconv.{ℤ}
use policy_server.Utils.Float64.{Float64, sub64, less, less_total}
use policy_server.Utils.Buckets.{
  last_of, nth, take, drop, first_above, is_close, with_timeout, timeout_seconds,
  buckets_for_scrape_duration,
}

-- `c` is above `t` or not, and nearer to it than `first` is to 0, as `float64` computes it.
abbrev pub IsNear : Float64 → Float64 → Float64 → Type 0
IsNear first t c =
    ((less t c ≡ true) × (less (sub64 c t) first ≡ true))
    ⊎ ((less t c ≡ false) × (less (sub64 t c) first ≡ true))

-- The default buckets are all there, and so is `t`, or a default bucket near it.
abbrev pub Covers : Float64 → List Float64 → Float64 → List Float64 → Type 0
Covers first rest t bs =
    ((c : Float64) → Memᴰ c (first ∷ rest) → Memᴰ c bs)
    × (Memᴰ t bs ⊎ ((c : Float64) × Memᴰ c (first ∷ rest) × IsNear first t c))

last_of-Memᴰ : (b : Float64) (bs : List Float64) → Memᴰ (last_of b bs) (b ∷ bs)
last_of-Memᴰ b [] = Memᴰ.head refl
last_of-Memᴰ b (c ∷ cs) = Memᴰ.tail (last_of-Memᴰ c cs)

widen :
    (t : Float64) (before after : List Float64) (c : Float64)
    → Memᴰ c (before ++ after)
    → Memᴰ c (before ++ (t ∷ after))
widen t before after c h = elim (Memᴰ.append_cases before h) [
  | inl left ↦ Memᴰ.append_left (t ∷ after) left
  | inr right ↦ Memᴰ.append_right before (Memᴰ.tail right)
]

-- Where the loop stops in the buckets `b ∷ cs`, with the index `i` for `b`.
record Stop (t b : Float64) (i : ℕ) (cs : List Float64) : Type 0 where
  count : ℕ
  bucket : Float64
  stops : first_above t i b cs ≡ (i + count, bucket)
  listed : Memᴰ bucket (b ∷ cs)
  joined : b ∷ cs ≡ take count (b ∷ cs) ++ drop count (b ∷ cs)
  above : less t bucket ≡ true
  previous :
      (j : ℕ) → count ≡ suc j → Memᴰ (nth j (b ∷ cs)) (b ∷ cs) × (less t (nth j (b ∷ cs)) ≡ false)

first-Stop :
    (t b : Float64) (i : ℕ) (cs : List Float64)
    → first_above t i b cs ≡ (i, b)
    → less t b ≡ true
    → Stop t b i cs
first-Stop t b i cs e above = record {
  count = 0;
  bucket = b;
  stops = e ∙ ground arith;
  listed = Memᴰ.head refl;
  joined = refl;
  above = above;
  previous = λ j e. absurd (omega (arith, e));
}

previous_step :
    (t b : Float64) (cs : List Float64) (count : ℕ)
    → less t b ≡ false
    → ((j : ℕ) → count ≡ suc j → Memᴰ (nth j cs) cs × (less t (nth j cs) ≡ false))
    → (j : ℕ) → count ≡ j
    → Memᴰ (nth j (b ∷ cs)) (b ∷ cs) × (less t (nth j (b ∷ cs)) ≡ false)
previous_step t b cs count on previous zero e = (Memᴰ.head refl, on)
previous_step t b cs count on previous (suc j) e =
    let (m, below) = previous j e in (Memᴰ.tail m, below)

loop-Stop :
    (t b : Float64) (i : ℕ) (cs : List Float64) → less t (last_of b cs) ≡ true → Stop t b i cs
unfolding first_above
loop-Stop t b i [] low = first-Stop t b i [] refl low
loop-Stop t b i (c ∷ cs) low = elim (Bool-cases (less t b)) [
  | inl stop ↦ first-Stop t b i (c ∷ cs) (rw stop refl) stop
  | inr on ↦
      let rest = loop-Stop t c (i + 1) cs low in
      record {
        count = suc rest.count;
        bucket = rest.bucket;
        stops = rw on (rest.stops ∙ ground arith);
        listed = Memᴰ.tail rest.listed;
        joined = ap (λ (l : List Float64). b ∷ l) rest.joined;
        above = rest.above;
        previous =
            λ j e. previous_step t b (c ∷ cs) rest.count on rest.previous j (omega (arith, e));
      }
]

module _ (first : Float64) (rest : List Float64) where
  module _ (t : Float64) (k : Stop t first 0 rest) where
    bucket-IsNear :
        (n : ℕ)
        → k.count ≡ n
        → is_close first rest t n k.bucket ≡ true
        → (c : Float64) × Memᴰ c (first ∷ rest) × IsNear first t c
    unfolding is_close
    bucket-IsNear zero e close = (k.bucket, k.listed, inl (k.above, close))
    bucket-IsNear (suc j) e close = elim (Bool-cases (less (sub64 k.bucket t) first)) [
      | inl near ↦ (k.bucket, k.listed, inl (k.above, near))
      | inr other ↦
          let (m, below) = k.previous j e in
          (nth j (first ∷ rest), m, inr (below, rw other at close))
    ]

    stopped : first_above t 0 first rest ≡ (k.count, k.bucket)
    stopped = k.stops ∙ ap (λ (n : ℕ). (n, k.bucket)) (omega arith)

    with_timeout-Covers : Covers first rest t (with_timeout first rest t)
    unfolding with_timeout
    with_timeout-Covers = elim (Bool-cases (is_close first rest t k.count k.bucket)) [
      | inl near ↦ rw stopped (rw near (λ c h. h, inr (bucket-IsNear k.count refl near)))
      | inr far ↦ rw stopped (
          rw far (
            λ c h.
                widen t (take k.count (first ∷ rest)) (drop k.count (first ∷ rest)) c
                  (subst (λ l. Memᴰ c l) k.joined h),
            inl (Memᴰ.append_right (take k.count (first ∷ rest)) (Memᴰ.head refl)),
          ))
    ]

  -- For any default buckets and any `int64` timeout, the buckets for the timeout have all the
  -- default ones, and one at the timeout in seconds, unless a default bucket is near: it is above
  -- the timeout, and its `float64` distance from it is below the first default bucket, or it is
  -- not above the timeout and the same is true of the distance the other way.
  pub buckets_cover :
      (timeout : ℤ)
      → Covers first rest (timeout_seconds timeout) (buckets_for_scrape_duration first rest timeout)
  unfolding buckets_for_scrape_duration
  buckets_cover timeout = elim (Bool-cases (less (last_of first rest) (timeout_seconds timeout))) [
    | inl longer ↦ rw longer (
      λ c h. Memᴰ.append_left _ h,
      inl (Memᴰ.append_right (first ∷ rest) (Memᴰ.tail (Memᴰ.head refl))),
    )
    | inr not_longer ↦
        rw not_longer (elim (Bool-cases (less (timeout_seconds timeout) (last_of first rest))) [
          | inl shorter ↦
              let k = loop-Stop (timeout_seconds timeout) first 0 rest shorter in
              rw shorter (with_timeout-Covers (timeout_seconds timeout) k)
          | inr not_shorter ↦
              let same : last_of first rest ≡ timeout_seconds timeout =
                less_total _ _ not_longer not_shorter in
              rw not_shorter
                (λ c h. h, inl (subst (λ c. Memᴰ c (first ∷ rest)) same (last_of-Memᴰ first rest)))
        ])
  ]
