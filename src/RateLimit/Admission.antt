-- ===== src/RateLimit/Admission.antt =====
-- How many requests a `RateLimiter` of crates/geata/src/rate_limit.rs admits over any history.
use native.Mathlib.Nat.{add-zero, add-mul}
use geata.Common.{
  ℕ, ◌+◌, ◌-◌, ◌*◌, ◌%◌, ◌≤◌, ◌≡◌, ◌≢◌, sym, ap, List, [], ◌∷◌, arith, false, Result, is_ok,
  if◌then◌else◌, ◌==◌, ◌&&◌, nat_eq, nat_eq_iff, Bool-cases, inl, inr,
}
use geata.Common.Map.{get}
use geata.Net.{IpAddr, ip_Key, ip_eq_iff, client_key}
use geata.RateLimit.{
  Limit, RateLimiter, token, shard_count, with_prefix, update_shard, check_with_clock,
}
use geata.RateLimit.Potential.{
  credit_at, credit_of-le, credit_of-grows, spent, IsValid, check-IsValid, check-credit_at,
}

-- A request of a client, with the clock's reading under the shard's lock.
pub record Request : Type 0 where
  pub client : IpAddr
  pub now : ℕ

module _ (hash_one : IpAddr → ℕ) where
  -- The limiter after the requests, in the order in which the locks were taken.
  unfoldable pub run : RateLimiter → List Request → RateLimiter
  run r [] = r
  run r (q ∷ qs) = run (check_with_clock hash_one r q.client q.now).0 qs

  -- How many of them it admitted for one key.
  unfoldable pub admitted : IpAddr → RateLimiter → List Request → ℕ
  admitted key r [] = 0
  admitted key r (q ∷ qs) =
      let (r', result) = check_with_clock hash_one r q.client q.now in
      (if client_key q.client r.ipv6_prefix == key && is_ok result then 1 else 0)
      + admitted key r' qs

  abbrev pub credit : RateLimiter → IpAddr → ℕ → ℕ
  credit r key now = credit_at (r.shards (hash_one key % shard_count)) r.limit key now

-- The clock does not run backwards: each reading is at least the one before.
abbrev pub Ordered : ℕ → List Request → Type 0
Ordered start [] = Unit
Ordered start (q ∷ qs) = (start ≤ q.now) × Ordered q.now qs

abbrev pub last_time : ℕ → List Request → ℕ
last_time start [] = start
last_time start (q ∷ qs) = last_time q.now qs

abbrev pub AllValid : RateLimiter → Type 0
AllValid r = (i : ℕ) → IsValid (r.shards i)

spent-other :
    (caller key : IpAddr) (result : Result ℕ (Unit {0}))
    → caller ≢ key
    → spent caller key result ≡ 0
spent-other caller key result h = ground (arith, ip_eq_iff caller key)

hit_spent :
    (caller key : IpAddr) (result : Result ℕ (Unit {0}))
    → (if caller == key && is_ok result then 1 else 0) * token ≡ spent caller key result
hit_spent caller key result = ground arith

last_time-ge : (start : ℕ) (qs : List Request) → Ordered start qs → start ≤ last_time start qs
last_time-ge start [] o = omega arith
last_time-ge start (q ∷ qs) o = omega (arith, last_time-ge q.now qs o.1)

spans : (a b c p : ℕ) → a ≤ b → b ≤ c → (c - b) * p + (b - a) * p ≡ (c - a) * p
spans a b c p h k =
    let e : c - a ≡ (c - b) + (b - a) = omega arith in rw e (sym (add-mul (c - b) (b - a) p))

index-ne :
    (hash_one : IpAddr → ℕ) (a b : IpAddr)
    → nat_eq (hash_one a % shard_count) (hash_one b % shard_count) ≡ false
    → a ≢ b
index-ne hash_one a b h e =
    let same : hash_one a % shard_count ≡ hash_one b % shard_count =
      ap (λ k. hash_one k % shard_count) e in
    ground arith

module _ (hash_one : IpAddr → ℕ) where
  check_with_clock-AllValid :
      (r : RateLimiter) (client : IpAddr) (now : ℕ)
      → AllValid r
      → AllValid (check_with_clock hash_one r client now).0
  unfolding check_with_clock update_shard
  check_with_clock-AllValid r client now v j =
      let key = client_key client r.ipv6_prefix in
      let index = hash_one key % shard_count in
      elim (Bool-cases (nat_eq index j)) [
        | inl same ↦ rw same (check-IsValid (r.shards index) key r.limit now (v index))
        | inr other ↦ rw other (v j)
      ]

  -- One request takes one token from its key if it is admitted, and nothing from any other key.
  pub check_with_clock-credit :
      (r : RateLimiter) (client key : IpAddr) (now : ℕ)
      → AllValid r
      → let (r', result) = check_with_clock hash_one r client now in
        credit hash_one r' key now + spent (client_key client r.ipv6_prefix) key result
        ≡ credit hash_one r key now
  unfolding check_with_clock update_shard
  check_with_clock-credit r client key now v =
      let caller = client_key client r.ipv6_prefix in
      let index = hash_one caller % shard_count in
      elim (Bool-cases (nat_eq index (hash_one key % shard_count))) [
        | inl same ↦
            let e : index ≡ hash_one key % shard_count = (nat_eq_iff _ _).0 same in
            rw (same, ← e) (check-credit_at (r.shards index) caller key r.limit now (v index))
        | inr other ↦
            rw (other, spent-other caller key _ (index-ne hash_one caller key other)) (add-zero _)
      ]

  admitted-le_credit :
      (key : IpAddr) (start : ℕ) (r : RateLimiter) (qs : List Request)
      → AllValid r
      → Ordered start qs
      → admitted hash_one key r qs * token
        ≤ credit hash_one r key start + (last_time start qs - start) * r.limit.per_second
  unfolding admitted check_with_clock
  admitted-le_credit key start r [] v o = omega arith
  admitted-le_credit key start r (q ∷ qs) v o =
      let caller = client_key q.client r.ipv6_prefix in
      let (r', result) = check_with_clock hash_one r q.client q.now in
      omega (
        arith,
        hit_spent caller key result,
        check_with_clock-credit r q.client key q.now v,
        admitted-le_credit key q.now r' qs (check_with_clock-AllValid r q.client q.now v) o.1,
        credit_of-grows (get key (r.shards (hash_one key % shard_count)).clients) r.limit start
            q.now o.0,
        spans start q.now (last_time q.now qs) r.limit.per_second o.0 (last_time-ge q.now qs o.1),
      )

  -- Over any history with a clock that does not run backwards, from any valid table, with any
  -- hash and any other clients, the requests that the limiter admits for one key, times a token,
  -- are at most the burst's tokens and `per_second` for each nanosecond of the history.
  pub admitted_bounded :
      (key : IpAddr) (start : ℕ) (r : RateLimiter) (qs : List Request)
      → AllValid r
      → Ordered start qs
      → admitted hash_one key r qs * token
        ≤ r.limit.burst * token + (last_time start qs - start) * r.limit.per_second
  admitted_bounded key start r qs v o = omega (
    arith,
    admitted-le_credit key start r qs v o,
    credit_of-le (get key (r.shards (hash_one key % shard_count)).clients) r.limit start,
  )

-- A new limiter's tables are valid.
pub with_prefix-AllValid :
    (limit : Limit) (ipv6_prefix now : ℕ) → AllValid (with_prefix limit ipv6_prefix now)
unfolding with_prefix
with_prefix-AllValid limit ipv6_prefix now i = record { distinct = tt; bounded = omega arith }
