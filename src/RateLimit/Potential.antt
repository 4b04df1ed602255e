-- ===== src/RateLimit/Potential.antt =====
-- What a client may still spend at a time, `credit_at`, and how `Shard::check` of
-- crates/geata/src/rate_limit.rs changes it; the well-formedness of a table.
use native.Mathlib.Nat.{mul-le-mul_right}
use geata.Common.{
  ℕ, ◌+◌, ◌-◌, ◌*◌, ◌≤◌, ◌<◌, ◌≡◌, refl, ◌∙◌, Option, none, some, false, arith, Result, is_ok,
  length, if◌then◌else◌, ◌==◌, is_some, ◌&&◌,
}
use geata.Common.Map.{
  get, Distinct, get-insert, get-retain, insert-Distinct, retain-Distinct, length-retain,
  length-insert, keep_if,
}
use geata.Net.{IpAddr, ip_Key, ip_eq_iff}
use geata.RateLimit.{
  Limit, Bucket, Shard, token, capacity, clients_per_shard, refilled, stays, sweep, serve, admit,
  check,
}

abbrev pub credit_of : Option Bucket → Limit → ℕ → ℕ
credit_of none limit now = capacity limit
credit_of (some b) limit now = refilled b limit now

-- A client with no bucket is given a full one.
abbrev pub credit_at : Shard → Limit → IpAddr → ℕ → ℕ
credit_at s limit client now = credit_of (get client s.clients) limit now

pub record IsValid (s : Shard) : Type 0 where
  pub distinct : Distinct s.clients
  pub bounded : length s.clients ≤ clients_per_shard

pub credit_of-le :
    (o : Option Bucket) (limit : Limit) (now : ℕ) → credit_of o limit now ≤ capacity limit
unfolding refilled
credit_of-le none limit now = omega arith
credit_of-le (some b) limit now = omega arith

mul-add-le : (x y z p : ℕ) → x ≤ y + z → x * p ≤ y * p + z * p
mul-add-le x y z p h = omega (arith, mul-le-mul_right p h)

-- Credit grows by at most `per_second` for each nanosecond.
pub credit_of-grows :
    (o : Option Bucket) (limit : Limit) (now later : ℕ)
    → now ≤ later
    → credit_of o limit later ≤ credit_of o limit now + (later - now) * limit.per_second
unfolding refilled
credit_of-grows none limit now later h = omega arith
credit_of-grows (some b) limit now later h = omega (
  arith,
  mul-add-le (later - b.updated) (now - b.updated) (later - now) limit.per_second (omega arith),
)

pub credit_of_mono :
    (o : Option Bucket) (limit : Limit) (now later : ℕ)
    → now ≤ later
    → credit_of o limit now ≤ credit_of o limit later
unfolding refilled
credit_of_mono none limit now later h = omega arith
credit_of_mono (some b) limit now later h =
    omega (arith, mul-add-le (now - b.updated) (later - b.updated) 0 limit.per_second (omega arith))

keep-credit :
    (limit : Limit) (now : ℕ) (client : IpAddr) (o : Option Bucket)
    → credit_of (keep_if (stays limit now) client o) limit now ≡ credit_of o limit now
unfolding stays refilled
keep-credit limit now client none = refl
keep-credit limit now client (some b) = ground arith

-- A sweep removes full buckets alone.
pub sweep-credit_at :
    (s : Shard) (limit : Limit) (now : ℕ) (client : IpAddr)
    → IsValid s
    → credit_at (sweep s limit now) limit client now ≡ credit_at s limit client now
unfolding sweep
sweep-credit_at s limit now client v = ground (
  arith,
  get-retain (stays limit now) client s.clients v.distinct,
  keep-credit limit now client (get client s.clients),
)

pub sweep-IsValid : (s : Shard) (limit : Limit) (now : ℕ) → IsValid s → IsValid (sweep s limit now)
unfolding sweep
sweep-IsValid s limit now v = ground (
  arith,
  retain-Distinct (stays limit now) s.clients v.distinct,
  length-retain (stays limit now) s.clients,
)

-- What the call takes from `client`: a token if it admits a request of that client.
abbrev pub spent : IpAddr → IpAddr → Result ℕ (Unit {0}) → ℕ
spent caller client r = if caller == client && is_ok r then token else 0

no_time : (now p : ℕ) → (now - now) * p ≡ 0
no_time now p = grind arith

pub refilled_now :
    (credit now : ℕ) (limit : Limit)
    → credit ≤ capacity limit
    → refilled (record { credit = credit; updated = now }) limit now ≡ credit
unfolding refilled
refilled_now credit now limit h = omega (arith, no_time now limit.per_second)

refilled-le : (b : Bucket) (limit : Limit) (now : ℕ) → refilled b limit now ≤ capacity limit
refilled-le b limit now = credit_of-le (some b) limit now

serve-credit_at :
    (s : Shard) (caller client : IpAddr) (limit : Limit) (now : ℕ) (b : Bucket)
    → (caller ≡ client → credit_at s limit client now ≡ refilled b limit now)
    → let (t, r) = serve s caller limit now b in
      credit_at t limit client now + spent caller client r ≡ credit_at s limit client now
unfolding serve
serve-credit_at s caller client limit now b same = ground (
  arith,
  same,
  ip_eq_iff caller client,
  get-insert caller client (record { credit = refilled b limit now - token; updated = now })
      s.clients,
  get-insert caller client (record { credit = refilled b limit now; updated = now }) s.clients,
  refilled_now (refilled b limit now - token) now limit,
  refilled_now (refilled b limit now) now limit,
  refilled-le b limit now,
)

serve-IsValid :
    (s : Shard) (client : IpAddr) (limit : Limit) (now : ℕ) (b : Bucket)
    → IsValid s
    → (is_some (get client s.clients) ≡ false → length s.clients < clients_per_shard)
    → IsValid (serve s client limit now b).0
unfolding serve
serve-IsValid s client limit now b v room =
    let spent_bucket : Bucket = record { credit = refilled b limit now - token; updated = now } in
    let same_bucket : Bucket = record { credit = refilled b limit now; updated = now } in
    ground (
      arith,
      room,
      insert-Distinct client spent_bucket s.clients v.distinct,
      insert-Distinct client same_bucket s.clients v.distinct,
      length-insert client spent_bucket s.clients,
      length-insert client same_bucket s.clients,
    )

admit-credit_at :
    (s : Shard) (caller client : IpAddr) (limit : Limit) (now : ℕ) (o : Option Bucket)
    → get caller s.clients ≡ o
    → let (t, r) = admit s caller limit now o in
      credit_at t limit client now + spent caller client r ≡ credit_at s limit client now
unfolding admit
admit-credit_at s caller client limit now (some b) e =
    serve-credit_at s caller client limit now b (λ same. rw (← same, e) refl)
admit-credit_at s caller client limit now none e =
    let fresh : Bucket = record { credit = capacity limit; updated = now } in
    ground (
      arith,
      serve-credit_at s caller client limit now fresh,
      refilled_now (capacity limit) now limit,
    )

admit-IsValid :
    (s : Shard) (client : IpAddr) (limit : Limit) (now : ℕ) (o : Option Bucket)
    → get client s.clients ≡ o
    → IsValid s
    → IsValid (admit s client limit now o).0
unfolding admit
admit-IsValid s client limit now (some b) e v = serve-IsValid s client limit now b v (λ absent. cc)
admit-IsValid s client limit now none e v =
    ground (
      arith,
      serve-IsValid s client limit now (record { credit = capacity limit; updated = now }) v,
    )

-- Every call keeps the keys distinct and the table within `CLIENTS_PER_SHARD` entries.
pub check-IsValid :
    (s : Shard) (client : IpAddr) (limit : Limit) (now : ℕ)
    → IsValid s
    → IsValid (check s client limit now).0
unfolding check
check-IsValid s client limit now v =
    admit-IsValid (sweep s limit now) client limit now _ refl (sweep-IsValid s limit now v)

-- A call takes one token from the caller if it admits the request, and nothing otherwise.
pub check-credit_at :
    (s : Shard) (caller client : IpAddr) (limit : Limit) (now : ℕ)
    → IsValid s
    → let (t, r) = check s caller limit now in
      credit_at t limit client now + spent caller client r ≡ credit_at s limit client now
unfolding check
check-credit_at s caller client limit now v =
    admit-credit_at (sweep s limit now) caller client limit now _ refl
    ∙ sweep-credit_at s limit now client v
