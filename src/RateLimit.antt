-- ===== src/RateLimit.antt =====
-- crates/geata/src/rate_limit.rs: token buckets in sharded tables. An `Instant` is its number of
-- nanoseconds, so `duration_since`, which stops at zero, is the subtraction of ℕ.
pub mod Potential
pub mod Admission
pub mod Wait
use geata.Common.{
  ℕ, ◌+◌, ◌-◌, ◌*◌, ◌/◌, ◌%◌, ◌^◌, min, Option, none, some, List, [], ◌∷◌, ◌||◌, leb, ltb, nat_eq,
  Result, ok, err, Bool, if◌then◌else◌, length,
}
use geata.Common.Map.{Map, get, insert, retain}
use geata.Net.{IpAddr, client_key, ip_Key}

abbrev pub shard_count : ℕ
shard_count = 16

abbrev pub clients_per_shard : ℕ
clients_per_shard = 1024

-- 60 seconds
abbrev pub idle : ℕ
idle = 60_000_000_000

-- The credit of one request.
abbrev pub token : ℕ
token = 1_000_000_000

pub record Limit : Type 0 where
  pub per_second : ℕ
  pub burst : ℕ

pub record Bucket : Type 0 where
  pub credit : ℕ
  pub updated : ℕ

pub record Shard : Type 0 where
  pub clients : Map IpAddr Bucket
  pub swept : ℕ

abbrev pub capacity : Limit → ℕ
capacity limit = limit.burst * token

unfoldable pub refilled : Bucket → Limit → ℕ → ℕ
refilled b limit now = min (b.credit + (now - b.updated) * limit.per_second) (limit.burst * token)

-- `u128::div_ceil`, for a divisor that is not 0.
unfoldable pub div_ceil : ℕ → ℕ → ℕ
div_ceil a b = (a + (b - 1)) / b

-- The test of the `retain` in `Shard::check`: a bucket goes when it is idle and full again.
unfoldable pub stays : Limit → ℕ → IpAddr → Bucket → Bool
stays limit now _ b = ltb (now - b.updated) idle || ltb (refilled b limit now) (capacity limit)

unfoldable pub sweep : Shard → Limit → ℕ → Shard
sweep s limit now =
    if leb idle (now - s.swept)
    then record { clients = retain (stays limit now) s.clients; swept = now }
    else s

-- The end of `Shard::check`, once the client's bucket is at hand.
unfoldable pub serve : Shard → IpAddr → Limit → ℕ → Bucket → Shard × Result ℕ (Unit {0})
serve s client limit now bucket =
    let credit = refilled bucket limit now in
    if leb token credit
    then (
      record s {
        clients = insert client (record { credit = credit - token; updated = now }) s.clients;
      },
      ok tt,
    )
    else (
      record s { clients = insert client (record { credit = credit; updated = now }) s.clients },
      err (div_ceil (token - credit) limit.per_second % 2 ^ 64),
    )

unfoldable pub admit : Shard → IpAddr → Limit → ℕ → Option Bucket → Shard × Result ℕ (Unit {0})
unfolding serve
admit s client limit now (some bucket) = serve s client limit now bucket
admit s client limit now none =
    if leb clients_per_shard (length s.clients)
    then (s, err idle)
    else serve s client limit now (record { credit = capacity limit; updated = now })

-- `Shard::check`: the table after the call, and `Err` with the nanoseconds to wait.
unfoldable pub check : Shard → IpAddr → Limit → ℕ → Shard × Result ℕ (Unit {0})
unfolding sweep admit
check s client limit now =
    let swept = sweep s limit now in admit swept client limit now (get client swept.clients)

-- The limiter of a site. The hash of its `RandomState` is not known: it is an argument below.
pub record RateLimiter : Type 0 where
  pub limit : Limit
  pub ipv6_prefix : ℕ
  pub shards : ℕ → Shard

unfoldable pub with_prefix : Limit → ℕ → ℕ → RateLimiter
with_prefix limit ipv6_prefix now = record {
  limit = limit;
  ipv6_prefix = ipv6_prefix;
  shards = λ _. record { clients = []; swept = now };
}

unfoldable pub update_shard : (ℕ → Shard) → ℕ → Shard → ℕ → Shard
update_shard shards i s j = if nat_eq i j then s else shards j

-- `check_with_clock`, with the clock's reading under the shard's lock as `now`.
unfoldable pub check_with_clock :
    (IpAddr → ℕ) → RateLimiter → IpAddr → ℕ → RateLimiter × Result ℕ (Unit {0})
unfolding check update_shard client_key
check_with_clock hash_one r client now =
    let key = client_key client r.ipv6_prefix in
    let index = hash_one key % shard_count in
    let (s, result) = check (r.shards index) key r.limit now in
    (record r { shards = update_shard r.shards index s }, result)
