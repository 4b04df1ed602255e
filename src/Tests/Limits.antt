-- ===== src/Tests/Limits.antt =====
-- Tests of the rate limiter, of capacities and of retries.
use geata.Common.{
  ℕ, ◌+◌, ◌-◌, ◌*◌, ◌/◌, ◌^◌, min, ◌≤◌, ◌<◌, ◌≡◌, ◌↔◌, refl, none, some, true, false, [], ◌∷◌,
  arith, is_ok, is_some, ltb, length, ◌&&◌,
}
use geata.Common.Map.{get, insert}
use geata.Net.{
  IpAddr, v4, v6, ip_Key, ip_eq, client_key, to_canonical, SameClient, client_key-eq_iff,
}
use geata.RateLimit.{
  Limit, Shard, RateLimiter, token, check, check_with_clock, with_prefix, refilled, div_ceil,
}
use geata.RateLimit.Admission.{Request, admitted, admitted_bounded, with_prefix-AllValid}
use geata.RateLimit.Wait.{wait_exact}
use geata.Capacity.{new, try_acquire}
use geata.Capacity.Permits.{count}
use geata.Capacity.Reach.{
  Use, Reach, here, next, acquires, fresh, unused, permits_bounded, all_returned, half_reserved,
}
use geata.Retry.{Retry, failed, begin, base, ready}
use geata.Retry.Bounds.{failed_delay, failed_backoff, base_grows, begin_lem}

abbrev localhost : IpAddr
localhost = v4 0x7f000001

-- `rate_limit 10/s burst 2`
abbrev ten_per_second : Limit
ten_per_second = record { per_second = 10; burst = 2 }

abbrev empty_shard : Shard
empty_shard = record { clients = []; swept = 0 }

abbrev one_hash : IpAddr → ℕ
one_hash _ = 5

abbrev limiter : RateLimiter
limiter = with_prefix ten_per_second 64 0

abbrev at : ℕ → Request
at ms = record { client = localhost; now = ms * 1_000_000 }

-- The calls of the source's own test, up to the first idle period.
burst_refills :
    admitted one_hash localhost limiter (at 0 ∷ at 0 ∷ at 0 ∷ at 40 ∷ at 99 ∷ at 100 ∷ at 100 ∷ [])
    ≡ 3
unfolding admitted check_with_clock check refilled get insert ip_eq div_ceil with_prefix
burst_refills = refl

admitted_bounded_example :
    admitted one_hash localhost limiter (at 0 ∷ at 0 ∷ at 0 ∷ at 100 ∷ []) * token
    ≤ 2 * token + 100_000_000 * 10
unfolding with_prefix
admitted_bounded_example =
    admitted_bounded one_hash localhost 0 limiter (at 0 ∷ at 0 ∷ at 0 ∷ at 100 ∷ [])
      (with_prefix-AllValid ten_per_second 64 0) (omega arith)

abbrev drained : Shard
drained = record { clients = (localhost, record { credit = 0; updated = 0 }) ∷ []; swept = 0 }

wait_exact_example : is_ok (check drained localhost ten_per_second 100_000_000).1 ≡ true
unfolding check get insert refilled div_ceil ip_eq
wait_exact_example =
    wait_exact drained drained localhost ten_per_second 0 100_000_000 100_000_000
      (record { distinct = (refl, tt); bounded = omega arith }) (omega arith) (omega arith) refl
      refl (omega arith)

client_key-eq_iff_example :
    (client_key (v6 0x20010db8000100020000000000000001) 48
      ≡ client_key (v6 0x20010db8000100030000000000000002) 48)
    ↔ SameClient 48
        (to_canonical (v6 0x20010db8000100020000000000000001))
        (to_canonical (v6 0x20010db8000100030000000000000002))
client_key-eq_iff_example =
    client_key-eq_iff 48 (v6 0x20010db8000100020000000000000001)
      (v6 0x20010db8000100030000000000000002)

-- The boundaries of the source's own test.
prefix_boundaries :
    (client_key (v6 0x20010db8000100020000000000000001) 48
      ≡ client_key (v6 0x20010db8000100030000000000000002) 48)
    × (client_key (v6 0x20010db8000100020000000000000001) 128
        ≡ v6 0x20010db8000100020000000000000001)
    × (client_key (v6 0x20010db8000100020000000000000001) 0 ≡ v6 0)
    × (client_key (v6 0xffff7f000001) 64 ≡ localhost)
unfolding client_key
prefix_boundaries = (refl, refl, refl, refl)

abbrev one_out : Use
one_out = record {
  capacity = (try_acquire (fresh 4 2).capacity localhost).0;
  permits = record { client = localhost } ∷ [];
  returning = 0;
}

one_out-Reach : Reach (fresh 4 2) one_out
unfolding try_acquire new get client_key
one_out-Reach = next here (acquires localhost)

permits_bounded_example :
    (length one_out.permits + one_out.returning ≤ 4)
    × (count (client_key localhost one_out.capacity.ipv6_prefix) one_out.permits ≤ 2)
    × (is_some (try_acquire one_out.capacity localhost).1 ≡ (
        ltb (count (client_key localhost one_out.capacity.ipv6_prefix) one_out.permits) 2
        && ltb (length one_out.permits + one_out.returning) 4))
permits_bounded_example = permits_bounded 4 2 one_out localhost one_out-Reach

all_returned_example :
    let u = fresh 4 2 in
    (u.capacity.available + u.returning ≡ 4)
    × ((client : IpAddr) → get client u.capacity.clients ≡ none)
all_returned_example = all_returned 4 2 (fresh 4 2) here refl

abbrev half_out : Use
half_out = record {
  capacity = (try_acquire (new 4) localhost).0;
  permits = record { client = localhost } ∷ [];
  returning = 0;
}

half_out-Reach : Reach (unused (new 4)) half_out
unfolding try_acquire new get client_key
half_out-Reach = next here (acquires localhost)

half_reserved_example : is_some (try_acquire half_out.capacity (v4 1)).1 ≡ true
unfolding count try_acquire new get client_key ip_eq
half_reserved_example =
    half_reserved 4 half_out localhost (v4 1) half_out-Reach (ground arith) (ground arith)

abbrev third : Retry
third = record { failures = 3; next = 0 }

failed_delay_example :
    let r = failed 41 third 1000 (some 1060) in
    (1005 ≤ r.next) × (r.next ≤ 87400) × (r.failures ≡ 3)
failed_delay_example = failed_delay 41 third 1000 (some 1060) (omega arith)

failed_backoff_example :
    let delay = (failed 41 third 1000 none).next - 1000 in
    let wait = min (30 * 2 ^ min (3 - 1) 12) 86400 in
    (wait ≤ delay) × (delay ≤ wait + wait / 5) × (delay ≤ 86400)
failed_backoff_example = failed_backoff 41 third 1000 (omega arith)

base_grows_example :
    let more = record third { failures = 4 } in
    (base third ≤ base more)
    × (base more ≤ 2 * base third)
    × (1 ≤ 3 → 3 ≤ 11 → base more ≡ 2 * base third)
base_grows_example = base_grows third

begin_lem_example :
    let r = begin 41 third 1000 none 180 in
    (1179 < 1180 → ready r 1179 ≡ false) × (87400 ≤ 1179 → ready r 1179 ≡ true) × (r.failures ≡ 4)
begin_lem_example = begin_lem 41 third 1000 none 180 1179 (omega arith) (omega arith) (omega arith)
