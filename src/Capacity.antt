-- ===== src/Capacity.antt =====
-- `Capacity` and `CapacityPermit` of crates/geata/src/config.rs: a semaphore of `max` permits, and a
-- counter for each client that holds some. The lock on the counters makes an acquisition one step; a
-- drop takes two, since the lock is released before the permit goes back to the semaphore.
pub mod Permits
pub mod Reach
use geata.Common.{
  ℕ, ◌+◌, ◌-◌, ◌/◌, max, Option, none, some, [], leb, nat_eq, if◌then◌else◌, unwrap_or,
}
use geata.Common.Map.{Map, get, insert, remove}
use geata.Net.{IpAddr, ip_Key, client_key}

pub record Capacity : Type 0 where
  pub max_permits : ℕ
  pub ipv6_prefix : ℕ
  pub per_client : ℕ
  -- The permits left in the semaphore.
  pub available : ℕ
  pub clients : Map IpAddr ℕ

-- The key under which the permit was counted.
pub record CapacityPermit : Type 0 where
  pub client : IpAddr

unfoldable pub new : ℕ → Capacity
new m = record {
  max_permits = m;
  ipv6_prefix = 64;
  per_client = max (m / 2) 1;
  available = m;
  clients = [];
}

unfoldable pub try_acquire : Capacity → IpAddr → Capacity × Option CapacityPermit
try_acquire c address =
    let client = client_key address c.ipv6_prefix in
    let count = unwrap_or (get client c.clients) 0 in
    if leb c.per_client count then (c, none) else if nat_eq c.available 0 then (c, none) else (
      record c { available = c.available - 1; clients = insert client (count + 1) c.clients },
      some (record { client = client }),
    )

-- The counter after one permit of it is gone.
unfoldable pub uncount : IpAddr → Option ℕ → Map IpAddr ℕ → Map IpAddr ℕ
uncount client none clients = clients
uncount client (some count) clients =
    if nat_eq (count - 1) 0 then remove client clients else insert client (count - 1) clients

-- The body of `Drop for CapacityPermit`.
unfoldable pub uncount_permit : Capacity → CapacityPermit → Capacity
unfolding uncount
uncount_permit c permit = record c {
  clients = uncount permit.client (get permit.client c.clients) c.clients;
}

-- The field `_permit` goes back to the semaphore, which it does behind that body.
unfoldable pub return_permit : Capacity → Capacity
return_permit c = record c { available = c.available + 1 }

-- Both, with nothing between.
unfoldable pub drop : Capacity → CapacityPermit → Capacity
unfolding uncount_permit return_permit
drop c permit = return_permit (uncount_permit c permit)
