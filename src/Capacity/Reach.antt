-- ===== src/Capacity/Reach.antt =====
-- Any interleaving of acquisitions and drops of a `Capacity` of crates/geata/src/config.rs.
use geata.Common.{
  ℕ, ◌+◌, ◌-◌, ◌/◌, ◌≤◌, ◌<◌, ◌≡◌, refl, ap, ◌≢◌, ◌∙◌, none, true, List, [], arith, is_some, length,
  ltb, ◌&&◌,
}
use geata.Common.Map.{get}
use geata.Net.{IpAddr, ip_Key, client_key}
use geata.Capacity.{Capacity, CapacityPermit, new, try_acquire, uncount_permit, return_permit}
use geata.Capacity.Permits.{
  count, give_back, Accounts, new-Accounts, with_permit, try_acquire-is_some, try_acquire-Accounts,
  uncount_permit-Accounts, return_permit-Accounts, one_client,
}

-- The shared object, the permits that its users hold, and how many are dropped but still on their way back
-- to the semaphore.
pub record Use : Type 0 where
  pub capacity : Capacity
  pub permits : List CapacityPermit
  pub returning : ℕ

pub data Step (u : Use) : Use → Type 0 where
  acquires :
      (address : IpAddr)
      → Step u (record {
        capacity = (try_acquire u.capacity address).0;
        permits = with_permit (try_acquire u.capacity address).1 u.permits;
        returning = u.returning;
      })
  drops :
      (p : CapacityPermit)
      → 0 < count p.client u.permits
      → Step u (record {
        capacity = uncount_permit u.capacity p;
        permits = give_back p.client u.permits;
        returning = u.returning + 1;
      })
  returns :
      0 < u.returning
      → Step u (record {
        capacity = return_permit u.capacity;
        permits = u.permits;
        returning = u.returning - 1;
      })

pub data Reach (u : Use) : Use → Type 0 where
  here : Reach u u
  next : {v w : Use} → Reach u v → Step v w → Reach u w

abbrev IsKept : Use → Type 0
IsKept u = Accounts u.capacity u.permits u.returning

Step-Accounts : {u w : Use} → Step u w → IsKept u → IsKept w
Step-Accounts {u} (acquires address) v =
    try_acquire-Accounts u.capacity u.permits u.returning address v
Step-Accounts {u} (drops p held) v =
    uncount_permit-Accounts u.capacity u.permits u.returning p v held
Step-Accounts {u} (returns some_left) v =
    return_permit-Accounts u.capacity u.permits u.returning v some_left

abbrev Same : Use → Use → Type 0
Same u w =
    (w.capacity.max_permits ≡ u.capacity.max_permits)
    × (w.capacity.per_client ≡ u.capacity.per_client)
    × (w.capacity.ipv6_prefix ≡ u.capacity.ipv6_prefix)

Step-Same : {u w : Use} → Step u w → Same u w
unfolding try_acquire uncount_permit return_permit
Step-Same {u} (acquires address) = ground arith
Step-Same {u} (drops p held) = (refl, refl, refl)
Step-Same {u} (returns some_left) = (refl, refl, refl)

Reach-Accounts : {u w : Use} → Reach u w → IsKept u → IsKept w × Same u w
Reach-Accounts here v = (v, (refl, refl, refl))
Reach-Accounts (next r st) v =
    let (a, s) = Reach-Accounts r v in
    let t = Step-Same st in (Step-Accounts st a, (t.0 ∙ s.0, t.1 ∙ s.1, t.2 ∙ s.2))

-- A capacity that nobody uses yet.
abbrev pub unused : Capacity → Use
unused c = record { capacity = c; permits = []; returning = 0 }

-- A site's limit, and `per_client` set as `Connections` and `Issuance` do.
abbrev pub fresh : ℕ → ℕ → Use
fresh m limit = unused (record (new m) { per_client = limit })

fresh-Accounts : (m limit : ℕ) → Accounts (fresh m limit).capacity [] 0
unfolding new get count
fresh-Accounts m limit = record {
  conserved = omega arith;
  counted = λ client. refl;
  no_zero = λ client e. cc;
  within = λ client. omega arith;
}

-- However acquisitions and the two steps of drops interleave, at most `max` permits are held or on their way
-- back, and at most `per_client` are held under one client's key; a client gets one more exactly when both
-- limits leave room for it, where a permit on its way back counts for `max` but no longer for its client.
pub permits_bounded :
    (m limit : ℕ) (u : Use) (address : IpAddr)
    → Reach (fresh m limit) u
    → let client = client_key address u.capacity.ipv6_prefix in
      (length u.permits + u.returning ≤ m)
      × (count client u.permits ≤ limit)
      × (is_some (try_acquire u.capacity address).1
          ≡ (ltb (count client u.permits) limit && ltb (length u.permits + u.returning) m))
unfolding new
permits_bounded m limit u address r =
    let (a, s) = Reach-Accounts r (fresh-Accounts m limit) in
    let client = client_key address u.capacity.ipv6_prefix in
    ground (
      arith,
      a.conserved,
      a.within client,
      try_acquire-is_some u.capacity u.permits u.returning address a,
    )

-- When no permit is held, all of the semaphore is there but for the permits that are on their way back, and
-- no counter is left: with none on its way the capacity is as new.
pub all_returned :
    (m limit : ℕ) (u : Use)
    → Reach (fresh m limit) u
    → u.permits ≡ []
    → (u.capacity.available + u.returning ≡ m)
      × ((client : IpAddr) → get client u.capacity.clients ≡ none)
unfolding new count
all_returned m limit u r e =
    let (a, s) = Reach-Accounts r (fresh-Accounts m limit) in
    (ground (arith, a.conserved), λ client. no_counter client a)
  where
    no_counter : (client : IpAddr) → IsKept u → get client u.capacity.clients ≡ none
    no_counter client a = ground (arith, a.counted client, a.no_zero client, ap (count client) e)

-- The limit that `Capacity::new` sets leaves half of the permits to others: whatever one client does, any
-- other client is admitted while fewer than half of the permits, rounded down, are held by other
-- clients than that one or are on their way back.
pub half_reserved :
    (m : ℕ) (u : Use) (client other : IpAddr)
    → Reach (unused (new m)) u
    → length u.permits + u.returning < count client u.permits + m / 2
    → client ≢ client_key other u.capacity.ipv6_prefix
    → is_some (try_acquire u.capacity other).1 ≡ true
unfolding new
half_reserved m u client other r few differ =
    let (a, s) = Reach-Accounts r (new-Accounts m) in
    let key = client_key other u.capacity.ipv6_prefix in
    ground (
      arith,
      a.within client,
      one_client client key u.permits differ,
      try_acquire-is_some u.capacity u.permits u.returning other a,
    )
