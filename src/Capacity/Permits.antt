-- ===== src/Capacity/Permits.antt =====
-- The permits of a `Capacity` of crates/geata/src/config.rs that are out at a time.
use geata.Common.{
  ℕ, ◌+◌, ◌-◌, ◌≤◌, ◌<◌, ◌≡◌, refl, ◌≢◌, Option, none, some, List, [], ◌∷◌, arith, nat_eq,
  if◌then◌else◌, ◌==◌, unwrap_or, is_some, length, Option-cases, inl, inr, ◌&&◌, ltb,
}
use geata.Common.Map.{Map, get, get-insert, get-remove}
use geata.Net.{IpAddr, ip_Key, ip_eq_iff, client_key}
use geata.Capacity.{
  Capacity, CapacityPermit, new, try_acquire, uncount, uncount_permit, return_permit,
}

unfoldable pub count : IpAddr → List CapacityPermit → ℕ
count client [] = 0
count client (p ∷ ps) = (if p.client == client then 1 else 0) + count client ps

-- The permits without the first of that client.
unfoldable pub give_back : IpAddr → List CapacityPermit → List CapacityPermit
give_back client [] = []
give_back client (p ∷ ps) =
    let rest = give_back client ps in if p.client == client then ps else p ∷ rest

-- The semaphore and the counters agree with the permits that are held, and with the number of those that
-- are dropped and have not reached the semaphore yet.
pub record Accounts (c : Capacity) (permits : List CapacityPermit) (returning : ℕ) : Type 0 where
  pub conserved : c.available + length permits + returning ≡ c.max_permits
  pub counted : (client : IpAddr) → unwrap_or (get client c.clients) 0 ≡ count client permits
  pub no_zero : (client : IpAddr) → get client c.clients ≢ some 0
  pub within : (client : IpAddr) → count client permits ≤ c.per_client

count-give_back :
    (client other : IpAddr) (ps : List CapacityPermit)
    → 0 < count client ps
    → count other (give_back client ps) + (if client == other then 1 else 0) ≡ count other ps
unfolding count give_back
count-give_back client other [] h = elim h [ ]
count-give_back client other (p ∷ ps) h = ground (
  arith,
  ip_eq_iff p.client client,
  ip_eq_iff p.client other,
  ip_eq_iff client other,
  count-give_back client other ps,
)

length-give_back :
    (client : IpAddr) (ps : List CapacityPermit)
    → 0 < count client ps
    → length (give_back client ps) + 1 ≡ length ps
unfolding count give_back
length-give_back client [] h = elim h [ ]
length-give_back client (p ∷ ps) h = ground (arith, length-give_back client ps)

pub new-Accounts : (m : ℕ) → Accounts (new m) [] 0
unfolding new count get
new-Accounts m = record {
  conserved = omega arith;
  counted = λ client. refl;
  no_zero = λ client e. cc;
  within = λ client. omega arith;
}

-- The permits that are out after a call of `try_acquire`.
abbrev pub with_permit : Option CapacityPermit → List CapacityPermit → List CapacityPermit
with_permit none permits = permits
with_permit (some p) permits = p ∷ permits

-- A call gives a permit exactly when the client is below its limit and a permit is left.
pub try_acquire-is_some :
    (c : Capacity) (permits : List CapacityPermit) (returning : ℕ) (address : IpAddr)
    → Accounts c permits returning
    → is_some (try_acquire c address).1 ≡ (
        ltb (count (client_key address c.ipv6_prefix) permits) c.per_client
        && ltb (length permits + returning) c.max_permits)
unfolding try_acquire
try_acquire-is_some c permits returning address v =
    ground (arith, v.counted (client_key address c.ipv6_prefix), v.conserved)

pub try_acquire-Accounts :
    (c : Capacity) (permits : List CapacityPermit) (returning : ℕ) (address : IpAddr)
    → Accounts c permits returning
    → let (c', permit) = try_acquire c address in Accounts c' (with_permit permit permits) returning
unfolding try_acquire count
try_acquire-Accounts c permits returning address v =
    let client = client_key address c.ipv6_prefix in
    let n = unwrap_or (get client c.clients) 0 in
    record {
      conserved = ground (arith, v.conserved);
      counted = λ other. ground (
        arith,
        v.counted client,
        v.counted other,
        get-insert client other (n + 1) c.clients,
        ip_eq_iff client other,
      );
      no_zero = λ other. ground (arith, v.no_zero other, get-insert client other (n + 1) c.clients);
      within = λ other. ground (arith, v.counted client, v.within other, ip_eq_iff client other);
    }

uncount-get :
    (client other : IpAddr) (n : ℕ) (m : Map IpAddr ℕ)
    → get client m ≡ some n
    → get other (uncount client (some n) m)
      ≡ (if client == other then (if nat_eq (n - 1) 0 then none else some (n - 1)) else get other m)
unfolding uncount
uncount-get client other n m e =
    ground (arith, get-insert client other (n - 1) m, get-remove client other m)

uncount_permit-Accounts_of :
    (c : Capacity) (permits : List CapacityPermit) (returning : ℕ) (p : CapacityPermit) (n : ℕ)
    → Accounts c permits returning
    → 0 < count p.client permits
    → get p.client c.clients ≡ some n
    → Accounts (uncount_permit c p) (give_back p.client permits) (returning + 1)
unfolding uncount_permit
uncount_permit-Accounts_of c permits returning p n v held e = record {
  conserved = ground (arith, v.conserved, length-give_back p.client permits held);
  counted = λ other.
      rw (e, uncount_permit)
        (ground (
          arith,
          uncount-get p.client other n c.clients e,
          v.counted p.client,
          v.counted other,
          ip_eq_iff p.client other,
          count-give_back p.client other permits held,
        ));
  no_zero = λ other.
      rw (e, uncount_permit)
        (ground (arith, v.no_zero other, uncount-get p.client other n c.clients e));
  within = λ other. ground (arith, v.within other, count-give_back p.client other permits held);
}

-- The body of a drop puts the permit on its way.
pub uncount_permit-Accounts :
    (c : Capacity) (permits : List CapacityPermit) (returning : ℕ) (p : CapacityPermit)
    → Accounts c permits returning
    → 0 < count p.client permits
    → Accounts (uncount_permit c p) (give_back p.client permits) (returning + 1)
uncount_permit-Accounts c permits returning p v held =
    elim (Option-cases (get p.client c.clients)) [
      | inl e ↦ absurd (ground (arith, v.counted p.client))
      | inr (n, e) ↦ uncount_permit-Accounts_of c permits returning p n v held e
    ]

-- A permit on its way reaches the semaphore.
pub return_permit-Accounts :
    (c : Capacity) (permits : List CapacityPermit) (returning : ℕ)
    → Accounts c permits returning
    → 0 < returning
    → Accounts (return_permit c) permits (returning - 1)
unfolding return_permit
return_permit-Accounts c permits returning v some_left = record {
  conserved = omega (arith, v.conserved);
  counted = λ other. v.counted other;
  no_zero = λ other. v.no_zero other;
  within = λ other. v.within other;
}

-- The permits of two clients are different permits.
pub one_client :
    (a b : IpAddr) (ps : List CapacityPermit) → a ≢ b → count a ps + count b ps ≤ length ps
unfolding count
one_client a b [] h = omega arith
one_client a b (p ∷ ps) h =
    ground (arith, ip_eq_iff p.client a, ip_eq_iff p.client b, one_client a b ps)
