-- ===== src/RateLimit/Wait.antt =====
-- The wait that `Shard::check` of crates/geata/src/rate_limit.rs answers a refused request with.
use native.Mathlib.Nat.{div-lt_iff_lt-mul, suc-mul}
use mathlib.Core.Path.{subst}
use geata.Common.{
  suc, ℕ, ◌+◌, ◌-◌, ◌*◌, ◌%◌, ◌^◌, ◌≤◌, ◌<◌, ◌≡◌, refl, ap, ◌∙◌, ◌↔◌, inl, inr, Option, none, some,
  true, false, arith, Result, err, is_ok, length, is_some, leb, Option-cases, Bool-cases,
}
use geata.Common.Map.{get, get-insert_self, get-retain, length-retain_lt}
use geata.Net.{IpAddr, ip_Key}
use geata.RateLimit.{
  Limit, Bucket, Shard, token, capacity, clients_per_shard, refilled, div_ceil, stays, sweep, serve,
  admit, check,
}
use geata.RateLimit.Potential.{credit_at, refilled_now, IsValid, check-IsValid, sweep-credit_at}

-- The table has the client, or room for it.
abbrev HasRoom : Shard → IpAddr → Type 0
HasRoom s client = is_some (get client s.clients) ≡ false → length s.clients < clients_per_shard

div_ceil-le : (a d x : ℕ) → 0 < d → (div_ceil a d ≤ x) ↔ (a ≤ x * d)
unfolding div_ceil
div_ceil-le a d x h = (
  λ k.
      omega
        (arith, (div-lt_iff_lt-mul {x = a + (d - 1)} {y = suc x} h).0 (omega arith), suc-mul x d),
  λ k.
      omega
        (arith, (div-lt_iff_lt-mul {x = a + (d - 1)} {y = suc x} h).1 (omega (arith, suc-mul x d))),
)

div_ceil-bound : (a d : ℕ) → 0 < d → div_ceil a d ≤ a
div_ceil-bound a d h = (div_ceil-le a d a h).1 (grind arith)

serve-is_ok :
    (s : Shard) (client : IpAddr) (limit : Limit) (now : ℕ) (b : Bucket)
    → is_ok (serve s client limit now b).1 ≡ leb token (refilled b limit now)
unfolding serve
serve-is_ok s client limit now b = ground arith

admit-is_ok :
    (s : Shard) (client : IpAddr) (limit : Limit) (now : ℕ) (o : Option Bucket)
    → get client s.clients ≡ o
    → HasRoom s client
    → token ≤ capacity limit
    → is_ok (admit s client limit now o).1 ≡ leb token (credit_at s limit client now)
unfolding admit
admit-is_ok s client limit now (some b) e room burst = rw e (serve-is_ok s client limit now b)
admit-is_ok s client limit now none e room burst =
    let fresh : Bucket = record { credit = capacity limit; updated = now } in
    ground
      (arith, room, serve-is_ok s client limit now fresh, refilled_now (capacity limit) now limit)

sweep-HasRoom :
    (s : Shard) (client : IpAddr) (limit : Limit) (now : ℕ)
    → IsValid s
    → is_some (get client s.clients) ≡ true
    → HasRoom (sweep s limit now) client
unfolding sweep
sweep-HasRoom s client limit now v here = elim (Option-cases (get client s.clients)) [
  | inl e ↦ cc
  | inr (b, e) ↦ λ gone. ground (
    arith,
    v.bounded,
    get-retain (stays limit now) client s.clients v.distinct,
    length-retain_lt (stays limit now) client b s.clients e,
  )
]

-- A client in the table is admitted exactly when its credit is a token.
check-is_ok :
    (s : Shard) (client : IpAddr) (limit : Limit) (now : ℕ)
    → IsValid s
    → is_some (get client s.clients) ≡ true
    → token ≤ capacity limit
    → is_ok (check s client limit now).1 ≡ leb token (credit_at s limit client now)
unfolding check
check-is_ok s client limit now v here burst =
    admit-is_ok (sweep s limit now) client limit now _ refl
      (sweep-HasRoom s client limit now v here) burst
    ∙ ap (leb token) (sweep-credit_at s limit now client v)

-- What a refusal leaves behind.
abbrev Refused : Shard → IpAddr → Limit → ℕ → ℕ → Type 0
Refused t client limit now wait =
    (credit : ℕ) × (get client t.clients ≡ some (record { credit = credit; updated = now }))
    × (credit < token)
    × (wait ≡ div_ceil (token - credit) limit.per_second % 2 ^ 64)

serve-Refused :
    (s t : Shard) (client : IpAddr) (limit : Limit) (now wait : ℕ) (b : Bucket)
    → serve s client limit now b ≡ (t, err wait)
    → Refused t client limit now wait
unfolding serve
serve-Refused s t client limit now wait b h = (
  refilled b limit now,
  ground (
    arith,
    get-insert_self client (record { credit = refilled b limit now; updated = now }) s.clients,
  ),
  ground arith,
  ground arith,
)

admit-Refused :
    (s t : Shard) (client : IpAddr) (limit : Limit) (now wait : ℕ) (o : Option Bucket)
    → get client s.clients ≡ o
    → admit s client limit now o ≡ (t, err wait)
    → is_some (get client t.clients) ≡ true
    → Refused t client limit now wait
unfolding admit
admit-Refused s t client limit now wait (some b) e h here =
    serve-Refused s t client limit now wait b h
admit-Refused s t client limit now wait none e h here =
    elim (Bool-cases (leb clients_per_shard (length s.clients))) [
      | inl full ↦ absurd (ground arith)
      | inr room ↦ serve-Refused s t client limit now wait _ (rw room at h)
    ]

refilled_in_time :
    (t : Shard) (client : IpAddr) (limit : Limit) (now wait later : ℕ)
    → 0 < limit.per_second
    → 0 < limit.burst
    → Refused t client limit now wait
    → now ≤ later
    → leb token (credit_at t limit client later) ≡ leb (now + wait) later
unfolding refilled
refilled_in_time t client limit now wait later rate burst (credit, e, short, w) order = ground (
  arith,
  div_ceil-bound (token - credit) limit.per_second rate,
  div_ceil-le (token - credit) limit.per_second (later - now) rate,
)

-- In a valid shard, with a rate and a burst above 0 and a clock that does not go back, a refused client whose bucket
-- is in the shard's table is told exactly when to come back: if the shard sees no call
-- of any client in between, a later call is refused before `now + wait` and admitted from then on.
pub wait_exact :
    (s t : Shard) (client : IpAddr) (limit : Limit) (now wait later : ℕ)
    → IsValid s
    → 0 < limit.per_second
    → 0 < limit.burst
    → check s client limit now ≡ (t, err wait)
    → is_some (get client t.clients) ≡ true
    → now ≤ later
    → is_ok (check t client limit later).1 ≡ leb (now + wait) later
wait_exact s t client limit now wait later v rate burst h here order =
    let valid : IsValid t =
      subst (λ (p : Shard × Result ℕ (Unit {0})). IsValid p.0) h
        (check-IsValid s client limit now v) in
    check-is_ok t client limit later valid here (omega arith)
    ∙ refilled_in_time t client limit now wait later rate burst
        (admit-Refused (sweep s limit now) t client limit now wait _ refl (unfold check in h) here)
        order
