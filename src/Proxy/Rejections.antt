-- ===== src/Proxy/Rejections.antt =====
-- crates/geata/src/proxy.rs: `RejectionLogs`, the counts of failed requests by status.
use geata.Common.{
  ℕ, zero, suc, ◌+◌, ◌-◌, ◌≤◌, ◌≡◌, ◌<◌, refl, Option, none, some, List, [], ◌∷◌, nat_eq, ltb,
  if◌then◌else◌, saturating_add, u64_max, length, arith,
}

pub record RejectionLogs : Type 0 where
  pub last : ℕ
  pub counts : List ℕ

abbrev pub statuses : ℕ
statuses = 600

abbrev zeros : ℕ → List ℕ
zeros zero = []
zeros (suc n) = 0 ∷ zeros n

unfoldable pub new_logs : ℕ → RejectionLogs
new_logs now = record { last = now; counts = zeros statuses }

-- `counts[index] = counts[index].saturating_add(1)`
unfoldable pub count_at : ℕ → List ℕ → List ℕ
count_at index [] = []
count_at zero (n ∷ counts) = saturating_add u64_max n 1 ∷ counts
count_at (suc index) (n ∷ counts) = n ∷ count_at index counts

-- The statuses from `first` on that were counted, with their counts.
unfoldable pub nonzero : ℕ → List ℕ → List (ℕ × ℕ)
nonzero first [] = []
nonzero first (n ∷ counts) =
    let rest = nonzero (first + 1) counts in if nat_eq n 0 then rest else (first, n) ∷ rest

unfoldable pub fill_zero : List ℕ → List ℕ
fill_zero [] = []
fill_zero (_ ∷ counts) = 0 ∷ fill_zero counts

-- Times in nanoseconds; `duration_since` of an earlier time is zero.
unfoldable pub record_status : ℕ → ℕ → RejectionLogs → Option (List (ℕ × ℕ)) × RejectionLogs
unfolding count_at nonzero fill_zero
record_status status now logs =
    let index = if ltb 599 status then 599 else status in
    let counts = count_at index logs.counts in
    if ltb (now - logs.last) 10_000_000_000
    then (none, record logs { counts = counts })
    else (some (nonzero 0 counts), record { last = now; counts = fill_zero counts })

abbrev pub sum : List ℕ → ℕ
sum [] = 0
sum (n ∷ ns) = n + sum ns

abbrev pub sum_counts : List (ℕ × ℕ) → ℕ
sum_counts [] = 0
sum_counts ((_, n) ∷ rows) = n + sum_counts rows

-- How many rejections a summary reports.
abbrev pub reported : Option (List (ℕ × ℕ)) → ℕ
reported none = 0
reported (some rows) = sum_counts rows

-- A run of rejections, each with its status and its time: the reports' totals, and the logs after it.
unfoldable pub record_all : List (ℕ × ℕ) → RejectionLogs → ℕ × RejectionLogs
record_all [] logs = (0, logs)
record_all ((status, now) ∷ events) logs =
    let (report, logs') = record_status status now logs in
    let (total, after) = record_all events logs' in (reported report + total, after)

sum-nonzero : (first : ℕ) (counts : List ℕ) → sum_counts (nonzero first counts) ≡ sum counts
unfolding nonzero
sum-nonzero first [] = refl
sum-nonzero first (n ∷ counts) = ground (arith, sum-nonzero (first + 1) counts)

sum-fill_zero : (counts : List ℕ) → sum (fill_zero counts) ≡ 0
unfolding fill_zero
sum-fill_zero [] = refl
sum-fill_zero (n ∷ counts) = ground (arith, sum-fill_zero counts)

length-fill_zero : (counts : List ℕ) → length (fill_zero counts) ≡ length counts
unfolding fill_zero
length-fill_zero [] = refl
length-fill_zero (n ∷ counts) = ground (arith, length-fill_zero counts)

length-count_at : (index : ℕ) (counts : List ℕ) → length (count_at index counts) ≡ length counts
unfolding count_at
length-count_at index [] = refl
length-count_at zero (n ∷ counts) = ground arith
length-count_at (suc index) (n ∷ counts) = ground (arith, length-count_at index counts)

-- While no count has reached its maximum, one more rejection is one more in the sum.
sum-count_at :
    (index : ℕ) (counts : List ℕ)
    → index < length counts
    → sum counts < u64_max
    → sum (count_at index counts) ≡ sum counts + 1
unfolding count_at
sum-count_at index [] h k = absurd (omega arith)
sum-count_at zero (n ∷ counts) h k = ground arith
sum-count_at (suc index) (n ∷ counts) h k =
    ground (arith, sum-count_at index counts (omega arith) (omega arith))

record_status-counts :
    (status now : ℕ) (logs : RejectionLogs)
    → length logs.counts ≡ statuses
    → sum logs.counts < u64_max
    → (length (record_status status now logs).1.counts ≡ statuses)
      × (reported (record_status status now logs).0 + sum (record_status status now logs).1.counts
          ≡ sum logs.counts + 1)
unfolding record_status
record_status-counts status now logs h k =
    let index = if ltb 599 status then 599 else status in
    let counts = count_at index logs.counts in
    ground (
      arith,
      sum-count_at index logs.counts (ground arith) k,
      length-count_at index logs.counts,
      sum-nonzero 0 counts,
      sum-fill_zero counts,
      length-fill_zero counts,
    )

-- No rejection is lost and none is counted twice, whatever its status and its time: what the
-- summaries reported and what is still counted make up all that happened, up to 2^64 - 1 of them.
pub record_all-counts :
    (events : List (ℕ × ℕ)) (logs : RejectionLogs)
    → length logs.counts ≡ statuses
    → sum logs.counts + length events ≤ u64_max
    → (record_all events logs).0 + sum (record_all events logs).1.counts
      ≡ sum logs.counts + length events
unfolding record_all
record_all-counts [] logs h k = ground arith
record_all-counts ((status, now) ∷ events) logs h k =
    let r = record_status status now logs in
    let (full, total) = record_status-counts status now logs h (omega arith) in
    ground (arith, total, record_all-counts events r.1 full (omega (arith, total)))
