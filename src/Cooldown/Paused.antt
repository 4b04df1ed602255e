-- ===== src/Cooldown/Paused.antt =====
-- The authority's pause is kept over any history (crates/geata/src/acme_http.rs).
use geata.Common.{
  ℕ, ◌≤◌, ◌≡◌, Bool, true, false, Option, none, some, List, [], ◌∷◌, if◌then◌else◌, All, arith,
  saturating_add, i64_max,
}
use geata.Common.Text.{Text}
use geata.Cooldown.{
  Cooldown, Response, load, ready, defer, retry_deadline, deferred, answered, request,
}

-- A request at a time, with whether the disk takes a write, and its response; or a restart.
pub data Event : Type 0 where
  requests : Bool → ℕ → Option Response → Event
  restarts : Event

-- The deadline stands in memory and on disk.
abbrev pub IsStored : ℕ → Option ℕ → Type 0
IsStored d none = ⊥
IsStored d (some stored) = d ≤ stored

abbrev pub IsDeferred : ℕ → Cooldown → Type 0
IsDeferred d c = (d ≤ c.until) × IsStored d c.stored

load-IsDeferred : (d : ℕ) (stored : Option ℕ) → IsStored d stored → IsDeferred d (load stored)
unfolding load
load-IsDeferred d none h = absurd h
load-IsDeferred d (some n) h = (h, h)

defer-IsDeferred :
    (d : ℕ) (written : Bool) (deadline : ℕ) (c : Cooldown)
    → IsDeferred d c
    → IsDeferred d (defer written deadline c)
unfolding defer
defer-IsDeferred d true deadline c h = (omega (arith, h.0), omega (arith, h.0))
defer-IsDeferred d false deadline c h = (omega (arith, h.0), h.1)

defer-deadline : (deadline : ℕ) (c : Cooldown) → IsDeferred deadline (defer true deadline c)
unfolding defer
defer-deadline deadline c = (omega arith, omega arith)

module _ (parse_http_date : Text → Option ℕ) where
  abbrev pub after : Event → Cooldown → Cooldown
  after (requests written now response) c = (request parse_http_date written now response c).1
  after restarts c = load c.stored

  -- The times at which requests are sent.
  unfoldable pub sent : List Event → Cooldown → List ℕ
  unfolding request load
  sent [] c = []
  sent (requests written now response ∷ es) c =
      let rest = sent es (after (requests written now response) c) in
      if (request parse_http_date written now response c).0 then now ∷ rest else rest
  sent (restarts ∷ es) c = sent es (after restarts c)

  deferred-IsDeferred :
      (d : ℕ) (written : Bool) (o : Option ℕ) (c : Cooldown)
      → IsDeferred d c
      → IsDeferred d (deferred parse_http_date written o c)
  deferred-IsDeferred d written none c h = h
  deferred-IsDeferred d written (some deadline) c h = defer-IsDeferred d written deadline c h

  answered-IsDeferred :
      (d : ℕ) (written : Bool) (now : ℕ) (response : Option Response) (c : Cooldown)
      → IsDeferred d c
      → IsDeferred d (answered parse_http_date written now response c)
  answered-IsDeferred d written now none c h = h
  answered-IsDeferred d written now (some r) c h =
      deferred-IsDeferred d written
        (retry_deadline parse_http_date r (saturating_add i64_max now 1)) c h

  after-IsDeferred : (d : ℕ) (e : Event) (c : Cooldown) → IsDeferred d c → IsDeferred d (after e c)
  unfolding request
  after-IsDeferred d restarts c h = load-IsDeferred d c.stored h.1
  after-IsDeferred d (requests written now response) c h =
      either (ready c now) _ _ (answered-IsDeferred d written now response c h) h
    where
      either :
          (b : Bool) (x y : Bool × Cooldown)
          → IsDeferred d x.1
          → IsDeferred d y.1
          → IsDeferred d (if b then x else y).1
      either true x y hx hy = hx
      either false x y hx hy = hy

  -- A request that is sent is late.
  abbrev Late : ℕ → ℕ → Bool → Type 0
  Late d now true = d ≤ now
  Late d now false = Unit

  request-Late :
      (d : ℕ) (written : Bool) (now : ℕ) (response : Option Response) (c : Cooldown)
      → IsDeferred d c
      → Late d now (request parse_http_date written now response c).0
  unfolding request ready
  request-Late d written now response c h = ground (arith, h.0)

  if_sent :
      (d now : ℕ) (b : Bool) (rest : List ℕ)
      → Late d now b
      → All (λ t. d ≤ t) rest
      → All (λ t. d ≤ t) (if b then now ∷ rest else rest)
  if_sent d now true rest l h = (l, h)
  if_sent d now false rest l h = h

  sent-late :
      (d : ℕ) (es : List Event) (c : Cooldown) → IsDeferred d c → All (λ t. d ≤ t) (sent es c)
  unfolding sent
  sent-late d [] c h = tt
  sent-late d (restarts ∷ es) c h =
      sent-late d es (after restarts c) (after-IsDeferred d restarts c h)
  sent-late d (requests written now response ∷ es) c h =
      let e : Event = requests written now response in
      if_sent d now (request parse_http_date written now response c).0 (sent es (after e c))
        (request-Late d written now response c h)
        (sent-late d es (after e c) (after-IsDeferred d e c h))

  -- Once an answer of the authority asks for a pause and its deadline is written, no request is
  -- sent before that deadline: over any later history of requests, with whatever answers, of restarts and of
  -- writes that fail.
  pub request-pauses :
      (now d : ℕ) (response : Response) (c : Cooldown) (es : List Event)
      → ready c now ≡ true
      → retry_deadline parse_http_date response (saturating_add i64_max now 1) ≡ some d
      → All (λ t. d ≤ t) (sent es (request parse_http_date true now (some response) c).1)
  unfolding request
  request-pauses now d response c es free asks =
      rw (free, asks) (sent-late d es (defer true d c) (defer-deadline d c))
