-- ===== src/Proxy/Chain.antt =====
-- Chains of the stages of `request_filter` (crates/geata/src/proxy.rs) that got through.
use geata.Common.{
  ◌≡◌, refl, ◌⊎◌, inl, inr, Bool, true, false, some, Result, ok, err, arith, if◌then◌else◌,
}
use geata.Common.Exec.{Exec, continue, raise}
use geata.Net.{IpAddr}
use geata.Proxy.Data.{Session, Connection}
use geata.Proxy.Guards.{client_ip}

module _ {S E A B : Type 0} where
  pub continue-ok :
      (f : A → Exec S E B) (r : Result E A × S) {b : B} {u : S}
      → continue r.0 f r.1 ≡ (ok b, u)
      → (a : A) × (t : S) × (r ≡ (ok a, t)) × (f a t ≡ (ok b, u))
  continue-ok f (ok a, t) h = (a, t, refl, h)
  continue-ok f (err e, t) h = absurd (ground arith)

module _ {S E A : Type 0} where
  -- The branch that a stage took.
  pub if-ok :
      (b : Bool) (m n : Exec S E A) (s : S) {r : Result E A × S}
      → (if b then m else n) s ≡ r
      → ((b ≡ true) × (m s ≡ r)) ⊎ ((b ≡ false) × (n s ≡ r))
  if-ok true m n s h = inl (refl, h)
  if-ok false m n s h = inr (refl, h)

module _ {S E A : Type 0} where
  -- A test that raises an error did not hold.
  pub guard-ok :
      (b : Bool) (e : E) (m : Exec S E A) (s : S) {a : A} {t : S}
      → (if b then raise e else m) s ≡ (ok a, t)
      → (b ≡ false) × (m s ≡ (ok a, t))
  guard-ok true e m s h = absurd (ground arith)
  guard-ok false e m s h = (refl, h)

pub client_ip-ok :
    (c : Connection) (s t : Session) (ip : IpAddr)
    → client_ip c s ≡ (ok ip, t)
    → (c.client ≡ some ip) × (t ≡ s)
client_ip-ok c s t ip h = ground arith
