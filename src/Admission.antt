-- ===== src/Admission.antt =====
-- Uses of `Capacity` in crates/geata/src/connections.rs and crates/geata/src/payments/lightning/issuance.rs.
use geata.Common.{
  ℕ, ◌+◌, ◌-◌, String, Bool, true, false, not, Option, none, some, [], nat_eq, string_Key,
  unwrap_or,
}
use Prim.Native.String.{◌++◌ as ◌<>◌}
use geata.Common.Map.{Map, get, insert, retain}
use geata.Net.{IpAddr}
use geata.Capacity.{Capacity, CapacityPermit, try_acquire, drop}
use geata.Capacity

-- `Connections::default`
unfoldable pub default_connections : Capacity
default_connections = record (Capacity.new 1024) { per_client = 64 }

-- `Connections::acquire`; a refusal is counted as a rejection of status 0.
unfoldable pub acquire : Option IpAddr → Capacity → Option CapacityPermit × Capacity
acquire none c = (none, c)
acquire (some ip) c = let (rest, permit) = try_acquire c ip in (permit, rest)

-- `ConnectionProxy::process_new`: whether the stream is served, and the permit that it takes here.
-- A TLS stream has taken its permit before the handshake.
unfoldable pub process_new :
    Bool → Option IpAddr → Capacity → Bool × Option CapacityPermit × Capacity
unfolding acquire
process_new true client c = (true, none, c)
process_new false client c =
    let (permit, rest) = acquire client c in
    (elim permit [ none ↦ false | some _ ↦ true ], permit, rest)

pub data Receiver : Type 0 where
  ldk : Option String → Receiver
  cashu : String → Receiver

-- A receiver's capacity is alive while permits hold it; `holders` counts them.
pub record Shared : Type 0 where
  pub budget : Capacity
  pub holders : ℕ

pub record Issuance : Type 0 where
  pub global : Capacity
  pub receivers : Map String Shared

pub record Permit : Type 0 where
  pub receiver_permit : CapacityPermit
  pub receiver : String
  pub global_permit : CapacityPermit

unfoldable pub default_issuance : Issuance
default_issuance = record { global = record (Capacity.new 64) { per_client = 8 }; receivers = [] }

-- The endpoint, where it parses as a URL, or the mint.
abbrev pub receiver_key : Receiver → Option String
receiver_key (ldk none) = none
receiver_key (ldk (some endpoint)) = some ("ldk:" <> endpoint)
receiver_key (cashu mint) = some ("cashu:" <> mint)

abbrev pub new_receiver : Shared
new_receiver = record { budget = record (Capacity.new 8) { per_client = 2 }; holders = 0 }

abbrev is_held : String → Shared → Bool
is_held key s = not (nat_eq s.holders 0)

-- After a permit of the receiver was taken, or refused: then the permit of all is given back.
abbrev granted :
    Issuance
    → CapacityPermit
    → String
    → Shared
    → Capacity × Option CapacityPermit
    → Option Permit × Issuance
granted i global key s (budget, some p) = (
  some (record { receiver_permit = p; receiver = key; global_permit = global }),
  record i {
    receivers = insert key (record { budget = budget; holders = s.holders + 1 }) i.receivers;
  },
)
granted i global key s (budget, none) = (
  none,
  record i {
    global = drop i.global global;
    receivers = insert key (record s { budget = budget }) i.receivers;
  },
)

abbrev acquire_receiver :
    IpAddr → Issuance → CapacityPermit → Option String → Option Permit × Issuance
acquire_receiver client i global none = (none, record i { global = drop i.global global })
acquire_receiver client i global (some key) =
    let live = record i { receivers = retain is_held i.receivers } in
    let s = unwrap_or (get key live.receivers) new_receiver in
    granted live global key s (try_acquire s.budget client)

abbrev acquire_global :
    Receiver → IpAddr → Issuance → Capacity × Option CapacityPermit → Option Permit × Issuance
acquire_global receiver client i (global, none) = (none, record i { global = global })
acquire_global receiver client i (global, some p) =
    acquire_receiver client (record i { global = global }) p (receiver_key receiver)

-- `Issuance::acquire`
unfoldable pub acquire_issuance : Receiver → IpAddr → Issuance → Option Permit × Issuance
unfolding try_acquire drop get insert retain
acquire_issuance receiver client i = acquire_global receiver client i (try_acquire i.global client)

abbrev release_receiver : Permit → Option Shared → Map String Shared → Map String Shared
release_receiver p none m = m
release_receiver p (some s) m =
    insert p.receiver (record { budget = drop s.budget p.receiver_permit; holders = s.holders - 1 })
      m

-- Dropping a `Permit`: its fields in their order.
unfoldable pub release : Permit → Issuance → Issuance
unfolding drop get insert
release p i = record i {
  global = drop i.global p.global_permit;
  receivers = release_receiver p (get p.receiver i.receivers) i.receivers;
}
