-- ===== src/Booking/Service.antt =====
-- services/booking-service/internal/application/service.go.
-- `now` is the service's clock, `hold` its hold time, and `fetched` what the event service answers
-- (`none` where it cannot be reached). The first identifier that a creation draws is the booking's.
pub mod Capacity
pub mod History
use Prim.Native.String
use match_mate_dating_web.Base.{
  ℕ, suc, ◌+◌, Bool, true, false, not, ◌&&◌, ◌||◌, Option, none, some, List, [], ◌∷◌, String, ltb,
  ◌==◌, string_eq, if◌then◌else◌,
}
use match_mate_dating_web.Base.Result.{Result, ok, err, fail_if, ◌>>=◌, ◌>>◌}
use match_mate_dating_web.Booking.Domain.{
  State, Booking, EventSnapshot, is_pending, allowed_payment_method, normalize_money,
  validate_event,
}
use match_mate_dating_web.Booking.Store.{Db, Error, conflict, invalid, dependency}
use match_mate_dating_web.Booking.Store.Cancellations
use match_mate_dating_web.Booking.Store.Creations
use match_mate_dating_web.Booking.Store.Expirations
use match_mate_dating_web.Booking.Store.Payments

-- `%w` of another error's text: only the service's own error is kept.
abbrev pub wrap : {E A : Type 0} → Result E A → Error → Result Error A
wrap (ok a) e = ok a
wrap (err _) e = err e

abbrev pub fetched_or : Option EventSnapshot → Error → Result Error EventSnapshot
fetched_or none e = err e
fetched_or (some s) e = ok s

abbrev pub default_method : EventSnapshot → String → String
default_method e method =
    if method == "" && (e.payment_options == "" || e.payment_options == "ONLINE")
    then "ONLINE"
    else method

-- The booking that `Create` hands to the repository.
abbrev pub new_booking : (ℕ → String) → ℕ → ℕ → String → String → EventSnapshot → Booking
new_booking ids now hold actor method e =
    let venue = method == "AT_VENUE" in
    record {
      id = ids 0;
      account_id = actor;
      event_id = e.event_id;
      state = if venue then State.confirmed else State.pending;
      payment_method = method;
      amount = normalize_money e.price;
      currency = e.currency;
      policy_version = e.capacity_policy_version;
      expires_at = now + hold;
      version = 1;
      created_at = now;
      confirmed_at = if venue then some now else none;
      cancelled_at = none;
    }

-- `":"` between the event and the method
abbrev pub fingerprint : String → String → String
fingerprint event method = String.◌++◌ event (String.◌++◌ ":" method)

-- `Create`, from the call of the repository on; the result drops the repository's flag.
abbrev pub without_flag : (Booking × Bool) × Db → Result Error (Booking × Db)
without_flag r = ok (r.0.0, r.1)

unfoldable pub place :
    (ℕ → Bool)
    → (ℕ → String)
    → ℕ
    → ℕ
    → EventSnapshot
    → String
    → String
    → String
    → String
    → Db
    → Result Error (Booking × Db)
place fault ids now hold e actor event method key db =
    Creations.create fault (λ n. ids (n + 1)) (new_booking ids now hold actor method e) key
      (fingerprint event method) e.configured_capacity db
    >>= without_flag

-- `Create`
unfoldable pub create :
    (String → String)
    → (ℕ → Bool)
    → (ℕ → String)
    → ℕ
    → ℕ
    → Option EventSnapshot
    → String
    → String
    → String
    → String
    → Db
    → Result Error (Booking × Db)
create to_upper fault ids now hold fetched actor event given key db = do
  fail_if (event == "" || key == "") invalid
  e ← fetched_or fetched dependency
  wrap (validate_event to_upper e now) conflict
  fail_if (not (allowed_payment_method e.payment_options (default_method e given))) invalid
  place fault ids now hold e actor event (default_method e given) key db

-- `Cancel`
unfoldable pub cancel :
    (ℕ → Bool) → (ℕ → String) → ℕ → String → String → String → Db → Result Error (Booking × Db)
cancel fault ids now actor id key db = do
  fail_if (id == "" || key == "") invalid
  r ← Cancellations.cancel fault ids actor id key now db
  without_flag r

-- `Snapshot`, which the payment service reads.
unfoldable pub snapshot : (ℕ → Bool) → ℕ → String → String → Db → Result Error Booking
snapshot fault now actor id db = do
  b ← Creations.get fault actor id db
  fail_if (not (is_pending b.state) || not (b.payment_method == "ONLINE")) conflict
  fail_if (not (ltb now b.expires_at)) conflict
  ok b

-- What reaches the booking tables: the service's calls, the worker that expires holds, and the
-- payment events that the consumer hands over. Each has its own faults, identifiers and time.
pub data Command : Type 0 where
  creates :
      (ℕ → Bool)
      → (ℕ → String)
      → ℕ
      → ℕ
      → Option EventSnapshot
      → String
      → String
      → String
      → String
      → Command
  cancels : (ℕ → Bool) → (ℕ → String) → ℕ → String → String → String → Command
  expires : (ℕ → Bool) → (ℕ → String) → ℕ → ℕ → Command
  pays : (ℕ → Bool) → (ℕ → String) → String → String → String → ℕ → Command

-- The tables after a call: those that it commits, or those from before.
abbrev pub committed : {A : Type 0} → Result Error (A × Db) → Db → Db
committed (ok (a, db')) db = db'
committed (err e) db = db

abbrev pub committed_db : Result Error Db → Db → Db
committed_db (ok db') db = db'
committed_db (err e) db = db

unfoldable pub execute : (String → String) → Command → Db → Db
execute to_upper (creates fault ids now hold fetched actor event method key) db =
    committed (create to_upper fault ids now hold fetched actor event method key db) db
execute to_upper (cancels fault ids now actor id key) db =
    committed (cancel fault ids now actor id key db) db
execute to_upper (expires fault ids now limit) db =
    committed (Expirations.expire fault ids now limit db) db
execute to_upper (pays fault ids event event_type booking at) db =
    committed_db (Payments.apply_payment_event fault ids event event_type booking at db) db

unfoldable pub run : (String → String) → List Command → Db → Db
run to_upper [] db = db
run to_upper (c ∷ cs) db = run to_upper cs (execute to_upper c db)
