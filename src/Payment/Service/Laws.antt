-- ===== src/Payment/Service/Laws.antt =====
-- What the payment service guarantees over any list of calls.
use mathlib.Core.Path.{subst}
use match_mate_dating_web.Base.{
  ℕ, ◌+◌, ◌≡◌, refl, sym, Bool, true, false, Option, none, some, List, [], ◌∷◌, String, arith,
  eq_iff, string_eq, count,
}
use match_mate_dating_web.Base.Tables.{find}
use match_mate_dating_web.Base.Keys.{HasUniqueKeys}
use match_mate_dating_web.Base.Text.{trim_space}
use match_mate_dating_web.Base.Result.{Result, ok, err, ok_inj, ◌>>=◌}
use match_mate_dating_web.Payment.Domain.{
  State, Payment, BookingSnapshot, Config, Notification, NotificationProblem, missing_field,
  merchant_mismatch, signature_mismatch, is_completed, verify_notification, notification_hash,
}
use match_mate_dating_web.Payment.Store.{Db, empty, Fact, has_id, has_order, has_fingerprint}
use match_mate_dating_web.Payment.Store
use match_mate_dating_web.Payment.Store.Checkouts
use match_mate_dating_web.Payment.Store.Valid.{IsValid, is_final, settlements}
use match_mate_dating_web.Payment.Store.Keeps.{initiate-IsValid, apply_callback-IsValid}
use match_mate_dating_web.Payment.Store.Effects.{
  apply_callback-completed, apply_callback-seen, apply_callback-again,
}
use match_mate_dating_web.Payment.Service.{
  Customer, Checkout, Command, initiates, notifies, new_payment, raw_request, verification,
  checkout, initiate, callback, committed, execute, run, from_store,
}

-- A call whose result is only dressed up after the repository's.
dressed-IsValid :
    {A B : Type 0} (m : Result Store.Error (A × Db)) (f : A × Db → B × Db) (r : B × Db)
    → ((t : A × Db) → (f t).1 ≡ t.1)
    → (from_store m >>= λ t. ok (f t)) ≡ ok r
    → ((t : A × Db) → m ≡ ok t → IsValid t.1)
    → IsValid r.1
dressed-IsValid (ok t) f r keeps h valid =
    subst (λ u. IsValid u.1) (ok_inj h) (subst IsValid (sym (keeps t)) (valid t refl))
dressed-IsValid (err e) f r keeps h valid = absurd (cc)

verified_ok : (v : Result NotificationProblem (Unit {0})) → verification v ≡ "VERIFIED" → v ≡ ok tt
verified_ok (ok tt) h = refl
verified_ok (err missing_field) h =
    let e : false ≡ true = (eq_iff "REJECTED_missing required callback field" "VERIFIED").1 h in cc
verified_ok (err merchant_mismatch) h =
    let e : false ≡ true = (eq_iff "REJECTED_merchant mismatch" "VERIFIED").1 h in cc
verified_ok (err signature_mismatch) h =
    let e : false ≡ true = (eq_iff "REJECTED_signature mismatch" "VERIFIED").1 h in cc

-- A notification that is accepted names the merchant and carries the merchant's signature.
verify_notification-genuine :
    (md5 to_upper : String → String) (n : Notification) (config : Config)
    → verify_notification md5 to_upper n config ≡ ok tt
    → (n.merchant_id ≡ config.merchant_id)
      × (notification_hash md5 n config.merchant_secret ≡ to_upper n.signature)
unfolding verify_notification
verify_notification-genuine md5 to_upper n config h = (
  ground (arith, h, eq_iff n.merchant_id config.merchant_id),
  ground (arith, h, eq_iff (notification_hash md5 n config.merchant_secret) (to_upper n.signature)),
)

module _ (md5 sha to_upper : String → String) (nul : String) (config : Config)
    (urls : String × String × String) where
  -- A payment that is completed by a notification, in valid tables, was completed by a genuine one:
  -- it names the merchant, its signature is the hash under the merchant's secret, its amount and
  -- currency are those of the payment, and its status is "2".
  pub callback-genuine :
      (fault : ℕ → Bool) (ids : ℕ → String) (now : ℕ) (n : Notification) (db : Db)
      (r : (Option Payment × Bool) × Db) (p q : Payment)
      → IsValid db
      → callback md5 sha to_upper nul config urls fault ids now n db ≡ ok r
      → find (has_order n.order_id) db.payments ≡ some p
      → is_completed p.state ≡ false
      → find (has_id p.id) r.1.payments ≡ some q
      → q.state ≡ State.completed
      → ((n.merchant_id ≡ config.merchant_id)
          × (notification_hash md5 n config.merchant_secret ≡ to_upper n.signature))
        × (n.amount ≡ p.amount)
        × (n.currency ≡ p.currency)
        × (trim_space n.status_code ≡ "2")
  unfolding callback
  callback-genuine fault ids now n db r p q valid h found unpaid found' paid =
      let result = verify_notification md5 to_upper n config in
      let (verified, amount, currency, status) =
        apply_callback-completed sha fault ids n (verification result) now db r h p q valid found
          unpaid found' paid in
      (
        verify_notification-genuine md5 to_upper n config (verified_ok result verified),
        amount,
        currency,
        status,
      )

  -- A notification that is delivered once more, with the database answering, is answered and
  -- changes nothing, whenever that is.
  pub callback-callback :
      (fault fault' : ℕ → Bool) (ids ids' : ℕ → String) (now now' : ℕ) (n : Notification) (db : Db)
      (r : (Option Payment × Bool) × Db)
      → callback md5 sha to_upper nul config urls fault ids now n db ≡ ok r
      → (fault' 0 ≡ false) × (fault' 1 ≡ false) × (fault' 2 ≡ false) × (fault' 3 ≡ false)
      → (a : Option Payment × Bool) × (callback md5 sha to_upper nul config urls fault' ids' now' n
            r.1
          ≡ ok (a, r.1))
  unfolding callback
  callback-callback fault fault' ids ids' now now' n db r h up =
      let v = verification (verify_notification md5 to_upper n config) in
      apply_callback-again sha fault' ids' n v now' r.1
        (apply_callback-seen sha fault ids n v now db r h) up

  initiate-IsValid_service :
      (fault : ℕ → Bool) (ids : ℕ → String) (now : ℕ) (fetched : Option BookingSnapshot)
      (actor booking key : String) (customer : Customer) (db : Db) (r : Checkout × Db)
      → IsValid db
      → initiate md5 sha to_upper nul config urls fault ids now fetched actor booking key customer
          db
        ≡ ok r
      → IsValid r.1
  unfolding initiate
  initiate-IsValid_service fault ids now none actor booking key customer db r valid h =
      absurd (ground arith)
  initiate-IsValid_service fault ids now (some s) actor booking key customer db r valid h =
      dressed-IsValid
        (Checkouts.initiate fault (λ n. ids (n + 2)) (new_payment ids now s) key
          (sha (raw_request nul booking customer)) db)
        (checkout md5 sha to_upper nul config urls customer) r (unfold checkout in λ t. refl)
        (ground arith)
        (λ t.
          initiate-IsValid fault (λ n. ids (n + 2)) (new_payment ids now s) key
            (sha (raw_request nul booking customer)) db t valid)

  committed-IsValid :
      {E A : Type 0} (m : Result E (A × Db)) (db : Db)
      → IsValid db
      → ((r : A × Db) → m ≡ ok r → IsValid r.1)
      → IsValid (committed m db)
  committed-IsValid (ok r) db valid h = h r refl
  committed-IsValid (err e) db valid h = valid

  pub run-IsValid :
      (cs : List Command) (db : Db)
      → IsValid db
      → IsValid (run md5 sha to_upper nul config urls cs db)
  unfolding run execute callback
  run-IsValid [] db valid = valid
  run-IsValid (initiates fault ids now fetched actor booking key customer ∷ cs) db valid =
      run-IsValid cs _ (
        committed-IsValid _ db valid (λ r.
          initiate-IsValid_service fault ids now fetched actor booking key customer db r valid))
  run-IsValid (notifies fault ids now n ∷ cs) db valid = run-IsValid cs _ (
      committed-IsValid _ db valid (λ r.
        apply_callback-IsValid sha fault ids n
          (verification (verify_notification md5 to_upper n config)) now db r valid))

  -- After any list of checkouts and notifications from empty tables, with faults of the database
  -- anywhere among them: no booking has two payments, and the outbox holds exactly one final fact
  -- (completed, failed or review required) for a payment that is settled, and none for one that is
  -- pending or unknown.
  pub run-announces_once :
      (cs : List Command)
      → let db = run md5 sha to_upper nul config urls cs empty in
        HasUniqueKeys (λ p. p.booking_id) db.payments
        × ((id : String)
            → count (is_final id) db.outbox ≡ settlements (find (has_id id) db.payments))
  run-announces_once cs =
      let valid =
        run-IsValid cs empty
          (record { unique_ids = tt; unique_bookings = tt; announced = λ id. refl }) in
      (valid.unique_bookings, valid.announced)
