-- ===== src/Notification/Router/Bookings.antt =====
-- The facts of the booking service are ones that the router turns into notices for the account.
use mathlib.Core.Path.{subst}
use match_mate_dating_web.Base.{
  ℕ, ◌+◌, ◌≡◌, refl, sym, Bool, true, false, not, ◌&&◌, Option, none, some, List, [], ◌∷◌, ◌++◌,
  String, arith, ◌==◌, string_eq, nat_eq, eq_iff, inl, inr, All, All-append, All-map, All-zip,
  Bool-cases, if◌then◌else◌,
}
use match_mate_dating_web.Base.Maps.{lookup_or}
use match_mate_dating_web.Base.Text.{◌<>◌}
use match_mate_dating_web.Base.Result.{Result, ok, err, ok_inj}
use match_mate_dating_web.Booking.Domain.{Booking}
use match_mate_dating_web.Booking.Store
use match_mate_dating_web.Booking.Store.{Db, Fact, FactPayload, empty, insert_fact, at_venue}
use match_mate_dating_web.Booking.Store.Creations.{create}
use match_mate_dating_web.Booking.Store.Cancellations.{cancel}
use match_mate_dating_web.Booking.Store.Expirations.{expired_by, expire_each, due}
use match_mate_dating_web.Booking.Store.Payments.{apply_payment_event}
use match_mate_dating_web.Booking.Store.Keeps.{
  create_new-eq-ok, create-eq-ok, cancel-eq-ok, cancel_found-eq-ok, expire-eq-ok,
  payment_effect-cases, payment_new-eq-ok, apply_payment_event-eq-ok,
}
use match_mate_dating_web.Booking.Service.{
  Command, creates, cancels, expires, pays, execute, run, committed, committed_db,
}
use match_mate_dating_web.Booking.Service.Capacity.{
  create-eq-ok_service, cancel-eq-ok_service, create-unreachable,
}
use match_mate_dating_web.Notification.Domain.{Action, EventEnvelope, Plan}
use match_mate_dating_web.Notification.Router.{
  Router, BookingPayload, route, route_booking, one_of, account_events, booking_events,
  booking_templates, notice,
}

-- Whether a fact has a name that the router knows, and is about the booking in its payload.
abbrev is_known : Fact → Bool
is_known f = one_of booking_events f.event_type && f.aggregate_id == f.payload.booking_id

abbrev Known : List Fact → Type 0
Known = All (λ f. is_known f ≡ true)

insert_fact-Known :
    (ids : ℕ → String) (kind : String) (b : Booking) (causation actor : String) (at : ℕ)
    (outbox : List Fact)
    → one_of booking_events kind ≡ true
    → Known outbox
    → Known (insert_fact ids kind b causation actor at outbox)
unfolding insert_fact
insert_fact-Known ids kind b causation actor at outbox h k =
    All-append (λ f. is_known f ≡ true) outbox _ k (ground (arith, h, eq_iff b.id b.id))

first_kind :
    (paid_there : Bool)
    → one_of booking_events (if paid_there then "BookingConfirmed" else "BookingPending") ≡ true
first_kind true = refl
first_kind false = refl

create-Known :
    (fault : ℕ → Bool) (ids : ℕ → String) (b : Booking) (key fingerprint : String) (seats : ℕ)
    (db : Db) (r : (Booking × Bool) × Db)
    → Known db.outbox
    → create fault ids b key fingerprint seats db ≡ ok r
    → Known r.1.outbox
create-Known fault ids b key fingerprint seats db r k h =
    elim (create-eq-ok fault ids b key fingerprint seats db r h) [
      | inl same ↦ subst (λ x. Known x.outbox) (sym same) k
      | inr new ↦
          let (_, _, same) = create_new-eq-ok fault ids b key fingerprint seats db r new in
          subst (λ x. Known x.1.outbox) (sym same)
            (insert_fact-Known ids (if at_venue b then "BookingConfirmed" else "BookingPending") b
              "" b.account_id b.created_at db.outbox (first_kind (at_venue b)) k)
    ]

cancel-Known :
    (fault : ℕ → Bool) (ids : ℕ → String) (actor id key : String) (now : ℕ) (db : Db)
    (r : (Booking × Bool) × Db)
    → Known db.outbox
    → cancel fault ids actor id key now db ≡ ok r
    → Known r.1.outbox
cancel-Known fault ids actor id key now db r k h =
    elim (cancel-eq-ok fault ids actor id key now db r h) [
      | inl same ↦ subst (λ x. Known x.outbox) (sym same) k
      | inr (b, found, done) ↦ elim (cancel_found-eq-ok fault ids actor id key now b db r done) [
        | inl same ↦ subst (λ x. Known x.outbox) (sym same) k
        | inr (_, same) ↦
            subst (λ x. Known x.outbox) (sym same)
              (insert_fact-Known ids "BookingCancelled" _ "" actor now db.outbox refl k)
      ]
    ]

expire_each-Known :
    (fault : ℕ → Bool) (ids : ℕ → String) (now : ℕ) (list : List Booking) (db db' : Db)
    → Known db.outbox
    → expire_each fault ids now list db ≡ ok db'
    → Known db'.outbox
unfolding expire_each
expire_each-Known fault ids now [] db db' k h = subst (λ x. Known x.outbox) (ok_inj h) k
expire_each-Known fault ids now (b ∷ bs) db db' k h =
    expire_each-Known (λ n. fault (n + 3)) (λ n. ids (n + 2)) now bs (expired_by ids now b db) db'
      (insert_fact-Known ids "HoldExpired" _ "" "system:booking-expiry" now db.outbox refl k)
      (ground arith)

payment-Known :
    (fault : ℕ → Bool) (ids : ℕ → String) (event event_type booking : String) (at : ℕ) (db db' : Db)
    → Known db.outbox
    → apply_payment_event fault ids event event_type booking at db ≡ ok db'
    → Known db'.outbox
payment-Known fault ids event event_type booking at db db' k h =
    elim (apply_payment_event-eq-ok fault ids event event_type booking at db db' h) [
      | inl same ↦ subst (λ x. Known x.outbox) (sym same) k
      | inr new ↦
          let seen : Db = record db { inbox = db.inbox ++ event ∷ [] } in
          let (b, found, done) =
            payment_new-eq-ok fault ids event event_type booking at seen db' new in
          elim (payment_effect-cases (λ n. fault (n + 4)) ids event event_type at b seen db' done) [
            | inl same ↦ subst (λ x. Known x.outbox) (sym same) k
            | inr (inl (_, same)) ↦
                subst (λ x. Known x.outbox) (sym same)
                  (insert_fact-Known ids "BookingConfirmed" _ event "system:payment" at seen.outbox
                    refl k)
            | inr (inr (_, same)) ↦
                subst (λ x. Known x.outbox) (sym same)
                  (insert_fact-Known ids "BookingPaymentReviewRequired" _ event "system:payment" at
                    seen.outbox refl k)
          ]
    ]

committed-Known :
    {A : Type 0} (m : Result Store.Error (A × Db)) (db : Db)
    → Known db.outbox
    → ((r : A × Db) → m ≡ ok r → Known r.1.outbox)
    → Known (committed m db).outbox
committed-Known (ok r) db k h = h r refl
committed-Known (err e) db k h = k

committed_db-Known :
    (m : Result Store.Error Db) (db : Db)
    → Known db.outbox
    → ((r : Db) → m ≡ ok r → Known r.outbox)
    → Known (committed_db m db).outbox
committed_db-Known (ok r) db k h = h r refl
committed_db-Known (err e) db k h = k

module _ (to_upper : String → String) where
  execute-Known : (c : Command) (db : Db) → Known db.outbox → Known (execute to_upper c db).outbox
  unfolding execute
  execute-Known (creates fault ids now hold none actor event method key) db k =
      committed-Known _ db k (λ r h.
        absurd (create-unreachable to_upper fault ids now hold actor event method key db r h))
  execute-Known (creates fault ids now hold (some e) actor event method key) db k =
      committed-Known _ db k (λ r h.
        let (s, done, same) =
          create-eq-ok_service to_upper fault ids now hold e actor event method key db r h in
        subst (λ t. Known t.1.outbox) same
          (create-Known fault (λ n. ids (n + 1)) _ key _ e.configured_capacity db s k done))
  execute-Known (cancels fault ids now actor id key) db k = committed-Known _ db k (λ r h.
      let (s, done, same) = cancel-eq-ok_service fault ids now actor id key db r h in
      subst (λ t. Known t.1.outbox) same (cancel-Known fault ids actor id key now db s k done))
  execute-Known (expires fault ids now limit) db k = committed-Known _ db k (λ r h.
      expire_each-Known (λ n. fault (n + 3)) ids now (due now limit db.bookings) db r.1 k
        (expire-eq-ok fault ids now limit db r h).1)
  execute-Known (pays fault ids event event_type booking at) db k =
      committed_db-Known _ db k
        (λ db'. payment-Known fault ids event event_type booking at db db' k)

  run-Known : (cs : List Command) (db : Db) → Known db.outbox → Known (run to_upper cs db).outbox
  unfolding run
  run-Known [] db k = k
  run-Known (c ∷ cs) db k = run-Known cs (execute to_upper c db) (execute-Known c db k)

one_of-All :
    (P : String → Type 0) (names : List String) (s : String)
    → one_of names s ≡ true
    → All P names
    → P s
one_of-All P [] s h all = absurd (ground (arith, h))
one_of-All P (n ∷ names) s h all = elim (Bool-cases (n == s)) [
  | inl same ↦ subst P ((eq_iff n s).0 same) all.0
  | inr other ↦ one_of-All P names s (ground (arith, h, other)) all.1
]

-- The template that tells of each fact of the booking service.
pub data Announces : String → String → Type 0 where
  of_pending : Announces "BookingPending" "booking-pending"
  of_confirmed : Announces "BookingConfirmed" "booking-confirmed"
  of_cancelled : Announces "BookingCancelled" "booking-cancelled"
  of_expired : Announces "HoldExpired" "booking-hold-expired"
  of_review : Announces "BookingPaymentReviewRequired" "booking-payment-review"

-- What the router does with the name of a booking fact.
abbrev HasNotice : String → Type 0
HasNotice s =
    ((s == "") ≡ false)
    × (one_of account_events s ≡ false)
    × Announces s (lookup_or "" s booking_templates)

booking_events-HasNotice : (s : String) → one_of booking_events s ≡ true → HasNotice s
booking_events-HasNotice s h = one_of-All HasNotice booking_events s h (
  (refl, refl, of_pending),
  (
    (refl, refl, of_confirmed),
    ((refl, refl, of_cancelled), ((refl, refl, of_expired), ((refl, refl, of_review), tt))),
  ),
)

-- A plan that tells the account in a fact's payload of the fact.
pub record IsNotice (router : Router) (f : Fact) (q : Plan) : Type 0 where
  pub delivers : q.action ≡ Action.deliver
  pub recipient : q.recipient_account_id ≡ f.payload.account_id
  pub booking : q.source_aggregate_id ≡ f.payload.booking_id
  pub category : q.category ≡ "BOOKING"
  pub template : Announces f.event_type q.template_key
  pub key :
      q.business_key
      ≡ "notification:v1:" <> f.event_id <> ":" <> q.template_key <> ":" <> f.payload.account_id
  pub unsuppressed : q.suppression_reason ≡ ""
  pub locale : q.locale ≡ router.locale
  pub channel : q.channel ≡ router.channel

-- The envelope in which the outbox publishes a fact; `encode` is the JSON of the payload.
abbrev pub envelope : (FactPayload → String) → Fact → EventEnvelope
envelope encode f = record {
  event_id = f.event_id;
  event_type = f.event_type;
  schema_version = 1;
  occurred_at = f.occurred_at;
  aggregate_id = f.aggregate_id;
  correlation_id = f.correlation_id;
  causation_id = if f.causation_id == "" then none else some f.causation_id;
  actor_id = f.actor_id;
  payload = encode f.payload;
}

-- Whether the identifiers of the fact are UUIDs and its time is not zero.
abbrev pub is_identified : (String → Bool) → Fact → Bool
is_identified is_uuid f =
    is_uuid f.event_id
    && (is_uuid f.payload.booking_id
        && (is_uuid f.payload.account_id
            && (is_uuid f.payload.event_id
                && (not (f.occurred_at == 0) && not (f.payload.booking_id == "")))))

-- What the decoder has to read from an encoded booking; `state_text` is the JSON text of a state.
abbrev pub payload_of : (FactPayload → String) → FactPayload → BookingPayload
payload_of state_text b = record {
  booking_id = b.booking_id;
  event_id = b.event_id;
  account_id = b.account_id;
  state = state_text b;
}

module _ (is_uuid : String → Bool) (account_payload : String → Option String)
    (booking_payload : String → Option BookingPayload) (encode : FactPayload → String)
    (router : Router) (state_text : FactPayload → String) where
  abbrev Readable : Fact → Type 0
  Readable f =
      (is_identified is_uuid f ≡ true)
      × (booking_payload (encode f.payload) ≡ some (payload_of state_text f.payload))

  route_known :
      (f : Fact)
      → is_known f ≡ true
      → is_identified is_uuid f ≡ true
      → booking_payload (encode f.payload) ≡ some (payload_of state_text f.payload)
      → (q : Plan) × (route is_uuid account_payload booking_payload router (envelope encode f)
          ≡ ok q)
        × IsNotice router f q
  unfolding route route_booking
  route_known f known identified decoded =
      let (named, other, announced) =
        booking_events-HasNotice f.event_type (ground (arith, known)) in
      (
        notice router (envelope encode f) "BOOKING" (lookup_or "" f.event_type booking_templates)
            f.payload.account_id f.payload.booking_id,
        ground (
          arith,
          known,
          identified,
          named,
          other,
          decoded,
          eq_iff f.aggregate_id f.payload.booking_id,
          eq_iff f.payload.booking_id f.aggregate_id,
        ),
        record {
          delivers = refl;
          recipient = refl;
          booking = refl;
          category = refl;
          template = announced;
          key = refl;
          unsuppressed = refl;
          locale = refl;
          channel = refl;
        },
      )

  -- After any calls of the booking service from empty tables, if the identifiers of its facts are
  -- UUIDs, their times are not zero and their payloads are decoded to what was encoded, every fact is
  -- routed to a plan that delivers, to the account in its payload and about the booking in it, in the
  -- category BOOKING, with the template that announces the kind of fact, the business key of the
  -- fact, template and account, and the router's locale and channel.
  pub run-route :
      (to_upper : String → String) (cs : List Command)
      → All (λ f. is_identified is_uuid f ≡ true) (run to_upper cs empty).outbox
      → All
          (λ f. booking_payload (encode f.payload) ≡ some (payload_of state_text f.payload))
          (run to_upper cs empty).outbox
      → All
          (λ f.
            (q : Plan) × (route is_uuid account_payload booking_payload router (envelope encode f)
              ≡ ok q)
            × IsNotice router f q)
          (run to_upper cs empty).outbox
  run-route to_upper cs identified decoded =
      let facts = (run to_upper cs empty).outbox in
      All-map facts (λ f k. route_known f k.0 k.1.0 k.1.1)
        (All-zip (λ f. is_known f ≡ true) Readable facts (run-Known to_upper cs empty tt)
          (All-zip (λ f. is_identified is_uuid f ≡ true)
            (λ f. booking_payload (encode f.payload) ≡ some (payload_of state_text f.payload)) facts
            identified decoded))
