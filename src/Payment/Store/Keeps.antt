-- ===== src/Payment/Store/Keeps.antt =====
-- What the repository's calls commit, and that they keep the invariant.
use mathlib.Core.Path.{subst}
use match_mate_dating_web.Base.{
  ℕ, ◌≡◌, sym, Bool, true, false, Option, none, some, [], ◌∷◌, ◌++◌, String, arith, string_eq,
  if◌then◌else◌, any, inl, inr, ◌⊎◌, Bool-cases, Option-cases,
}
use match_mate_dating_web.Base.Tables.{find}
use match_mate_dating_web.Base.Result.{Result, ok, ok_inj, bind-eq-ok, ◌>>=◌}
use match_mate_dating_web.Payment.Domain.{Payment, Notification}
use match_mate_dating_web.Payment.Store.{
  Db, Error, Callback, has_order, of_booking, has_fingerprint, collides,
}
use match_mate_dating_web.Payment.Store.Checkouts.{
  idempotency_record, initiate, initiate_new, initiated,
}
use match_mate_dating_web.Payment.Store.Callbacks.{
  callback_row, raw_callback, settle, settled, changes, apply_callback, next_state,
}
use match_mate_dating_web.Payment.Store.Valid.{
  IsValid, found-by_id, initiated-IsValid, settled-IsValid,
}

module _ (fault : ℕ → Bool) (ids : ℕ → String) where
  pub initiate_new-eq-ok :
      (p : Payment) (key fingerprint : String) (db : Db) (r : (Payment × Bool) × Db)
      → initiate_new fault ids p key fingerprint db ≡ ok r
      → (any (collides p) db.payments ≡ false)
        × (r ≡ ((p, false), initiated ids p key fingerprint db))
  unfolding initiate_new
  initiate_new-eq-ok p key fingerprint db r h = ground arith

  -- A call that succeeds changes nothing, records its key for a payment that is there already, or
  -- makes a new payment.
  pub initiate-eq-ok :
      (p : Payment) (key fingerprint : String) (db : Db) (r : (Payment × Bool) × Db)
      → initiate fault ids p key fingerprint db ≡ ok r
      → (r.1 ≡ db)
        ⊎ (((e : Payment) × (find (of_booking p.booking_id p.account_id) db.payments ≡ some e)
              × (r ≡ (
                (e, true),
                record db {
                  idempotency = db.idempotency ++ idempotency_record p key fingerprint e.id ∷ [];
                },
              )))
            ⊎ (initiate_new fault ids p key fingerprint db ≡ ok r))
  unfolding initiate
  initiate-eq-ok p key fingerprint db r h =
      elim (Option-cases (find (of_booking p.booking_id p.account_id) db.payments)) [
        | inl missing ↦
            let cases : (r.1 ≡ db) ⊎ (initiate_new fault ids p key fingerprint db ≡ ok r) =
              ground arith in
            elim cases [ inl same ↦ inl same | inr new ↦ inr (inr new) ]
        | inr (e, there) ↦
            let cases : (r.1 ≡ db)
                ⊎ (r ≡ (
                  (e, true),
                  record db {
                    idempotency = db.idempotency ++ idempotency_record p key fingerprint e.id ∷ [];
                  },
                )) =
              ground arith in
            elim cases [ inl same ↦ inl same | inr known ↦ inr (inl (e, there, known)) ]
      ]

  pub initiate-IsValid :
      (p : Payment) (key fingerprint : String) (db : Db) (r : (Payment × Bool) × Db)
      → IsValid db
      → initiate fault ids p key fingerprint db ≡ ok r
      → IsValid r.1
  initiate-IsValid p key fingerprint db r valid h = elim (initiate-eq-ok p key fingerprint db r h) [
    | inl same ↦ subst IsValid (sym same) valid
    | inr (inl (e, _, known)) ↦
        subst (λ s. IsValid s.1) (sym known)
          (record {
            unique_ids = valid.unique_ids;
            unique_bookings = valid.unique_bookings;
            announced = valid.announced;
          })
    | inr (inr new) ↦
        let (free, same) = initiate_new-eq-ok p key fingerprint db r new in
        subst (λ s. IsValid s.1) (sym same) (initiated-IsValid ids p key fingerprint db free valid)
  ]

  pub settle-eq-ok :
      (n : Notification) (verification : String) (now : ℕ) (p : Payment) (db : Db)
      (r : (Payment × Bool) × Db)
      → settle fault ids n verification now p db ≡ ok r
      → ((changes n verification p ≡ false) × (r ≡ ((p, true), db)))
        ⊎ ((changes n verification p ≡ true)
            × (r ≡ (
              (record p { state = next_state n verification p }, false),
              settled ids n verification now p db,
            )))
  unfolding settle
  settle-eq-ok n verification now p db r h = elim (Bool-cases (changes n verification p)) [
    | inl moves ↦ inr (moves, ground (arith, moves))
    | inr stays ↦ inl (stays, ground (arith, stays))
  ]

-- The tables with one more callback on record.
abbrev pub with_callback : Callback → Db → Db
with_callback c db = record db { callbacks = db.callbacks ++ c ∷ [] }

with_callback-IsValid : (c : Callback) (db : Db) → IsValid db → IsValid (with_callback c db)
with_callback-IsValid c db valid = record {
  unique_ids = valid.unique_ids;
  unique_bookings = valid.unique_bookings;
  announced = valid.announced;
}

module _ (sha : String → String) (fault : ℕ → Bool) (ids : ℕ → String) (n : Notification)
    (verification : String) (now : ℕ) (db : Db) where
  abbrev pub print : String
  print = sha (raw_callback n)

  abbrev pub is_known : Bool
  is_known = any (has_fingerprint print) db.callbacks

  -- The order is unknown: the callback is kept for review, once.
  pub apply_callback-unknown :
      (r : (Option Payment × Bool) × Db)
      → find (has_order n.order_id) db.payments ≡ none
      → apply_callback sha fault ids n verification now db ≡ ok r
      → r ≡ (
        (none, false),
        if is_known
            then db
            else with_callback (callback_row print none n "REVIEW_UNKNOWN_ORDER" now) db,
      )
  unfolding apply_callback
  apply_callback-unknown r missing h = ground (arith, missing)

  settle_call : Payment → Result Error ((Payment × Bool) × Db)
  settle_call p =
      settle fault ids n verification now p
        (with_callback (callback_row print (some p.id) n verification now) db)

  with_some : (Payment × Bool) × Db → Result Error ((Option Payment × Bool) × Db)
  with_some r = ok ((some r.0.0, r.0.1), r.1)

  apply_callback-split :
      (r : (Option Payment × Bool) × Db) (p : Payment)
      → find (has_order n.order_id) db.payments ≡ some p
      → apply_callback sha fault ids n verification now db ≡ ok r
      → ((is_known ≡ true) × (r ≡ ((some p, true), db)))
        ⊎ ((is_known ≡ false) × ((settle_call p >>= with_some) ≡ ok r))
  unfolding apply_callback settle_call with_some
  apply_callback-split r p found h = elim (Bool-cases is_known) [
    | inl old ↦ inl (old, ground (arith, found, old))
    | inr new ↦ inr (new, ground (arith, found, new))
  ]

  -- The order is known: a repeated callback changes nothing, a new one is recorded and settles the
  -- payment where that changes its state.
  pub apply_callback-known :
      (r : (Option Payment × Bool) × Db) (p : Payment)
      → find (has_order n.order_id) db.payments ≡ some p
      → apply_callback sha fault ids n verification now db ≡ ok r
      → ((is_known ≡ true) × (r ≡ ((some p, true), db)))
        ⊎ ((is_known ≡ false)
            × ((s : (Payment × Bool) × Db) × (settle fault ids n verification now p
                    (with_callback (callback_row print (some p.id) n verification now) db)
                  ≡ ok s)
                × (r ≡ ((some s.0.0, s.0.1), s.1))))
  unfolding settle_call with_some
  apply_callback-known r p found h = elim (apply_callback-split r p found h) [
    | inl old ↦ inl old
    | inr (new, called) ↦
        let (s, done, same) = bind-eq-ok (settle_call p) with_some r called in
        inr (new, (s, done, sym (ok_inj same)))
  ]

  pub apply_callback-IsValid :
      (r : (Option Payment × Bool) × Db)
      → IsValid db
      → apply_callback sha fault ids n verification now db ≡ ok r
      → IsValid r.1
  apply_callback-IsValid r valid h = elim (Option-cases (find (has_order n.order_id) db.payments)) [
    | inl missing ↦ elim (Bool-cases is_known) [
      | inl old ↦ subst (λ s. IsValid s.1) (sym (apply_callback-unknown r missing h)) (rw old valid)
      | inr new ↦
          subst (λ s. IsValid s.1) (sym (apply_callback-unknown r missing h))
            (rw new (with_callback-IsValid _ db valid))
    ]
    | inr (p, found) ↦ elim (apply_callback-known r p found h) [
      | inl (old, same) ↦ subst (λ s. IsValid s.1) (sym same) valid
      | inr (new, (s, done, same)) ↦
          let row = callback_row print (some p.id) n verification now in
          let kept = with_callback-IsValid row db valid in
          subst (λ t. IsValid t.1) (sym same)
            (elim (settle-eq-ok fault ids n verification now p (with_callback row db) s done) [
              | inl (_, stays) ↦ subst (λ t. IsValid t.1) (sym stays) kept
              | inr (moves, moved) ↦
                  subst (λ t. IsValid t.1) (sym moved)
                    (settled-IsValid ids n verification now p (with_callback row db)
                      (found-by_id db valid (has_order n.order_id) p found) moves kept)
            ])
    ]
  ]
