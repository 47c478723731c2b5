-- ===== src/Payment/Store/Reconciliation.antt =====
-- services/payment-service/internal/store/postgres/repository.go: `OpenPendingReconciliation`, on
-- the table `reconciliation_item`, which no other code reads or writes. `ids n` is the n-th result
-- of `gen_random_uuid()` in the statement.
use match_mate_dating_web.Base.{
  ℕ, ◌+◌, ◌≤◌, ◌≡◌, refl, Bool, true, false, not, ◌&&◌, none, some, List, [], ◌∷◌, ◌++◌, String,
  leb, ◌==◌, string_eq, if◌then◌else◌, any, filter, length, count, arith, eq_iff, count-append,
  length-append,
}
use match_mate_dating_web.Base.Tables.{find}
use match_mate_dating_web.Base.Keys.{HasUniqueKeys}
use match_mate_dating_web.Base.Result.{Result, ok, fail_if, ◌>>◌}
use match_mate_dating_web.Payment.Domain.{Payment, is_pending}
use match_mate_dating_web.Payment.Store.{Db, Error, has_id, store_failed}
use match_mate_dating_web.Payment.Store.Valid.{IsValid}

pub data ItemStatus : Type 0 where
  opened resolved : ItemStatus

abbrev pub is_opened : ItemStatus → Bool
is_opened opened = true
is_opened resolved = false

pub record Item : Type 0 where
  pub id : String
  pub payment_id : String
  pub discrepancy_type : String
  pub status : ItemStatus
  pub created_at : ℕ

-- `WHERE p.state='PENDING' AND p.updated_at<=$1`
abbrev pub is_stale : ℕ → Payment → Bool
is_stale older p = is_pending p.state && leb p.updated_at older

abbrev pub awaits : String → Item → Bool
awaits payment i =
    i.payment_id == payment
    && (i.discrepancy_type == "PENDING_PROVIDER_RESULT" && is_opened i.status)

-- The rows that the statement selects.
abbrev pub unreconciled : ℕ → List Item → Payment → Bool
unreconciled older items p = is_stale older p && not (any (awaits p.id) items)

abbrev pub new_item : String → ℕ → Payment → Item
new_item id now p = record {
  id = id;
  payment_id = p.id;
  discrepancy_type = "PENDING_PROVIDER_RESULT";
  status = opened;
  created_at = now;
}

unfoldable pub new_items : (ℕ → String) → ℕ → List Payment → List Item
new_items ids now [] = []
new_items ids now (p ∷ ps) = new_item (ids 0) now p ∷ new_items (λ n. ids (n + 1)) now ps

-- `OpenPendingReconciliation`. The rows are inserted together, for distinct payments that have no
-- such row, so the table's unique columns refuse none.
unfoldable pub open_pending_reconciliation :
    (ℕ → Bool) → (ℕ → String) → ℕ → ℕ → List Item → Db → Result Error (ℕ × List Item)
open_pending_reconciliation fault ids older now items db = do
  fail_if (fault 0) store_failed
  let rows = new_items ids now (filter (unreconciled older items) db.payments)
  ok (length rows, items ++ rows)

count-new_items :
    (ids : ℕ → String) (now : ℕ) (ps : List Payment) (id : String)
    → count (awaits id) (new_items ids now ps) ≡ count (has_id id) ps
unfolding new_items
count-new_items ids now [] id = refl
count-new_items ids now (p ∷ ps) id = ground (arith, count-new_items (λ n. ids (n + 1)) now ps id)

-- A filter keeps the row of an identifier that passes it, and no other of that identifier.
count_unknown :
    (test : Payment → Bool) (id : String) (ps : List Payment)
    → find (has_id id) ps ≡ none
    → count (has_id id) (filter test ps) ≡ 0
count_unknown test id [] h = refl
count_unknown test id (p ∷ ps) h = ground (arith, h, count_unknown test id ps)

count_known :
    (test : Payment → Bool) (p : Payment) (ps : List Payment)
    → HasUniqueKeys (λ a. a.id) ps
    → find (has_id p.id) ps ≡ some p
    → count (has_id p.id) (filter test ps) ≡ (if test p then 1 else 0)
count_known test p [] h k = absurd (cc)
count_known test p (a ∷ ps) h k =
    ground (arith, h.0, k, eq_iff a.id p.id, count_unknown test p.id ps, count_known test p ps h.1)

any-count : (test : Item → Bool) (items : List Item) → any test items ≡ leb 1 (count test items)
any-count test [] = refl
any-count test (i ∷ items) = ground (arith, any-count test items)

-- On valid tables, with the database answering, a scan commits and reports the number of items it
-- inserts, and a pending payment that has not changed since the limit, with at most one open item
-- before, has exactly one afterwards.
pub scan_opens_one :
    (fault : ℕ → Bool) (ids : ℕ → String) (older now : ℕ) (items : List Item) (db : Db)
    (p : Payment)
    → IsValid db
    → find (has_id p.id) db.payments ≡ some p
    → is_stale older p ≡ true
    → count (awaits p.id) items ≤ 1
    → fault 0 ≡ false
    → (r : ℕ × List Item) × (open_pending_reconciliation fault ids older now items db ≡ ok r)
      × (length r.1 ≡ length items + r.0)
      × (count (awaits p.id) r.1 ≡ 1)
unfolding open_pending_reconciliation
scan_opens_one fault ids older now items db p valid found stale at_most up =
    let chosen = filter (unreconciled older items) db.payments in
    let rows = new_items ids now chosen in
    (
      (length rows, items ++ rows),
      rw up refl,
      length-append items rows,
      ground (
        arith,
        stale,
        at_most,
        any-count (awaits p.id) items,
        count-append (awaits p.id) items rows,
        count-new_items ids now chosen p.id,
        count_known (unreconciled older items) p db.payments valid.unique_ids found,
      ),
    )
