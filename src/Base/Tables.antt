-- ===== src/Base/Tables.antt =====
-- Rows of a database table. A table is a list of rows in the order of insertion; `find` and
-- `update_row` serve statements whose WHERE clause names a primary key, so that at most one row
-- passes the test.
use Prim.Native.Nat.{ℕ, zero, suc, ◌+◌, ◌≤◌}
use mathlib.Core.Path.{◌≡◌, refl, subst}
use mathlib.Core.Logic.{inl, inr}
use mathlib.Core.Bool.{Bool, true, false}
use mathlib.Core.Option.{Option, none, some}
use mathlib.Core.List.{List, [], ◌∷◌, ◌++◌}
use native.Mathlib.Omega.{arith}
use match_mate_dating_web.Base.Tests.{if◌then◌else◌, Bool-cases}
use match_mate_dating_web.Base.Lists.{count, All, any, take, filter}

abbrev pub indicator : Bool → ℕ
indicator true = 1
indicator false = 0

module _ {ℓ} {A : Type ℓ} where
  abbrev pub find : (A → Bool) → List A → Option A
  find p [] = none
  find p (x ∷ xs) = let rest = find p xs in if p x then some x else rest

  abbrev pub update_row : (A → Bool) → (A → A) → List A → List A
  update_row p f [] = []
  update_row p f (x ∷ xs) = let rest = update_row p f xs in if p x then f x ∷ xs else x ∷ rest

  -- A row that is found passes the test.
  pub find_passes : (p : A → Bool) (xs : List A) (a : A) → find p xs ≡ some a → p a ≡ true
  find_passes p [] a h = ground arith
  find_passes p (x ∷ xs) a h = ground (arith, find_passes p xs a)

  pub find-append :
      (p : A → Bool) (xs : List A) (a : A)
      → find p (xs ++ a ∷ [])
        ≡ elim (find p xs) [ none ↦ (if p a then some a else none) | some b ↦ some b ]
  find-append p [] a = ground arith
  find-append p (x ∷ xs) a = ground (arith, find-append p xs a)

  -- The row that is updated is found with its new value, as long as that passes the test.
  pub find-update_row :
      (p : A → Bool) (f : A → A) (xs : List A) (a : A)
      → find p xs ≡ some a
      → p (f a) ≡ true
      → find p (update_row p f xs) ≡ some (f a)
  find-update_row p f [] a h k = ground arith
  find-update_row p f (x ∷ xs) a h k = ground (arith, find-update_row p f xs a)

  -- Another search is not touched, if neither the old nor the new row passes its test.
  pub find-update_row_other :
      (p q : A → Bool) (f : A → A) (xs : List A)
      → ((a : A) → p a ≡ true → (q a ≡ false) × (q (f a) ≡ false))
      → find q (update_row p f xs) ≡ find q xs
  find-update_row_other p q f [] h = refl
  find-update_row_other p q f (x ∷ xs) h = ground (arith, h x, find-update_row_other p q f xs h)

  -- With no row to update the table stays as it is.
  pub update_row_missing :
      (p : A → Bool) (f : A → A) (xs : List A) → find p xs ≡ none → update_row p f xs ≡ xs
  update_row_missing p f [] h = refl
  update_row_missing p f (x ∷ xs) h = ground (arith, update_row_missing p f xs)

  -- One update exchanges one row in every count.
  pub count-update_row :
      (p c : A → Bool) (f : A → A) (xs : List A) (a : A)
      → find p xs ≡ some a
      → count c (update_row p f xs) + indicator (c a) ≡ count c xs + indicator (c (f a))
  count-update_row p c f [] a h = ground arith
  count-update_row p c f (x ∷ xs) a h = ground (arith, count-update_row p c f xs a)

  pub count_pos_of_find :
      (p c : A → Bool) (xs : List A) (a : A) → find p xs ≡ some a → c a ≡ true → 1 ≤ count c xs
  count_pos_of_find p c [] a h k = ground arith
  count_pos_of_find p c (x ∷ xs) a h k = ground (arith, count_pos_of_find p c xs a)

  -- A row outside the test is as missing after the update as before it.
  pub find-update_row-none :
      (p q : A → Bool) (f : A → A) (xs : List A)
      → ((a : A) → q (f a) ≡ q a)
      → find q xs ≡ none
      → find q (update_row p f xs) ≡ none
  find-update_row-none p q f [] k h = refl
  find-update_row-none p q f (x ∷ xs) k h = ground (arith, k x, find-update_row-none p q f xs k)

  pub find-none-any :
      (p q : A → Bool) (xs : List A)
      → ((a : A) → q a ≡ true → p a ≡ true)
      → any p xs ≡ false
      → find q xs ≡ none
  find-none-any p q [] k h = refl
  find-none-any p q (x ∷ xs) k h = ground (arith, k x, find-none-any p q xs k)

  pub All-find-none : (p : A → Bool) (xs : List A) → find p xs ≡ none → All (λ a. p a ≡ false) xs
  All-find-none p [] h = tt
  All-find-none p (x ∷ xs) h = ground (arith, All-find-none p xs)

  pub find-take-none :
      (q : A → Bool) (n : ℕ) (xs : List A) → find q xs ≡ none → find q (take n xs) ≡ none
  find-take-none q zero xs h = refl
  find-take-none q (suc n) [] h = refl
  find-take-none q (suc n) (x ∷ xs) h = ground (arith, find-take-none q n xs)

  pub find-filter-none :
      (q p : A → Bool) (xs : List A) → find q xs ≡ none → find q (filter p xs) ≡ none
  find-filter-none q p [] h = refl
  find-filter-none q p (x ∷ xs) h = ground (arith, find-filter-none q p xs)

module _ {ℓ κ} {A : Type ℓ} (P : A → Type κ) (p : A → Bool) where
  pub All-found : (xs : List A) (a : A) → All P xs → find p xs ≡ some a → P a
  All-found [] a h e = cc
  All-found (x ∷ xs) a h e = elim (Bool-cases (p x)) [
    | inl t ↦ subst P (ground arith) h.0
    | inr f ↦ All-found xs a h.1 (ground arith)
  ]

  pub All-update_row :
      (f : A → A) (xs : List A) → ((a : A) → P a → P (f a)) → All P xs → All P (update_row p f xs)
  All-update_row f [] k h = tt
  All-update_row f (x ∷ xs) k h = elim (Bool-cases (p x)) [
    | inl t ↦ rw t (k x h.0, h.1)
    | inr e ↦ rw e (h.0, All-update_row f xs k h.1)
  ]
