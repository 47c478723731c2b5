-- ===== src/Base/Evolution.antt =====
-- What a step of a table does to its rows: every row is still found by its key, in a relation to
-- what it was.
use Prim.Native.String.{String}
use mathlib.Core.Path.{◌≡◌, refl}
use mathlib.Core.Logic.{◌⊎◌, inl, inr}
use mathlib.Core.Bool.{Bool}
use mathlib.Core.Option.{none, some}
use mathlib.Core.List.{List, [], ◌∷◌, ◌++◌, map}
use native.Mathlib.Omega.{arith}
use match_mate_dating_web.Base.Tests.{◌==◌, string_eq, Bool-cases}
use match_mate_dating_web.Base.Lists.{All}
use match_mate_dating_web.Base.Tables.{find, update_row, find-append}
use match_mate_dating_web.Base.Keys.{HasUniqueKeys}

module _ {ℓ} {A : Type ℓ} where
  -- A row that is found is found again after an update of one row, and either it is as it was, or
  -- it is the row that was updated.
  pub find-update_row-either :
      (p q : A → Bool) (f : A → A) (xs : List A) (a : A)
      → ((x : A) → q (f x) ≡ q x)
      → find q xs ≡ some a
      → (find q (update_row p f xs) ≡ some a)
        ⊎ ((find p xs ≡ some a) × (find q (update_row p f xs) ≡ some (f a)))
  find-update_row-either p q f [] a keep h = absurd (cc)
  find-update_row-either p q f (x ∷ xs) a keep h = elim (Bool-cases (p x)) [
    | inl t ↦ elim (Bool-cases (q x)) [
      | inl s ↦ inr (ground (arith, t, s, h), ground (arith, t, s, h, keep x))
      | inr e ↦ inl (ground (arith, t, e, h, keep x))
    ]
    | inr e ↦ elim (Bool-cases (q x)) [
      | inl s ↦ inl (ground (arith, e, s, h))
      | inr d ↦ elim (find-update_row-either p q f xs a keep (ground (arith, d, h))) [
        | inl same ↦ inl (ground (arith, e, d, same))
        | inr (at, new) ↦ inr (ground (arith, e, at), ground (arith, e, d, new))
      ]
    ]
  ]

  pub find-map :
      (q : A → Bool) (f : A → A) (xs : List A) (a : A)
      → ((x : A) → q (f x) ≡ q x)
      → find q xs ≡ some a
      → find q (map f xs) ≡ some (f a)
  find-map q f [] a keep h = absurd (cc)
  find-map q f (x ∷ xs) a keep h = ground (arith, keep x, find-map q f xs a keep)

  pub find-map-none :
      (q : A → Bool) (f : A → A) (xs : List A)
      → ((x : A) → q (f x) ≡ q x)
      → find q xs ≡ none
      → find q (map f xs) ≡ none
  find-map-none q f [] keep h = refl
  find-map-none q f (x ∷ xs) keep h = ground (arith, keep x, find-map-none q f xs keep)

module _ {ℓ κ} {A : Type ℓ} (P : A → Type κ) where
  pub All-mapped :
      (f : A → A) (xs : List A) → ((a : A) → P a → P (f a)) → All P xs → All P (map f xs)
  All-mapped f [] k h = tt
  All-mapped f (x ∷ xs) k h = (k x h.0, All-mapped f xs k h.1)

module _ {A : Type 0} (key : A → String) where
  pub HasUniqueKeys-map :
      (f : A → A) (xs : List A)
      → ((a : A) → key (f a) ≡ key a)
      → HasUniqueKeys key xs
      → HasUniqueKeys key (map f xs)
  HasUniqueKeys-map f [] keep h = tt
  HasUniqueKeys-map f (x ∷ xs) keep h = rw (keep x) (
    find-map-none (λ a. key a == key x) f xs (λ a. rw (keep a)) h.0,
    HasUniqueKeys-map f xs keep h.1,
  )

module _ {A : Type 0} (key : A → String) (R : A → A → Type 0) where
  abbrev pub Evolves : List A → List A → Type 0
  Evolves old new =
      (id : String) (a : A)
      → find (λ x. key x == id) old ≡ some a
      → (b : A) × (find (λ x. key x == id) new ≡ some b) × R a b

  pub Evolves-refl : ((a : A) → R a a) → (rows : List A) → Evolves rows rows
  Evolves-refl same rows id a h = (a, h, same a)

  pub Evolves-trans :
      ((a b c : A) → R a b → R b c → R a c)
      → (xs ys zs : List A) → Evolves xs ys
      → Evolves ys zs
      → Evolves xs zs
  Evolves-trans trans xs ys zs h k id a found =
      let (b, found_b, ab) = h id a found in
      let (c, found_c, bc) = k id b found_b in (c, found_c, trans a b c ab bc)

  pub Evolves-append : ((a : A) → R a a) → (rows : List A) (a : A) → Evolves rows (rows ++ a ∷ [])
  Evolves-append same rows a id b found =
      (b, ground (arith, found, find-append (λ x. key x == id) rows a), same b)

  pub Evolves-update_row :
      ((a : A) → R a a)
      → (p : A → Bool) (f : A → A) (rows : List A) → ((a : A) → key (f a) ≡ key a)
      → ((a : A) → find p rows ≡ some a → R a (f a))
      → Evolves rows (update_row p f rows)
  Evolves-update_row same p f rows keep step id a found =
      elim (find-update_row-either p (λ x. key x == id) f rows a (λ x. rw (keep x)) found) [
        | inl old ↦ (a, old, same a)
        | inr (at, new) ↦ (f a, new, step a at)
      ]

  pub Evolves-map :
      (f : A → A) (rows : List A)
      → ((a : A) → key (f a) ≡ key a)
      → ((a : A) → R a (f a))
      → Evolves rows (map f rows)
  Evolves-map f rows keep step id a found =
      (f a, find-map (λ x. key x == id) f rows a (λ x. rw (keep x)) found, step a)
