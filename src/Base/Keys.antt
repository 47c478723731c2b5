-- ===== src/Base/Keys.antt =====
-- Tables whose rows have distinct keys.
use mathlib.Core.Path.{◌≡◌, refl}
use mathlib.Core.Logic.{inl, inr}
use mathlib.Core.Bool.{Bool, false}
use mathlib.Core.Option.{none, some}
use mathlib.Core.List.{List, [], ◌∷◌, ◌++◌}
use Prim.Native.String.{String}
use native.Mathlib.Omega.{arith}
use text.Mathlib.TextEquality.{eq_iff}
use match_mate_dating_web.Base.Tests.{◌==◌, string_eq, Bool-cases}
use match_mate_dating_web.Base.Lists.{All, All-map, All-zip}
use match_mate_dating_web.Base.Tables.{
  find, update_row, find-append, find-update_row-none, All-find-none,
}

module _ {ℓ} {A : Type ℓ} (key : A → String) where
  abbrev pub HasUniqueKeys : List A → Type ℓ
  HasUniqueKeys [] = Unit
  HasUniqueKeys (b ∷ bs) = (find (λ a. key a == key b) bs ≡ none) × HasUniqueKeys bs

  pub HasUniqueKeys-append :
      (bs : List A) (b : A)
      → HasUniqueKeys bs
      → find (λ a. key a == key b) bs ≡ none
      → HasUniqueKeys (bs ++ b ∷ [])
  HasUniqueKeys-append [] b h k = (refl, tt)
  HasUniqueKeys-append (c ∷ bs) b h k = (
    ground (
      arith,
      h.0,
      k,
      find-append (λ a. key a == key c) bs b,
      eq_iff (key b) (key c),
      eq_iff (key c) (key b),
    ),
    HasUniqueKeys-append bs b h.1 (ground (arith, k)),
  )

  pub HasUniqueKeys-update_row :
      (p : A → Bool) (f : A → A) (bs : List A)
      → ((b : A) → key (f b) ≡ key b)
      → HasUniqueKeys bs
      → HasUniqueKeys (update_row p f bs)
  HasUniqueKeys-update_row p f [] k h = tt
  HasUniqueKeys-update_row p f (b ∷ bs) k h = elim (Bool-cases (p b)) [
    | inl t ↦ rw t (rw (k b) h.0, h.1)
    | inr e ↦ rw e (
      find-update_row-none p (λ a. key a == key b) f bs (λ c. rw (k c)) h.0,
      HasUniqueKeys-update_row p f bs k h.1,
    )
  ]

  -- Under distinct keys every row is the one that its key finds.
  pub HasUniqueKeys-find :
      (bs : List A) → HasUniqueKeys bs → All (λ b. find (λ a. key a == key b) bs ≡ some b) bs
  HasUniqueKeys-find [] h = tt
  HasUniqueKeys-find (c ∷ bs) h = (
    ground (arith, eq_iff (key c) (key c)),
    All-map bs (λ b k. ground (arith, k.0, k.1, eq_iff (key b) (key c), eq_iff (key c) (key b)))
        (All-zip (λ b. (key b == key c) ≡ false) (λ b. find (λ a. key a == key b) bs ≡ some b) bs
          (All-find-none (λ a. key a == key c) bs h.0) (HasUniqueKeys-find bs h.1)),
  )
