-- ===== src/Moderation/Service/Windows.antt =====
-- The rate limit of reports.
use mathlib.Core.Path.{subst}
use match_mate_dating_web.Base.{
  ℕ, ◌+◌, ◌≤◌, ◌<◌, ◌≡◌, refl, ap, Bool, true, false, ◌&&◌, some, List, [], ◌∷◌, ◌++◌, String,
  arith, eq_iff, ltb, leb, ◌==◌, string_eq, length, filter, count, count-append, Bool-cases, inl,
  inr,
}
use match_mate_dating_web.Base.Maps.{lookup, lookup_or, insert}
use match_mate_dating_web.Moderation.Service.{
  Windows, allow_report, allowed_reports, is_recent, hour,
}

lookup-insert : (k : String) (v : List ℕ) (m : Windows) → lookup k (insert k v m) ≡ some v
lookup-insert k v [] = ground (arith, eq_iff k k)
lookup-insert k v ((j, w) ∷ m) = ground (arith, eq_iff k k, eq_iff j k, lookup-insert k v m)

lookup-insert_other :
    (i k : String) (v : List ℕ) (m : Windows)
    → (k == i) ≡ false
    → lookup i (insert k v m) ≡ lookup i m
lookup-insert_other i k v [] h = ground (arith, h)
lookup-insert_other i k v ((j, w) ∷ m) h =
    ground (arith, h, eq_iff j k, eq_iff k i, eq_iff j i, lookup-insert_other i k v m h)

-- Whether the calls come in the order of their instants, from `s` on.
abbrev pub is_ordered : ℕ → List (String × ℕ) → Bool
is_ordered s [] = true
is_ordered s ((account, now) ∷ calls) = leb s now && is_ordered now calls

-- Whether an instant lies in the hour that ends at `t`.
abbrev pub in_hour : ℕ → ℕ → Bool
in_hour t at = leb at t && ltb t (at + hour)

abbrev pub in_hour_of : String → ℕ → String × ℕ → Bool
in_hour_of account t (who, at) = who == account && in_hour t at

-- The instants that the filter drops do not count any more.
count-filter :
    (t now : ℕ) (xs : List ℕ)
    → now ≤ t
    → count (in_hour t) (filter (is_recent now) xs) ≡ count (in_hour t) xs
count-filter t now [] h = refl
count-filter t now (x ∷ xs) h = elim (Bool-cases (is_recent now x)) [
  | inl new ↦ rw new (ground (arith, count-filter t now xs h))
  | inr old ↦ rw old (ground (arith, old, h, count-filter t now xs h))
]

count-length-le : (p : ℕ → Bool) (xs : List ℕ) → count p xs ≤ length xs
count-length-le p [] = omega arith
count-length-le p (x ∷ xs) = ground (arith, count-length-le p xs)

-- Nothing that is allowed after `t` lies in the hour before.
late :
    (account : String) (t s n : ℕ) (calls : List (String × ℕ)) (windows : Windows)
    → t < s
    → is_ordered s calls ≡ true
    → count (in_hour_of account t) (allowed_reports n calls windows) ≡ 0
unfolding allowed_reports
late account t s n [] windows h k = refl
late account t s n ((who, now) ∷ calls) windows h k =
    let r = allow_report n who now windows in
    let rest = late account t now n calls r.1 (ground (arith, h, k)) (ground (arith, k)) in
    elim (Bool-cases (r.0)) [
      | inl yes_it_is ↦ rw yes_it_is (ground (arith, rest, h, k))
      | inr refused ↦ rw refused rest
    ]

abbrev window : String → Windows → List ℕ
window account windows = lookup_or [] account windows

window-insert :
    (account : String) (v : List ℕ) (windows : Windows)
    → window account (insert account v windows) ≡ v
window-insert account v windows = ground (arith, lookup-insert account v windows)

window-insert_other :
    (account who : String) (v : List ℕ) (windows : Windows)
    → (who == account) ≡ false
    → window account (insert who v windows) ≡ window account windows
window-insert_other account who v windows h =
    ground (arith, lookup-insert_other account who v windows h)

abbrev kept : String → ℕ → Windows → List ℕ
kept who now windows = filter (is_recent now) (window who windows)

refused_call :
    (n : ℕ) (who : String) (now : ℕ) (calls : List (String × ℕ)) (windows : Windows)
    → leb n (length (kept who now windows)) ≡ true
    → allowed_reports n ((who, now) ∷ calls) windows
      ≡ allowed_reports n calls (insert who (kept who now windows) windows)
unfolding allowed_reports allow_report
refused_call n who now calls windows h = rw h refl

accepted_call :
    (n : ℕ) (who : String) (now : ℕ) (calls : List (String × ℕ)) (windows : Windows)
    → leb n (length (kept who now windows)) ≡ false
    → allowed_reports n ((who, now) ∷ calls) windows
      ≡ (who, now) ∷ allowed_reports n calls (insert who (kept who now windows ++ now ∷ []) windows)
unfolding allowed_reports allow_report
accepted_call n who now calls windows h = rw h refl

-- One call of the limiter, with what is known about the calls that follow.
module _ (account who : String) (t now n : ℕ) (calls : List (String × ℕ)) (windows : Windows)
    (later : (after : Windows)
      → count (in_hour t) (window account after) ≤ n
      → count (in_hour_of account t) (allowed_reports n calls after)
          + count (in_hour t) (window account after)
        ≤ n)
    (before : now ≤ t) (room : count (in_hour t) (window account windows) ≤ n) where
  own_call :
      who ≡ account
      → count (in_hour_of account t) (allowed_reports n ((who, now) ∷ calls) windows)
          + count (in_hour t) (window account windows)
        ≤ n
  own_call same =
      let f = kept who now windows in
      let kept_count : count (in_hour t) f ≡ count (in_hour t) (window account windows) =
        subst (λ x. count (in_hour t) f ≡ count (in_hour t) (window x windows)) same
          (count-filter t now (window who windows) before) in
      let window_is : (v : List ℕ) → window account (insert who v windows) ≡ v =
        λ v. subst (λ x. window x (insert who v windows) ≡ v) same (window-insert who v windows) in
      elim (Bool-cases (leb n (length f))) [
        | inl full ↦
            let rest =
              later (insert who f windows) (rw (window_is f) (omega (arith, kept_count, room))) in
            rw (refused_call n who now calls windows full)
              (omega (arith, rest, kept_count, ap (count (in_hour t)) (window_is f)))
        | inr free ↦
            let more = f ++ now ∷ [] in
            let fits : count (in_hour t) more ≤ n =
              ground (
                arith,
                free,
                count-append (in_hour t) f (now ∷ []),
                count-length-le (in_hour t) f,
              ) in
            let rest = later (insert who more windows) (rw (window_is more) fits) in
            rw (accepted_call n who now calls windows free) (
              ground (
                arith,
                rest,
                kept_count,
                count-append (in_hour t) f (now ∷ []),
                ap (count (in_hour t)) (window_is more),
                eq_iff who account,
                same,
              ))
      ]

  other_call :
      (who == account) ≡ false
      → count (in_hour_of account t) (allowed_reports n ((who, now) ∷ calls) windows)
          + count (in_hour t) (window account windows)
        ≤ n
  other_call other =
      let f = kept who now windows in
      let window_is : (v : List ℕ)
          → window account (insert who v windows) ≡ window account windows =
        λ v. window-insert_other account who v windows other in
      elim (Bool-cases (leb n (length f))) [
        | inl full ↦
            let rest = later (insert who f windows) (rw (window_is f) room) in
            rw (refused_call n who now calls windows full)
              (omega (arith, rest, ap (count (in_hour t)) (window_is f)))
        | inr free ↦
            let more = f ++ now ∷ [] in
            let rest = later (insert who more windows) (rw (window_is more) room) in
            rw (accepted_call n who now calls windows free)
              (ground (arith, rest, other, ap (count (in_hour t)) (window_is more)))
      ]

no_calls : (n : ℕ) (windows : Windows) → allowed_reports n [] windows ≡ []
unfolding allowed_reports
no_calls n windows = refl

allowed_le :
    (account : String) (t s n : ℕ) (calls : List (String × ℕ)) (windows : Windows)
    → is_ordered s calls ≡ true
    → count (in_hour t) (window account windows) ≤ n
    → count (in_hour_of account t) (allowed_reports n calls windows)
        + count (in_hour t) (window account windows)
      ≤ n
allowed_le account t s n [] windows k h = rw (no_calls n windows) (omega (arith, h))
allowed_le account t s n ((who, now) ∷ calls) windows k h = elim (Bool-cases (ltb t now)) [
  | inl past ↦ omega (
    arith,
    h,
    late account t now n ((who, now) ∷ calls) windows (ground (arith, past)) (ground (arith, k)),
  )
  | inr reached ↦ elim (Bool-cases (who == account)) [
    | inl same ↦
        own_call account who t now n calls windows
          (λ after. allowed_le account t now n calls after (ground (arith, k)))
          (ground (arith, reached)) h ((eq_iff who account).0 same)
    | inr other ↦
        other_call account who t now n calls windows
          (λ after. allowed_le account t now n calls after (ground (arith, k)))
          (ground (arith, reached)) h other
  ]
]

-- For calls in the order of their instants, from a process without windows, at most the limit of
-- reports of one account is allowed in the hour that ends at any instant.
pub allowed_reports_le :
    (account : String) (t n : ℕ) (calls : List (String × ℕ))
    → is_ordered 0 calls ≡ true
    → count (in_hour_of account t) (allowed_reports n calls []) ≤ n
allowed_reports_le account t n calls k =
    omega (arith, allowed_le account t 0 n calls [] k (omega arith))
