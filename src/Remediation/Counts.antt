-- ===== src/Remediation/Counts.antt =====
-- The counts of results, one by one and together.
use golden_retriever.Prelude.{
  ℕ, zero, suc, ◌+◌, ◌-◌, ◌≤◌, String, ◌≡◌, refl, ap, Bool, true, false, not, ◌||◌, Option, none,
  some, List, [], ◌∷◌, ◌++◌, arith, is_nil, length, length-append, take, drop, max, if_cases,
  if◌then◌else◌,
}
use golden_retriever.Models.Sync.{SyncResult}
use golden_retriever.Remediation.{
  Gathered, completed, threw, cut_off, is_succeeded, status_value, Totals, add_errors, tally,
  tally_all,
}

-- Of all results: a cancellation, the successes, and the errors.
abbrev pub is_cut : Gathered → Bool
is_cut cut_off = true
is_cut _ = false

abbrev pub has_errors : SyncResult → Bool
has_errors result = not (is_succeeded result.status) || not (is_nil result.errors)

abbrev pub any_cut : List Gathered → Bool
any_cut [] = false
any_cut (r ∷ rs) = is_cut r || any_cut rs

abbrev pub success : Gathered → ℕ
success (completed result) = if has_errors result then 0 else 1
success _ = 0

abbrev pub errors : Gathered → ℕ
errors (completed result) = if has_errors result then max 1 (length result.errors) else 0
errors (threw name) = 1
errors cut_off = 0

abbrev pub successes : List Gathered → ℕ
successes [] = 0
successes (r ∷ rs) = success r + successes rs

abbrev pub all_errors : List Gathered → ℕ
all_errors [] = 0
all_errors (r ∷ rs) = errors r + all_errors rs

-- The totals after all the results, from those before them.
abbrev pub Counted : List Gathered → ℕ → ℕ → Totals → Type 0
Counted rs done failed t' =
    (any_cut rs ≡ false)
    × (t'.completed_count ≡ done + successes rs)
    × (t'.error_count ≡ failed + all_errors rs)
    × (length t'.error_sample ≤ 100)

abbrev pub Tallied : List Gathered → Totals → Option Totals → Type 0
Tallied rs t none = any_cut rs ≡ true
Tallied rs t (some t') = Counted rs t.completed_count t.error_count t'

length-take_le : (n : ℕ) (xs : List String) → length (take n xs) ≤ n
length-take_le zero xs = omega arith
length-take_le (suc n) [] = omega arith
length-take_le (suc n) (x ∷ xs) = omega (arith, length-take_le n xs)

add_errors_bound :
    (es : List String) (t : Totals)
    → length t.error_sample ≤ 100
    → length (add_errors es t).error_sample ≤ 100
add_errors_bound es t h = omega (
  arith,
  h,
  length-append t.error_sample (take (100 - length t.error_sample) es),
  length-take_le (100 - length t.error_sample) es,
)

errors_of :
    (result : SyncResult)
    → has_errors result ≡ true
    → errors (completed result)
      ≡ length (if is_nil result.errors then status_value result.status ∷ [] else result.errors)
errors_of result bad = at result.errors refl
  where
    at :
        (es : List String)
        → result.errors ≡ es
        → errors (completed result)
          ≡ length (if is_nil result.errors then status_value result.status ∷ [] else result.errors)
    at [] e = ground (arith, e, bad)
    at (x ∷ es) e = ground (arith, e, bad)

tally-Tallied :
    (r : Gathered) (t : Totals) → length t.error_sample ≤ 100 → Tallied (r ∷ []) t (tally r t)
unfolding tally
tally-Tallied cut_off t h = refl
tally-Tallied (threw name) t h = (refl, omega arith, omega arith, add_errors_bound (name ∷ []) t h)
tally-Tallied (completed result) t h =
    if_cases (Tallied (completed result ∷ []) t) (has_errors result) _ _
      (λ bad.
        let none_done : success (completed result) ≡ 0 = ground (arith, bad) in
        let es : List String =
          if is_nil result.errors then status_value result.status ∷ [] else result.errors in
        let all_bad : errors (completed result) ≡ length es = errors_of result bad in
        (refl, omega (arith, none_done), omega (arith, all_bad), add_errors_bound es t h))
      (λ good.
        let one_done : success (completed result) ≡ 1 = ground (arith, good) in
        let none_bad : errors (completed result) ≡ 0 = ground (arith, good) in
        (refl, omega (arith, one_done), omega (arith, none_bad), h))

pub tally_all-Tallied :
    (rs : List Gathered) (t : Totals) → length t.error_sample ≤ 100 → Tallied rs t (tally_all rs t)
unfolding tally_all
tally_all-Tallied [] t h = (refl, omega arith, omega arith, h)
tally_all-Tallied (r ∷ rs) t h = from (tally_all-Tallied rs) (tally r t) (tally-Tallied r t h)
  where
    onwards :
        (t' : Totals)
        → Counted (r ∷ []) t.completed_count t.error_count t'
        → (x : Option Totals) → Tallied rs t' x
        → Tallied (r ∷ rs) t x
    onwards t' (uncut, done, failed, bounded) none cut = ground (arith, cut)
    onwards t' (uncut, done, failed, bounded) (some t'') (uncut', done', failed', bounded') = (
      ground (arith, uncut, uncut'),
      omega (arith, done, done'),
      omega (arith, failed, failed'),
      bounded',
    )

    from :
        ((t' : Totals) → length t'.error_sample ≤ 100 → Tallied rs t' (tally_all rs t'))
        → (x : Option Totals) → Tallied (r ∷ []) t x
        → Tallied (r ∷ rs) t (elim x [ none ↦ none | some t' ↦ tally_all rs t' ])
    from rest none cut = ground (arith, cut)
    from rest (some t') one = onwards t' one (tally_all rs t') (rest t' one.3)

pub any_cut-append : (xs ys : List Gathered) → any_cut (xs ++ ys) ≡ (any_cut xs || any_cut ys)
any_cut-append [] ys = refl
any_cut-append (x ∷ xs) ys = ground (arith, any_cut-append xs ys)

pub successes-append : (xs ys : List Gathered) → successes (xs ++ ys) ≡ successes xs + successes ys
successes-append [] ys = omega arith
successes-append (x ∷ xs) ys = omega (arith, successes-append xs ys)

pub all_errors-append :
    (xs ys : List Gathered) → all_errors (xs ++ ys) ≡ all_errors xs + all_errors ys
all_errors-append [] ys = omega arith
all_errors-append (x ∷ xs) ys = omega (arith, all_errors-append xs ys)

pub take-drop : (n : ℕ) (xs : List String) → take n xs ++ drop n xs ≡ xs
take-drop zero xs = refl
take-drop (suc n) [] = refl
take-drop (suc n) (x ∷ xs) = ap (◌∷◌ x) (take-drop n xs)
