-- ===== src/AlarmPublisher/Budgets.antt =====
-- The reservations that stand against a `Budget` of src/alarm_worker.cpp.
use redis_pvxs_ioc.Prelude.{
  ℕ, ◌+◌, ◌≤◌, ◌≡◌, refl, List, [], ◌∷◌, ◌++◌, arith, ◌<◌, word, add64_exact, sub64_exact,
}
use redis_pvxs_ioc.Prelude.Results.{ok}
use redis_pvxs_ioc.AlarmPublisher.{Budget, new_budget, acquire, release}

unfoldable pub total : List ℕ → ℕ
total [] = 0
total (bytes ∷ rest) = bytes + total rest

-- Any order of constructing reservations and of destroying those that stand.
pub data Holds (limit : ℕ) : Budget → List ℕ → Type 0 where
  none_yet : Holds limit (new_budget limit) []
  reserves :
      {before after : Budget} {held : List ℕ} (bytes : ℕ)
      → Holds limit before held
      → acquire bytes before ≡ ok after
      → Holds limit after (bytes ∷ held)
  frees :
      {before : Budget} (bytes : ℕ) (first rest : List ℕ)
      → Holds limit before (first ++ bytes ∷ rest)
      → Holds limit (release bytes before) (first ++ rest)

pub record Accounts (limit : ℕ) (budget : Budget) (held : List ℕ) : Type 0 where
  pub same_limit : budget.limit ≡ limit
  pub exact : budget.used ≡ total held
  pub within : budget.used ≤ limit
  pub peaked : budget.used ≤ budget.peak
  pub peak_within : budget.peak ≤ limit

total-remove :
    (bytes : ℕ) (first rest : List ℕ)
    → total (first ++ bytes ∷ rest) ≡ bytes + total (first ++ rest)
unfolding total
total-remove bytes [] rest = refl
total-remove bytes (x ∷ first) rest = ground (arith, total-remove bytes first rest)

-- In any history of reservations the used bytes are exactly those of the reservations that stand, and
-- neither they nor their peak pass the limit.
pub Holds-Accounts :
    (limit : ℕ) (budget : Budget) (held : List ℕ)
    → limit < word
    → Holds limit budget held
    → Accounts limit budget held
unfolding acquire release total
Holds-Accounts limit budget held small none_yet = ground arith
Holds-Accounts limit after held small (reserves {before} bytes h e) =
    let v = Holds-Accounts limit before _ small h in
    ground (
      arith,
      add64_exact before.used bytes,
      v.same_limit,
      v.exact,
      v.within,
      v.peaked,
      v.peak_within,
    )
Holds-Accounts limit after held small (frees {before} bytes first rest h) =
    let v = Holds-Accounts limit before (first ++ bytes ∷ rest) small h in
    ground (
      arith,
      sub64_exact before.used bytes,
      total-remove bytes first rest,
      v.same_limit,
      v.exact,
      v.within,
      v.peaked,
      v.peak_within,
    )
