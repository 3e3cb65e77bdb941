-- ===== src/AlarmPublisher/Tests.antt =====
-- Runs of `StoredState::encode` and `Budget` of src/alarm_worker.cpp, and the theorems at them.
use redis_pvxs_ioc.Prelude.{
  ℕ, zero, suc, ◌≤◌, ◌<◌, ◌≡◌, refl, true, false, List, [], ◌∷◌, ◌++◌, arith, length, take, add64,
}
use redis_pvxs_ioc.Prelude.Int.{pos}
use redis_pvxs_ioc.AlarmPublisher.{Budget, message_size, dots, cut, encode, acquire, release}
use redis_pvxs_ioc.AlarmPublisher.Encoding.{IsCut, encode_lem}
use redis_pvxs_ioc.AlarmPublisher.Budgets.{
  Holds, none_yet, reserves, frees, Accounts, Holds-Accounts,
}

-- The euro sign takes three bytes; a cut inside it moves before it.
cut_before_character : cut 3 (65 ∷ 226 ∷ 130 ∷ 172 ∷ 66 ∷ []) ≡ 1
unfolding cut
cut_before_character = refl

dashes : ℕ → List ℕ
dashes zero = []
dashes (suc n) = b'-' ∷ dashes n

abbrev long : List ℕ
long = dashes 600

encode_lem_example :
    (length long ≤ message_size
      → encode (pos 2) (pos 3) long
        ≡ (record { severity = pos 2; status = pos 3; message = long }, false))
    × (message_size < length long
        → (kept : ℕ) × IsCut 509 long kept
          × (encode (pos 2) (pos 3) long ≡ (
            record { severity = pos 2; status = pos 3; message = take kept long ++ dots },
            true,
          )))
encode_lem_example = encode_lem (pos 2) (pos 3) long

abbrev budget : ℕ → ℕ → Budget
budget used peak = record { limit = 100; used = used; peak = peak }

-- Two reservations, of which the first is given back.
history : Holds 100 (release 60 (budget 90 90)) (30 ∷ [])
unfolding acquire add64
history = frees 60 (30 ∷ []) [] (reserves 30 (reserves 60 none_yet refl) refl)

Holds-Accounts_example : Accounts 100 (release 60 (budget 90 90)) (30 ∷ [])
Holds-Accounts_example =
    Holds-Accounts 100 (release 60 (budget 90 90)) (30 ∷ []) (omega arith) history
