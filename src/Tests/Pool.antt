-- ===== src/Tests/Pool.antt =====
-- The theorems on `InsertIntoPool` for a pool of three entries.
use ccann.Prelude.{ℕ, zero, suc, ◌≡◌, refl, true, false, List, [], ◌∷◌, arith}
use ccann.Floats.{hundredths}
use ccann.Neighbor.{Neighbor, insert_into_pool}
use ccann.Neighbor.Search.{IsSorted}
use ccann.Neighbor.Pool.{
  Inserted, insert_into_pool-Inserted, insert_into_pool-IsSorted, insert_into_pool-twin,
}

abbrev candidate : ℕ → ℕ → Neighbor hundredths
candidate id distance = record { id = id; distance = distance; flag = true; visited = false }

abbrev three : List (Neighbor hundredths)
three = candidate 1 100 ∷ candidate 2 250 ∷ candidate 3 300 ∷ []

three-IsSorted : (nn : Neighbor hundredths) → IsSorted hundredths three nn
three-IsSorted nn zero zero h k = omega arith
three-IsSorted nn zero (suc zero) h k = omega arith
three-IsSorted nn zero (suc (suc zero)) h k = omega arith
three-IsSorted nn (suc zero) (suc zero) h k = omega arith
three-IsSorted nn (suc zero) (suc (suc zero)) h k = omega arith
three-IsSorted nn (suc (suc zero)) (suc (suc zero)) h k = omega arith
three-IsSorted nn i (suc (suc (suc j))) h k = absurd (omega arith)
three-IsSorted nn (suc i) zero h k = absurd (omega arith)
three-IsSorted nn (suc (suc i)) (suc zero) h k = absurd (omega arith)
three-IsSorted nn (suc (suc (suc i))) (suc (suc zero)) h k = absurd (omega arith)

insert_into_pool-Inserted_example :
    Inserted hundredths three
      (candidate 4 260)
      (insert_into_pool hundredths three (candidate 4 260))
insert_into_pool-Inserted_example =
    insert_into_pool-Inserted hundredths three (candidate 4 260) (omega arith)
      (three-IsSorted (candidate 4 260))

insert_into_pool-IsSorted_example :
    IsSorted hundredths (insert_into_pool hundredths three (candidate 4 260)).1 (candidate 4 260)
insert_into_pool-IsSorted_example =
    insert_into_pool-IsSorted hundredths three (candidate 4 260) (omega arith)
      (three-IsSorted (candidate 4 260))

insert_into_pool-twin_example : insert_into_pool hundredths three (candidate 2 250) ≡ (4, three)
insert_into_pool-twin_example =
    insert_into_pool-twin hundredths three (candidate 2 250) (three-IsSorted (candidate 2 250)) 1
      (omega arith) refl refl
