-- ===== src/Commons/Utils/Counters.antt =====
-- concurrentCounter.go and generators.go of backend/commons/src/sharedUtils. Each call holds the lock
-- (or is atomic), so that any interleaving of calls is a sequence of them. `uint32` wraps around.
use rio_t_preprocessors.Base.{
  ℕ, zero, suc, ◌+◌, ◌-◌, ◌*◌, ◌%◌, ◌^◌, ◌<◌, ◌≤◌, List, [], ◌∷◌, ◌≡◌, arith,
}

pub data Call : Type 0 where
  increment decrement : Call

-- `c.count++` and `c.count--` on a `uint32`.
unfoldable pub call : Call → ℕ → ℕ
call increment count = (count + 1) % 2 ^ 32
call decrement count = (count + (2 ^ 32 - 1)) % 2 ^ 32

unfoldable pub run_calls : List Call → ℕ → ℕ
unfolding call
run_calls [] count = count
run_calls (c ∷ rest) count = run_calls rest (call c count)

abbrev increments : List Call → ℕ
increments [] = 0
increments (increment ∷ rest) = suc (increments rest)
increments (decrement ∷ rest) = increments rest

abbrev decrements : List Call → ℕ
decrements [] = 0
decrements (increment ∷ rest) = decrements rest
decrements (decrement ∷ rest) = suc (decrements rest)

-- `SequentialNumberGenerator`: the numbers that the next calls return.
unfoldable pub next_numbers : ℕ → ℕ → List ℕ
next_numbers counter zero = []
next_numbers counter (suc calls) =
    let next = (counter + 1) % 2 ^ 32 in next ∷ next_numbers next calls

run_calls-mod :
    (calls : List Call) (count : ℕ)
    → run_calls calls count % 2 ^ 32
      ≡ (count + increments calls + (2 ^ 32 - 1) * decrements calls) % 2 ^ 32
unfolding run_calls call
run_calls-mod [] count = omega arith
run_calls-mod (increment ∷ rest) count = omega (arith, run_calls-mod rest ((count + 1) % 2 ^ 32))
run_calls-mod (decrement ∷ rest) count =
    omega (arith, run_calls-mod rest ((count + (2 ^ 32 - 1)) % 2 ^ 32))

run_calls-bound : (calls : List Call) (count : ℕ) → count < 2 ^ 32 → run_calls calls count < 2 ^ 32
unfolding run_calls call
run_calls-bound [] count h = h
run_calls-bound (increment ∷ rest) count h =
    run_calls-bound rest ((count + 1) % 2 ^ 32) (omega arith)
run_calls-bound (decrement ∷ rest) count h =
    run_calls-bound rest ((count + (2 ^ 32 - 1)) % 2 ^ 32) (omega arith)

-- In whatever order the calls of several goroutines come, the counter ends at its start plus the
-- increments minus the decrements, modulo 2 ^ 32: exactly there, if no wrap is due.
pub run_calls_lem :
    (calls : List Call) (count : ℕ)
    → count < 2 ^ 32
    → decrements calls ≤ count + increments calls
    → run_calls calls count ≡ (count + increments calls - decrements calls) % 2 ^ 32
run_calls_lem calls count h k =
    omega (arith, run_calls-mod calls count, run_calls-bound calls count h)
