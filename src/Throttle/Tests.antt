-- ===== src/Throttle/Tests.antt =====
-- Runs of the throttle of src/security_throttle.py, and its theorems at concrete inputs.
use free_lunch.Prelude.{◌≤◌, String, ◌≡◌, ◌↔◌, refl, List, [], ◌∷◌, arith}
use free_lunch.Throttle.{FailureThrottle, init, retry_after, fail, reset}
use free_lunch.Throttle.Bounds.{
  IsValid, init-IsValid, Call, check, failure, success, run, run-IsValid,
}
use free_lunch.Throttle.Lockout.{fails, blocked_iff_limit_reached}

abbrev plain : String → String
plain k = k

abbrev calls : List Call
calls =
    failure 0 "a" ∷ failure 5 "b" ∷ check 7 "a" ∷ failure 9 "c" ∷ success "b" ∷ failure 11 "c" ∷ []

run-IsValid_example : IsValid (run plain (init 2 300 2) calls)
run-IsValid_example = run-IsValid plain (init 2 300 2) calls (init-IsValid 2 300 2)

-- The third key evicts the one that was touched longest ago.
run_evicts :
    (run plain (init 2 300 2) calls).entries
    ≡ ("a", record { count = 1; started = 0 }) ∷ ("c", record { count = 2; started = 9 }) ∷ []
unfolding run init retry_after fail reset
run_evicts = refl

blocked_iff_limit_reached_example :
    (1 ≤ (retry_after plain (fails plain (init 2 300 8) "a" (5 ∷ 6 ∷ [])) 7 "a").0) ↔ (◌≤◌ 2 2)
unfolding init
blocked_iff_limit_reached_example =
    blocked_iff_limit_reached plain (init 2 300 8) "a" 5 (6 ∷ []) 7 (init-IsValid 2 300 8) refl
      (omega arith) (omega arith)

abbrev failed_once : FailureThrottle
failed_once = fail plain (init 1 300 8) 5 "a"
