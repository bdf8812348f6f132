-- ===== src/Ui/Backoff.antt =====
-- internal/ui/tabs.go, backoff: the delay before an automatic reconnect. Durations are in
-- nanoseconds, as in Go.
use tui_ssh_client.Prelude.{ℕ, zero, suc, refl, ◌-◌, ◌*◌, ◌^◌, ◌≡◌, min, ltb, arith, if◌then◌else◌}

abbrev pub second : ℕ
second = 1_000_000_000

abbrev pub max_backoff : ℕ
max_backoff = 30 * second

-- The attempt is a count, so the test `attempt < 1` is a test for 0.
unfoldable pub backoff : ℕ → ℕ
backoff attempt =
    let low = if ltb attempt 1 then 1 else attempt in
    let n = if ltb 6 low then 6 else low in min (second * 2 ^ (n - 1)) max_backoff

-- The documented schedule, in seconds: 1, 2, 4, 8, 16, then 30 forever.
abbrev schedule : ℕ → ℕ
schedule zero = 1
schedule (suc zero) = 1
schedule (suc (suc zero)) = 2
schedule (suc (suc (suc zero))) = 4
schedule (suc (suc (suc (suc zero)))) = 8
schedule (suc (suc (suc (suc (suc zero))))) = 16
schedule (suc (suc (suc (suc (suc (suc n)))))) = 30

-- Every attempt waits what the schedule says, an attempt number below 1 as long as the first.
backoff-schedule : (n : ℕ) → backoff n ≡ schedule n * second
unfolding backoff
backoff-schedule zero = refl
backoff-schedule (suc zero) = refl
backoff-schedule (suc (suc zero)) = refl
backoff-schedule (suc (suc (suc zero))) = refl
backoff-schedule (suc (suc (suc (suc zero)))) = refl
backoff-schedule (suc (suc (suc (suc (suc zero))))) = refl
backoff-schedule (suc (suc (suc (suc (suc (suc zero)))))) = refl
backoff-schedule (suc (suc (suc (suc (suc (suc (suc n))))))) = ground arith
