-- ===== src/Http/Tests.antt =====
-- A call that is rate limited twice and then answered.
use dayseam.Prelude.{ℕ, zero, suc, ◌≤◌, ◌≡◌, arith, max, false, true, none, some}
use dayseam.Http.{RetryPolicy, World, Answer, response, Ending, send}
use dayseam.Http.Budget.{Explained, send_lem}

abbrev policy : RetryPolicy
policy = record { max_attempts = 5; base_backoff = 500; max_backoff = 30000 }

abbrev answers : ℕ → Answer
answers zero = response (record { status = 429; retry_after = some 1000 })
answers (suc zero) = response (record { status = 503; retry_after = none })
answers _ = response (record { status = 200; retry_after = none })

abbrev world : World
world = record {
  is_cloneable = true;
  cancelled_before = λ attempt. false;
  answer = answers;
  cancelled_asleep = λ attempt. false;
  jitter = λ attempt wait. wait;
}

send_lem_example :
    (e : Ending) × (send policy world ≡ some e)
    × (e.sends ≤ max 1 policy.max_attempts)
    × Explained policy e.sends e.outcome
send_lem_example = send_lem policy world (omega arith)
