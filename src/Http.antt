-- ===== src/Http.antt =====
-- crates/connectors-sdk/src/http.rs: the client that retries a request. A duration is a number of
-- milliseconds. What the server, the transport and the cancellation token do in the round of each
-- attempt is an argument (`World`), and the jitter of a wait too, which is random. A wait that is
-- progressed and logged is a pair of the attempt and the wait.
mod Budget
mod Tests
use dayseam.Prelude.{
  ℕ, zero, suc, ◌+◌, ◌*◌, ◌/◌, ◌^◌, min, Bool, true, false, not, ◌&&◌, ◌||◌, List, [], ◌∷◌, Option,
  none, some, nat_eqb, ltb, leb, if◌then◌else◌,
}
use dayseam.Prelude.Results.{Result, ok, err}

-- `jitter_frac` is read by the jitter alone.
pub record RetryPolicy : Type 0 where
  pub max_attempts : ℕ
  pub base_backoff : ℕ
  pub max_backoff : ℕ

-- The classes of `classify_transport_error`.
pub data TransportClass : Type 0 where
  timeout dns tls connect other : TransportClass

pub record TransportError : Type 0 where
  pub is_timeout : Bool
  pub is_connect : Bool
  pub is_request : Bool
  -- What `classify_chain` says of the chain of its sources.
  pub chain : TransportClass

pub record Response : Type 0 where
  pub status : ℕ
  pub retry_after : Option ℕ

pub data Answer : Type 0 where
  response : Response → Answer
  failure : TransportError → Answer
  cancelled_in_flight : Answer

pub record World : Type 0 where
  pub is_cloneable : Bool
  pub cancelled_before : ℕ → Bool
  pub answer : ℕ → Answer
  pub cancelled_asleep : ℕ → Bool
  pub jitter : ℕ → ℕ → ℕ

pub data NetworkCode : Type 0 where
  retry_budget_exhausted : NetworkCode
  transport : TransportClass → NetworkCode

pub data SendError : Type 0 where
  cancelled uncloneable_request : SendError
  rate_limited : ℕ → SendError
  network : NetworkCode → SendError

pub is_success : ℕ → Bool
is_success status = leb 200 status && ltb status 300

pub is_retriable_status : ℕ → Bool
is_retriable_status status =
    nat_eqb status 429
    || nat_eqb status 500
    || nat_eqb status 502
    || nat_eqb status 503
    || nat_eqb status 504

pub is_retriable_transport : TransportError → Bool
is_retriable_transport e = e.is_timeout || e.is_connect || e.is_request

pub classify_transport_error : TransportError → TransportClass
classify_transport_error e =
    if e.is_timeout then timeout else if not e.is_connect then other else e.chain

abbrev pub max_retry_after : ℕ
max_retry_after = 5 * 60 * 1000

abbrev pub u32_max : ℕ
u32_max = 4294967295

-- A product of `Duration`s that saturates is above any `max_backoff`.
pub compute_backoff : RetryPolicy → (ℕ → ℕ) → ℕ → Option ℕ → ℕ
compute_backoff p apply_jitter attempt (some retry_after) = min retry_after max_retry_after
compute_backoff p apply_jitter attempt none =
    if nat_eqb p.base_backoff 0
    then 0
    else apply_jitter (min (p.base_backoff * 2 ^ min attempt 16) p.max_backoff)

-- How a call ends: the requests that were sent, the waits between them, and the outcome.
pub record Ending : Type 0 where
  pub sends : ℕ
  pub waits : List (ℕ × ℕ)
  pub outcome : Result SendError Response

abbrev pub ends : ℕ → Result SendError Response → Option Ending
ends sends outcome = some (record { sends = sends; waits = []; outcome = outcome })

abbrev pub wait_first : ℕ × ℕ → Option Ending → Option Ending
wait_first wait none = none
wait_first wait (some e) = some (record e { waits = wait ∷ e.waits })

-- `sleep_cancellable`, and the next round if it is not cancelled.
abbrev pub sleep_then : World → ℕ → ℕ → Option Ending → Option Ending
sleep_then w attempt wait rest =
    if w.cancelled_asleep attempt
    then wait_first (attempt, wait) (ends attempt (err cancelled))
    else wait_first (attempt, wait) rest

abbrev pub seconds : Option ℕ → ℕ
seconds none = 0
seconds (some ms) = ms / 1000

-- What follows an answer; `attempt` counts it already, and `rest` is the next round.
pub settle : RetryPolicy → World → ℕ → Option ℕ → Answer → Option Ending → Option Ending
settle p w attempt last_status cancelled_in_flight rest = ends attempt (err cancelled)
settle p w attempt last_status (response res) rest =
    if is_success res.status
    then ends attempt (ok res)
    else if is_retriable_status res.status && ltb attempt p.max_attempts
    then sleep_then w attempt (compute_backoff p (w.jitter attempt) attempt res.retry_after) rest
    else if nat_eqb res.status 429
    then ends attempt (err (rate_limited (seconds res.retry_after)))
    else if is_retriable_status res.status
    then ends attempt (err (network retry_budget_exhausted))
    else ends attempt (ok res)
settle p w attempt last_status (failure e) rest =
    if is_retriable_transport e && ltb attempt p.max_attempts
    then sleep_then w attempt (compute_backoff p (w.jitter attempt) attempt none) rest
    else ends attempt (err (network (code last_status)))
  where
    code : Option ℕ → NetworkCode
    code none = transport (classify_transport_error e)
    code (some status) = retry_budget_exhausted

abbrev pub last_of : Option ℕ → Answer → Option ℕ
last_of last_status (response res) = some res.status
last_of last_status (failure e) = last_status
last_of last_status cancelled_in_flight = last_status

-- The loop, by rounds; `none` when they run out.
pub rounds : ℕ → RetryPolicy → World → ℕ → Option ℕ → Option Ending
rounds zero p w attempt last_status = none
rounds (suc n) p w attempt last_status =
    let sent = min (attempt + 1) u32_max in
    let answer = w.answer attempt in
    let last = last_of last_status answer in
    let rest = rounds n p w sent last in
    if w.cancelled_before attempt
    then ends attempt (err cancelled)
    else if not w.is_cloneable
    then ends attempt (err uncloneable_request)
    else settle p w sent last answer rest

pub send : RetryPolicy → World → Option Ending
send p w = rounds (suc p.max_attempts) p w 0 none
