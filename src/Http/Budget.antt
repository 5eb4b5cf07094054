-- ===== src/Http/Budget.antt =====
-- The bound on the attempts, and which endings go with it.
use dayseam.Prelude.{
  ℕ, zero, suc, ◌+◌, ◌≤◌, ◌<◌, ◌≡◌, refl, arith, min, max, Bool, true, false, not, ◌&&◌, Option,
  none, some, nat_eqb, ltb, if◌then◌else◌, Bool-cases, inl, inr, ltb→lt,
}
use mathlib.Core.Option.{none-ne-some, some-injective}
use dayseam.Prelude.Results.{Result, ok, err}
use dayseam.Http.{
  RetryPolicy, World, Answer, response, failure, cancelled_in_flight, Ending, SendError, Response,
  rate_limited, is_success, is_retriable_status, is_retriable_transport, settle, rounds, send,
  u32_max, ends, sleep_then, wait_first,
}

-- A response that the caller gets is none to retry; the budget is spent where it is said to be.
abbrev pub Explained : RetryPolicy → ℕ → Result SendError Response → Type 0
Explained p sends (ok res) = is_retriable_status res.status ≡ false
Explained p sends (err (rate_limited secs)) = p.max_attempts ≤ sends
Explained p sends (err _) = Unit

abbrev pub IsWithin : RetryPolicy → Option Ending → Type 0
IsWithin p run =
    (e : Ending) × (run ≡ some e) × (e.sends ≤ max 1 p.max_attempts) × Explained p e.sends e.outcome

success_not_retriable : (status : ℕ) → is_success status ≡ true → is_retriable_status status ≡ false
unfolding is_success is_retriable_status
success_not_retriable status fine = ground arith

not_429 : (status : ℕ) → is_retriable_status status ≡ false → nat_eqb status 429 ≡ false
unfolding is_retriable_status
not_429 status final = ground arith

wait_first-IsWithin :
    (p : RetryPolicy) (wait : ℕ × ℕ) (run : Option Ending)
    → IsWithin p run
    → IsWithin p (wait_first wait run)
wait_first-IsWithin p wait none (e, is, bound, explained) = absurd (none-ne-some e is)
wait_first-IsWithin p wait (some r) (e, is, bound, explained) =
    let same = some-injective r e is in (_, refl, rw same bound, rw same explained)

ends-IsWithin :
    (p : RetryPolicy) (sends : ℕ) (outcome : Result SendError Response)
    → sends ≤ max 1 p.max_attempts
    → Explained p sends outcome
    → IsWithin p (ends sends outcome)
ends-IsWithin p sends outcome bound explained = (_, refl, bound, explained)

sleep_then-IsWithin :
    (p : RetryPolicy) (w : World) (sent wait : ℕ) (rest : Option Ending)
    → sent ≤ max 1 p.max_attempts
    → IsWithin p rest
    → IsWithin p (sleep_then w sent wait rest)
sleep_then-IsWithin p w sent wait rest bound within = elim (Bool-cases (w.cancelled_asleep sent)) [
  | inl woken ↦ rw woken (_, refl, bound, tt)
  | inr slept ↦ rw slept (wait_first-IsWithin p (sent, wait) rest within)
]

settle-IsWithin :
    (p : RetryPolicy) (w : World) (sent : ℕ) (last : Option ℕ) (answer : Answer)
    (rest : Option Ending)
    → sent ≤ max 1 p.max_attempts
    → (ltb sent p.max_attempts ≡ true → IsWithin p rest)
    → IsWithin p (settle p w sent last answer rest)
unfolding settle
settle-IsWithin p w sent last cancelled_in_flight rest bound next = (_, refl, bound, tt)
settle-IsWithin p w sent last (response res) rest bound next =
    elim (Bool-cases (is_success res.status)) [
      | inl fine ↦ rw fine (_, refl, bound, success_not_retriable res.status fine)
      | inr bad ↦ elim (Bool-cases (is_retriable_status res.status)) [
        | inr final ↦ rw (bad, final, not_429 res.status final) (_, refl, bound, final)
        | inl again ↦ elim (Bool-cases (ltb sent p.max_attempts)) [
          | inl left ↦ rw (bad, again, left) (sleep_then-IsWithin p w sent _ rest bound (next left))
          | inr spent ↦ elim (Bool-cases (nat_eqb res.status 429)) [
            | inl limited ↦ rw (bad, again, spent, limited) (_, refl, bound, ground arith)
            | inr down ↦ rw (bad, again, spent, down) (_, refl, bound, tt)
          ]
        ]
      ]
    ]
settle-IsWithin p w sent last (failure e) rest bound next =
    elim (Bool-cases (is_retriable_transport e && ltb sent p.max_attempts)) [
      | inl again ↦ rw again (sleep_then-IsWithin p w sent _ rest bound (next (ground arith)))
      | inr over ↦ rw over (_, refl, bound, tt)
    ]

either-IsWithin :
    (p : RetryPolicy) (b : Bool) {x y : Option Ending}
    → IsWithin p x
    → IsWithin p y
    → IsWithin p (if b then x else y)
either-IsWithin p true hx hy = hx
either-IsWithin p false hx hy = hy

round-IsWithin :
    (p : RetryPolicy) (w : World) (n attempt : ℕ) (last : Option ℕ)
    → attempt < max 1 p.max_attempts
    → ((status : Option ℕ)
        → ltb (min (attempt + 1) u32_max) p.max_attempts ≡ true
        → IsWithin p (rounds n p w (min (attempt + 1) u32_max) status))
    → IsWithin p (rounds (suc n) p w attempt last)
unfolding rounds
round-IsWithin p w n attempt last below next =
    either-IsWithin p (w.cancelled_before attempt) (_, refl, omega arith, tt)
      (either-IsWithin p (not w.is_cloneable) (_, refl, omega arith, tt)
        (settle-IsWithin p w _ _ (w.answer attempt) _ (omega (arith, below)) (next _)))

rounds-IsWithin :
    (n : ℕ) (p : RetryPolicy) (w : World) (attempt : ℕ) (last : Option ℕ)
    → p.max_attempts ≤ u32_max
    → n + attempt ≡ p.max_attempts
    → attempt < max 1 p.max_attempts
    → IsWithin p (rounds (suc n) p w attempt last)
rounds-IsWithin zero p w attempt last fits here below =
    round-IsWithin p w zero attempt last below
      (λ status left. absurd (ground (arith, left, here, fits)))
rounds-IsWithin (suc n) p w attempt last fits here below =
    round-IsWithin p w (suc n) attempt last below (λ status left.
      let sent_below = ltb→lt _ _ left in
      rounds-IsWithin n p w (min (attempt + 1) u32_max) status fits (omega arith) (omega arith))

-- A call always ends, whatever the server, the transport and the token do: with at most
-- `max_attempts` requests, or one if that is 0. A response that is returned has no status that is
-- retried, and the error of a rate limit comes only when the attempts are spent. `max_attempts` is
-- a `u32`.
pub send_lem :
    (p : RetryPolicy) (w : World)
    → p.max_attempts ≤ u32_max
    → (e : Ending) × (send p w ≡ some e)
      × (e.sends ≤ max 1 p.max_attempts)
      × Explained p e.sends e.outcome
unfolding send
send_lem p w fits = rounds-IsWithin p.max_attempts p w 0 none fits (omega arith) (omega arith)
