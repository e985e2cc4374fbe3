-- ===== src/Bootstrap/Notify.antt =====
-- repram-mcp/src/node/bootstrap.ts: `notifyPeerAboutNewNode`, its attempts and its delays.
use Prim.Native.Nat.{◌^◌}
use native.Mathlib.Numerals.{unary_clauses}
use repram.Common.{
  ℕ, zero, suc, ◌+◌, ◌*◌, ◌≤◌, ◌<◌, ◌≡◌, refl, true, false, List, [], ◌∷◌, arith, nat_eq,
  if◌then◌else◌, ◌%◌,
}
use repram.Transport.{FetchOutcome, response, aborted, failed}

-- What an attempt does: the request, the wait before the next attempt in milliseconds, and the error
-- that is logged at the end.
pub data NotifyStep : Type 0 where
  requested slept : ℕ → NotifyStep
  gave_up : NotifyStep

-- `(1 << attempt) * 1000`, with a shift of 32-bit words; 0 for a negative number.
unfoldable pub retry_delay : ℕ → ℕ
retry_delay attempt = let shift = attempt % 32 in if nat_eq shift 31 then 0 else 2 ^ shift * 1000

-- The `catch` block, before what follows.
unfoldable pub on_failure : ℕ → ℕ → List NotifyStep → List NotifyStep
unfolding retry_delay
on_failure max_retries attempt rest =
    if nat_eq (attempt + 1) max_retries then gave_up ∷ rest else slept (retry_delay attempt) ∷ rest

unfoldable pub after_answer : FetchOutcome → ℕ → ℕ → List NotifyStep → List NotifyStep
unfolding on_failure
after_answer (response true) max_retries attempt rest = []
after_answer (response false) max_retries attempt rest = rest
after_answer aborted max_retries attempt rest = on_failure max_retries attempt rest
after_answer failed max_retries attempt rest = on_failure max_retries attempt rest

-- The attempts that are left, from `attempt` on; the answers are given by the attempt.
unfoldable pub notify_from : (ℕ → FetchOutcome) → ℕ → ℕ → ℕ → List NotifyStep
unfolding after_answer
notify_from answers max_retries zero attempt = []
notify_from answers max_retries (suc left) attempt =
    let rest = notify_from answers max_retries left (attempt + 1) in
    requested attempt ∷ after_answer (answers attempt) max_retries attempt rest

unfoldable pub notify_peer_about_new_node : (ℕ → FetchOutcome) → ℕ → List NotifyStep
unfolding notify_from
notify_peer_about_new_node answers max_retries = notify_from answers max_retries max_retries 0

abbrev pub requests : List NotifyStep → ℕ
requests [] = 0
requests (requested k ∷ steps) = suc (requests steps)
requests (slept ms ∷ steps) = requests steps
requests (gave_up ∷ steps) = requests steps

abbrev pub time_slept : List NotifyStep → ℕ
time_slept [] = 0
time_slept (requested k ∷ steps) = time_slept steps
time_slept (slept ms ∷ steps) = ms + time_slept steps
time_slept (gave_up ∷ steps) = time_slept steps

after_answer-requests :
    (o : FetchOutcome) (max_retries attempt : ℕ) (rest : List NotifyStep)
    → requests (after_answer o max_retries attempt rest) ≤ requests rest
unfolding after_answer on_failure
after_answer-requests (response true) max_retries attempt rest = omega arith
after_answer-requests (response false) max_retries attempt rest = omega arith
after_answer-requests aborted max_retries attempt rest = ground arith
after_answer-requests failed max_retries attempt rest = ground arith

notify_from-requests :
    (answers : ℕ → FetchOutcome) (max_retries left attempt : ℕ)
    → requests (notify_from answers max_retries left attempt) ≤ left
unfolding notify_from
notify_from-requests answers max_retries zero attempt = omega arith
notify_from-requests answers max_retries (suc left) attempt =
    let rest = notify_from answers max_retries left (attempt + 1) in
    omega (
      arith,
      notify_from-requests answers max_retries left (attempt + 1),
      after_answer-requests (answers attempt) max_retries attempt rest,
    )

-- The wait before the next attempt, none after the last one.
abbrev wait_after : ℕ → ℕ → ℕ
wait_after max_retries attempt = if nat_eq (attempt + 1) max_retries then 0 else retry_delay attempt

after_answer-time :
    (o : FetchOutcome) (max_retries attempt : ℕ) (rest : List NotifyStep)
    → time_slept (after_answer o max_retries attempt rest)
      ≤ wait_after max_retries attempt + time_slept rest
unfolding after_answer on_failure
after_answer-time (response true) max_retries attempt rest = omega arith
after_answer-time (response false) max_retries attempt rest = omega arith
after_answer-time aborted max_retries attempt rest = ground arith
after_answer-time failed max_retries attempt rest = ground arith

retry_delay-below : (attempt : ℕ) → attempt < 31 → retry_delay attempt ≡ 2 ^ attempt * 1000
unfolding retry_delay
retry_delay-below attempt h =
    let same : attempt % 32 ≡ attempt = omega (arith, h) in rw same (ground (arith, h))

wait_after-last :
    (max_retries attempt : ℕ) → attempt + 1 ≡ max_retries → wait_after max_retries attempt ≡ 0
wait_after-last max_retries attempt e = ground (arith, e)

wait_after-le :
    (max_retries attempt : ℕ) → attempt < 31 → wait_after max_retries attempt ≤ 2 ^ attempt * 1000
wait_after-le max_retries attempt h = ground (arith, retry_delay-below attempt h)

double_pow : (n : ℕ) → 2 ^ (n + 1) ≡ 2 * 2 ^ n
double_pow n = let same : n + 1 ≡ suc n = omega arith in rw same (simp unary_clauses (omega arith))

notify_from-time :
    (answers : ℕ → FetchOutcome) (max_retries left attempt : ℕ)
    → attempt + suc left ≡ max_retries
    → max_retries ≤ 31
    → time_slept (notify_from answers max_retries (suc left) attempt) + 2 ^ attempt * 1000
      ≤ 2 ^ (attempt + left) * 1000
unfolding notify_from
notify_from-time answers max_retries zero attempt e h =
    let slept_now = after_answer-time (answers attempt) max_retries attempt [] in
    let last = wait_after-last max_retries attempt (omega (arith, e)) in
    let same : attempt + 0 ≡ attempt = omega arith in rw same (omega (arith, slept_now, last))
notify_from-time answers max_retries (suc left) attempt e h =
    let rest = notify_from answers max_retries (suc left) (attempt + 1) in
    let slept_now = after_answer-time (answers attempt) max_retries attempt rest in
    let wait = wait_after-le max_retries attempt (omega (arith, e, h)) in
    let same : attempt + suc left ≡ attempt + 1 + left = omega arith in
    let later = notify_from-time answers max_retries left (attempt + 1) (omega (arith, e)) h in
    rw same (omega (arith, slept_now, wait, later, double_pow attempt))

-- However the peer answers, the notification ends after at most so many requests as it may make, and
-- it waits for at most 2 ^ (n - 1) - 1 seconds between n of them; n is at most 31, since the delay is
-- a shift of 32-bit words.
pub notify_peer_about_new_node_lem :
    (answers : ℕ → FetchOutcome) (left : ℕ)
    → suc left ≤ 31
    → (requests (notify_peer_about_new_node answers (suc left)) ≤ suc left)
      × (time_slept (notify_peer_about_new_node answers (suc left)) + 1000 ≤ 2 ^ left * 1000)
unfolding notify_peer_about_new_node
notify_peer_about_new_node_lem answers left h =
    let same : 0 + left ≡ left = omega arith in
    (
      notify_from-requests answers (suc left) (suc left) 0,
      rw same at (notify_from-time answers (suc left) left 0 (omega arith) h),
    )

-- Requests from one attempt on, with nothing between them.
abbrev pub requests_from : ℕ → ℕ → List NotifyStep
requests_from zero attempt = []
requests_from (suc left) attempt = requested attempt ∷ requests_from left (attempt + 1)

notify_from-rejected :
    (answers : ℕ → FetchOutcome) (max_retries left attempt : ℕ)
    → ((k : ℕ) → answers k ≡ response false)
    → notify_from answers max_retries left attempt ≡ requests_from left attempt
unfolding notify_from
notify_from-rejected answers max_retries zero attempt h = refl
notify_from-rejected answers max_retries (suc left) attempt h =
    rw (h attempt, notify_from-rejected answers max_retries left (attempt + 1) h) refl

-- A peer that answers every request with an error status is asked again at once, with no delay
-- between the requests, and in the end no error is logged.
pub notify_peer_about_new_node_rejected :
    (answers : ℕ → FetchOutcome) (max_retries : ℕ)
    → ((k : ℕ) → answers k ≡ response false)
    → notify_peer_about_new_node answers max_retries ≡ requests_from max_retries 0
unfolding notify_peer_about_new_node
notify_peer_about_new_node_rejected answers max_retries h =
    notify_from-rejected answers max_retries max_retries 0 h
