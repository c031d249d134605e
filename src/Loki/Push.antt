-- ===== src/Loki/Push.antt =====
-- `push` of src/loki.ts: one batch posted again and again while the answers ask for it. The answer
-- to each attempt, a status or a failed request (a timeout aborts the request), is the
-- environment's; waiting times are in milliseconds.
use mathlib.Core.Path.{subst}
use next_loggers_ts.Prelude.{
  ℕ, zero, suc, not, ◌+◌, ◌*◌, ◌^◌, ◌≤◌, ◌<◌, ◌≡◌, refl, ap, min, max, List, [], ◌∷◌, Bool, true,
  false, ◌&&◌, ◌||◌, Option, or_else, length, ltb, leb, ◌==◌, if◌then◌else◌, arith, Bool-cases, ◌⊎◌,
  inl, inr, sym, ◌∙◌,
}

pub record RetryOptions : Type 0 where
  pub max_retries : Option ℕ
  pub retry_base : Option ℕ

pub data Reply : Type 0 where
  answered : ℕ → Reply
  request_failed : Reply

pub data PushResult : Type 0 where
  delivered : PushResult
  rejected_with : Reply → PushResult

pub record Push : Type 0 where
  pub requests : ℕ
  pub waits : List ℕ
  pub result : PushResult

abbrev pub maximum_retries : RetryOptions → ℕ
maximum_retries o = or_else o.max_retries 3

abbrev pub delay : RetryOptions → ℕ → ℕ
delay o attempt = min (max 1 (or_else o.retry_base 250) * 2 ^ attempt) 5000

-- `response.ok` of fetch.
abbrev pub is_ok : Reply → Bool
is_ok (answered status) = leb 200 status && leb status 299
is_ok request_failed = false

abbrev pub is_retryable : Reply → Bool
is_retryable (answered status) = status == 408 || status == 429 || leb 500 status
is_retryable request_failed = true

-- The attempts from `attempt` on, when `left` retries are left.
unfoldable pub attempts : RetryOptions → (ℕ → Reply) → ℕ → ℕ → Push
attempts o reply zero attempt = record {
  requests = 1;
  waits = [];
  result = if is_ok (reply attempt) then delivered else rejected_with (reply attempt);
}
attempts o reply (suc left) attempt =
    let rest = attempts o reply left (suc attempt) in
    if is_ok (reply attempt)
    then record { requests = 1; waits = []; result = delivered }
    else if is_retryable (reply attempt)
    then record {
      requests = rest.requests + 1;
      waits = delay o attempt ∷ rest.waits;
      result = rest.result;
    }
    else record { requests = 1; waits = []; result = rejected_with (reply attempt) }

unfoldable pub push : RetryOptions → (ℕ → Reply) → Push
push o reply = attempts o reply (maximum_retries o) 0

abbrev pub sum : List ℕ → ℕ
sum [] = 0
sum (n ∷ ns) = n + sum ns

abbrev WithinBounds : ℕ → Push → Type 0
WithinBounds left p =
    (1 ≤ p.requests)
    × (p.requests ≤ left + 1)
    × (p.requests ≡ length p.waits + 1)
    × (sum p.waits ≤ 5000 * left)

attempts-WithinBounds :
    (o : RetryOptions) (reply : ℕ → Reply) (left attempt : ℕ)
    → WithinBounds left (attempts o reply left attempt)
unfolding attempts
attempts-WithinBounds o reply zero attempt = ground arith
attempts-WithinBounds o reply (suc left) attempt =
    grind (arith, attempts-WithinBounds o reply left (suc attempt))

-- Whatever is answered, a push ends after at least one and at most `maxRetries + 1` requests, with
-- one wait between each two of them, and waits at most five seconds for each retry allowed.
push_bounds :
    (o : RetryOptions) (reply : ℕ → Reply)
    → (1 ≤ (push o reply).requests)
      × ((push o reply).requests ≤ maximum_retries o + 1)
      × ((push o reply).requests ≡ length (push o reply).waits + 1)
      × (sum (push o reply).waits ≤ 5000 * maximum_retries o)
unfolding push
push_bounds o reply = attempts-WithinBounds o reply (maximum_retries o) 0

abbrev pub is_retried : Reply → Bool
is_retried r = not (is_ok r) && is_retryable r

abbrev pub delays : RetryOptions → ℕ → ℕ → List ℕ
delays o from zero = []
delays o from (suc n) = delay o from ∷ delays o (suc from) n

-- The run of a push from the attempt `from` on that the answer to the attempt `m`, `n` later,
-- decides.
abbrev IsDecidedAt : RetryOptions → (ℕ → Reply) → ℕ → ℕ → ℕ → ℕ → Push → Type 0
IsDecidedAt o reply left from n m p =
    (m ≡ from + n)
    × (n ≤ left)
    × ((i : ℕ) → from ≤ i → i < m → is_retried (reply i) ≡ true)
    × ((is_retried (reply m) && ltb n left) ≡ false)
    × (p.requests ≡ n + 1)
    × (p.waits ≡ delays o from n)
    × (p.result ≡ (if is_ok (reply m) then delivered else rejected_with (reply m)))

from_or_above : (from i : ℕ) → from ≤ i → (from ≡ i) ⊎ (suc from ≤ i)
from_or_above from i l = ground arith

retried_first :
    (reply : ℕ → Reply) (from m : ℕ)
    → is_retried (reply from) ≡ true
    → ((i : ℕ) → suc from ≤ i → i < m → is_retried (reply i) ≡ true)
    → (i : ℕ) → from ≤ i
    → i < m
    → is_retried (reply i) ≡ true
retried_first reply from m h k i l u = elim (from_or_above from i l) [
  | inl e ↦ ap (λ j. is_retried (reply j)) (sym e) ∙ h
  | inr a ↦ k i a u
]

decided_now :
    (o : RetryOptions) (reply : ℕ → Reply) (left from : ℕ)
    → is_retried (reply from) ≡ false
    → IsDecidedAt o reply left from 0 from (attempts o reply left from)
unfolding attempts
decided_now o reply zero from h = (
  omega arith,
  omega arith,
  λ i l u. absurd (omega (arith, l, u)),
  ground arith,
  refl,
  refl,
  refl,
)
decided_now o reply (suc left) from h = (
  omega arith,
  omega arith,
  λ i l u. absurd (omega (arith, l, u)),
  ground arith,
  ground arith,
  ground arith,
  ground arith,
)

decided_later :
    (o : RetryOptions) (reply : ℕ → Reply) (left from n m : ℕ)
    → is_retried (reply from) ≡ true
    → IsDecidedAt o reply left (suc from) n m (attempts o reply left (suc from))
    → IsDecidedAt o reply (suc left) from (suc n) m (attempts o reply (suc left) from)
unfolding attempts
decided_later o reply left from n m h (at, le, before, stop, requests, waits, result) = (
  omega (arith, at),
  omega (arith, le),
  retried_first reply from m h before,
  ground arith,
  ground arith,
  ground arith,
  ground arith,
)

attempts-IsDecidedAt :
    (o : RetryOptions) (reply : ℕ → Reply) (left from : ℕ)
    → (n : ℕ) × (m : ℕ) × IsDecidedAt o reply left from n m (attempts o reply left from)
unfolding attempts
attempts-IsDecidedAt o reply zero from = (
  0,
  from,
  (omega arith, omega arith, λ i l u. absurd (omega (arith, l, u)), ground arith, refl, refl, refl),
)
attempts-IsDecidedAt o reply (suc left) from = elim (Bool-cases (is_retried (reply from))) [
  | inl h ↦
      let (n, m, d) = attempts-IsDecidedAt o reply left (suc from) in
      (suc n, m, decided_later o reply left from n m h d)
  | inr h ↦ (0, from, decided_now o reply (suc left) from h)
]

-- A push is decided by one attempt: every earlier answer is a failure to be retried; that answer is
-- ok, or not to be retried, or no retry is left. The requests are those up to that attempt, the
-- waits between them are the doubled base up to five seconds, and the batch is delivered just when
-- the deciding answer is ok, else rejected with that answer.
pub push_decided :
    (o : RetryOptions) (reply : ℕ → Reply)
    → (n : ℕ) × (n ≤ maximum_retries o)
      × ((i : ℕ) → i < n → is_retried (reply i) ≡ true)
      × ((is_retried (reply n) && ltb n (maximum_retries o)) ≡ false)
      × ((push o reply).requests ≡ n + 1)
      × ((push o reply).waits ≡ delays o 0 n)
      × ((push o reply).result ≡ (if is_ok (reply n) then delivered else rejected_with (reply n)))
unfolding push
push_decided o reply =
    let (n, m, d) = attempts-IsDecidedAt o reply (maximum_retries o) 0 in
    let P : ℕ → Type 0 = λ j. IsDecidedAt o reply (maximum_retries o) 0 n j (push o reply) in
    let m≡n : m ≡ n = omega (arith, d.0) in
    let (at, le, before, stop, requests, waits, result) = subst P m≡n d in
    (n, le, λ i. before i (omega arith), stop, requests, waits, result)
