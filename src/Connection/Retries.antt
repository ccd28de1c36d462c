-- ===== src/Connection/Retries.antt =====
-- How often `_connect` tries, and how long it waits in between.
use httpx.Prelude.{
  ℕ, zero, suc, ◌+◌, ◌≤◌, ◌<◌, ◌≡◌, Bool, true, false, List, [], ◌∷◌, arith, ◌⊎◌, ap,
}
use httpx.Connection.{
  exponential_backoff, Attempt, connected, failed, is_retried, connect_loop, connect,
}

-- The delays 0, f, 2f, 4f, …, from the n-th on.
abbrev pub backoff_from : ℕ → ℕ → ℕ → List ℕ
backoff_from factor n zero = []
backoff_from factor n (suc k) = exponential_backoff factor n ∷ backoff_from factor (suc n) k

-- The failures after which `_connect` tries again.
abbrev pub is_transient : Attempt → Bool
is_transient (connected h2) = false
is_transient (failed f) = is_retried f

connect_loop-result :
    (attempts : ℕ → Attempt) (factor k left slept n : ℕ)
    → n ≡ slept + k
    → k ≤ left
    → ((j : ℕ) → slept ≤ j → j < n → is_transient (attempts j) ≡ true)
    → (k ≡ left) ⊎ (is_transient (attempts n) ≡ false)
    → connect_loop attempts factor left slept
      ≡ record { result = attempts n; delays = backoff_from factor slept k }
unfolding connect_loop
connect_loop-result attempts factor zero zero slept n e l before stop =
    let e' : n ≡ slept = omega arith in rw e'
connect_loop-result attempts factor (suc k) zero slept n e l before stop = absurd (omega arith)
connect_loop-result attempts factor zero (suc left) slept n e l before stop =
    let e' : n ≡ slept = omega arith in rw e' (ground (arith, stop, ap attempts e'))
connect_loop-result attempts factor (suc k) (suc left) slept n e l before stop =
    let rest =
      connect_loop-result attempts factor k left (suc slept) n (omega arith) (omega arith)
        (λ j a b. before j (omega arith) b) (ground (arith, stop)) in
    ground (arith, rest, before slept (omega arith) (omega arith))

-- `_connect` tries until an attempt succeeds, an attempt fails in a way that is not retried, or the
-- retries are used up: if that is the attempt after `k` transient failures, its outcome is the
-- result, and the waits before it were the first `k` delays 0, f, 2f, 4f, … of the generator.
pub connect-result :
    (attempts : ℕ → Attempt) (factor retries k : ℕ)
    → k ≤ retries
    → ((j : ℕ) → j < k → is_transient (attempts j) ≡ true)
    → (k ≡ retries) ⊎ (is_transient (attempts k) ≡ false)
    → connect attempts factor retries
      ≡ record { result = attempts k; delays = backoff_from factor 0 k }
unfolding connect
connect-result attempts factor retries k l before stop =
    connect_loop-result attempts factor k retries 0 k (omega arith) l (λ j _ b. before j b) stop
