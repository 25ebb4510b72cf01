-- ===== src/ClearDeviation/Retry/Bounds.antt =====
-- How often, and how long apart, retryClearDeviationTx of apis/config/target_helpers.go tries.
use config_server.Prelude.{
  Bool, Bool-cases, List, Option, [], ap, arith, bytes_eq, false, inl, inr, is_none, nat_eq, none,
  not, refl, some, string_eq, suc, true, zero, ℕ, ◌*◌, ◌+◌, ◌<◌, ◌==◌, ◌||◌, ◌∙◌, ◌∷◌, ◌≡◌, ◌≤◌,
  ◌⊎◌,
}
use config_server.ClearDeviation.Retry.{
  Answer, confirm_clear, execute_clear_deviation_tx, execute_once,
  is_recoverable_clear_deviation_tx_error, retry_clear_deviation_tx,
}
use config_server.Errors.{Error, transient}
use config_server.Transactor.{Env, History, M, SetRequest, attempt, sets_transaction, waits}

-- The pauses, newest first.
unfoldable pub pauses : History → List ℕ
pauses [] = []
pauses (waits ms ∷ h) = ms ∷ pauses h
pauses (c ∷ h) = pauses h

-- So many pauses, each twice the one before, on top of those that were made.
unfoldable pub doubled : ℕ → ℕ → List ℕ → List ℕ
doubled zero backoff before = before
doubled (suc k) backoff before = doubled k (backoff * 2) (backoff ∷ before)

-- The TransactionSet calls.
unfoldable pub sets : History → ℕ
sets [] = 0
sets (sets_transaction req ∷ h) = suc (sets h)
sets (c ∷ h) = sets h

-- After `k` further tries, with so many left. Each try but the last is answered with a recoverable
-- error, while the context is not done, and is followed by a pause; the next pause is twice as long. The
-- result is that of the last try, whose answer is final, or which is the last of those that were left,
-- or after which the context is done.
abbrev pub Ends : Env → M Answer → ℕ → ℕ → ℕ → History → Answer × History → Type 0
Ends env attempt zero left backoff h result =
    (result ≡ attempt h)
    × ((is_recoverable_clear_deviation_tx_error (attempt h).0.1 ≡ false)
        ⊎ (left ≡ 1)
        ⊎ (env.cancelled (attempt h).1 backoff ≡ true))
Ends env attempt (suc k) left backoff h result =
    (is_recoverable_clear_deviation_tx_error (attempt h).0.1 ≡ true)
    × (env.cancelled (attempt h).1 backoff ≡ false)
    × ((more : ℕ) × (left ≡ suc more)
        × Ends env attempt k more (backoff * 2) (waits backoff ∷ (attempt h).1) result)

abbrev stop : Env → ℕ → ℕ → M Answer → History → Bool
stop env left backoff attempt h =
    let (answer, h') = attempt h in
    is_none answer.1
    || left == 0
    || not (is_recoverable_clear_deviation_tx_error answer.1)
    || env.cancelled h' backoff

retry_now :
    (env : Env) (left backoff : ℕ) (attempt : M Answer) (h : History)
    → stop env left backoff attempt h ≡ true
    → retry_clear_deviation_tx env (suc left) backoff attempt h ≡ attempt h
unfolding retry_clear_deviation_tx
retry_now env left backoff attempt h over = rw over refl

retry_later :
    (env : Env) (left backoff : ℕ) (attempt : M Answer) (h : History)
    → stop env left backoff attempt h ≡ false
    → retry_clear_deviation_tx env (suc left) backoff attempt h
      ≡ retry_clear_deviation_tx env left (backoff * 2) attempt (waits backoff ∷ (attempt h).1)
unfolding retry_clear_deviation_tx
retry_later env left backoff attempt h more = rw more refl

recoverable_some :
    (e : Option Error) → is_recoverable_clear_deviation_tx_error e ≡ true → is_none e ≡ false
unfolding is_recoverable_clear_deviation_tx_error
recoverable_some none r = cc
recoverable_some (some e) r = refl

-- Why a loop that stops does.
stop_reason :
    (env : Env) (left backoff : ℕ) (attempt : M Answer) (h : History)
    → stop env left backoff attempt h ≡ true
    → (is_recoverable_clear_deviation_tx_error (attempt h).0.1 ≡ false)
      ⊎ (suc left ≡ 1)
      ⊎ (env.cancelled (attempt h).1 backoff ≡ true)
stop_reason env left backoff attempt h over =
    elim (Bool-cases (is_recoverable_clear_deviation_tx_error (attempt h).0.1)) [
      | inr final ↦ inl final
      | inl again ↦ elim (Bool-cases (env.cancelled (attempt h).1 backoff)) [
        | inl gone ↦ inr (inr gone)
        | inr here ↦
            inr (inl ground (arith, again, here, over, recoverable_some (attempt h).0.1 again))
      ]
    ]

-- Why a loop that goes on does.
more_reason :
    (env : Env) (left backoff : ℕ) (attempt : M Answer) (h : History)
    → stop env left backoff attempt h ≡ false
    → (is_recoverable_clear_deviation_tx_error (attempt h).0.1 ≡ true)
      × (env.cancelled (attempt h).1 backoff ≡ false)
more_reason env left backoff attempt h more = ground (arith, more)

-- With at least one try the loop ends, and not after more tries than are left.
pub retry_clear_deviation_tx_lem :
    (env : Env) (left backoff : ℕ) (attempt : M Answer) (h : History)
    → 0 < left
    → (k : ℕ) × (k < left)
      × Ends env attempt k left backoff h (retry_clear_deviation_tx env left backoff attempt h)
retry_clear_deviation_tx_lem env zero backoff attempt h some_try = absurd (omega arith)
retry_clear_deviation_tx_lem env (suc zero) backoff attempt h some_try =
    rw (retry_now env 0 backoff attempt h (ground arith)) (0, omega arith, (refl, inr (inl refl)))
retry_clear_deviation_tx_lem env (suc (suc left)) backoff attempt h some_try =
    let (k, few, ends) =
      retry_clear_deviation_tx_lem env (suc left) (backoff * 2) attempt
        (waits backoff ∷ (attempt h).1) (omega arith) in
    elim (Bool-cases (stop env (suc left) backoff attempt h)) [
      | inl over ↦
          rw (retry_now env (suc left) backoff attempt h over)
            (0, omega arith, (refl, stop_reason env (suc left) backoff attempt h over))
      | inr more ↦
          let (transient, here) = more_reason env (suc left) backoff attempt h more in
          rw (retry_later env (suc left) backoff attempt h more)
            (suc k, omega arith, (transient, here, (suc left, refl, ends)))
    ]

pauses-Ends :
    (env : Env) (attempt : M Answer) (k left backoff : ℕ) (h : History) (result : Answer × History)
    → ((h : History) → pauses (attempt h).1 ≡ pauses h)
    → Ends env attempt k left backoff h result
    → pauses result.1 ≡ doubled k backoff (pauses h)
unfolding pauses doubled
pauses-Ends env attempt zero left backoff h result still (same, why) =
    ap (λ (r : Answer × History). pauses r.1) same ∙ still h
pauses-Ends env attempt (suc k) left backoff h result still (transient, here, (more, few, ends)) =
    pauses-Ends env attempt k more (backoff * 2) (waits backoff ∷ (attempt h).1) result still ends
    ∙ ap (λ (before : List ℕ). doubled k (backoff * 2) (backoff ∷ before)) (still h)

sets-Ends :
    (env : Env) (attempt : M Answer) (k left backoff : ℕ) (h : History) (result : Answer × History)
    → ((h : History) → sets (attempt h).1 ≤ suc (sets h))
    → Ends env attempt k left backoff h result
    → sets result.1 ≤ suc k + sets h
unfolding sets
sets-Ends env attempt zero left backoff h result once (same, why) =
    ground (arith, once h, ap (λ (r : Answer × History). sets r.1) same)
sets-Ends env attempt (suc k) left backoff h result once (transient, here, (more, few, ends)) =
    ground (
      arith,
      once h,
      sets-Ends env attempt k more (backoff * 2) (waits backoff ∷ (attempt h).1) result once ends,
    )

pauses-execute_once :
    (env : Env) (req : SetRequest) (h : History) → pauses (execute_once env req h).1 ≡ pauses h
unfolding execute_once confirm_clear pauses
pauses-execute_once env req h = ground arith

sets-execute_once :
    (env : Env) (req : SetRequest) (h : History) → sets (execute_once env req h).1 ≤ suc (sets h)
unfolding execute_once confirm_clear sets
sets-execute_once env req h = ground arith

-- executeClearDeviationTx makes at most four tries and sends at most four TransactionSet calls, with
-- pauses of 200, 400 and 800 milliseconds before the second, third and fourth try. It tries again
-- exactly when the error is recoverable, tries are left, and the context is not done; and its answer
-- is that of the last try.
pub execute_clear_deviation_tx_lem :
    (env : Env) (req : SetRequest) (h : History)
    → let result = execute_clear_deviation_tx env req h in
      (k : ℕ) × (k < 4)
      × (pauses result.1 ≡ doubled k 200 (pauses h))
      × (sets result.1 ≤ suc k + sets h)
      × Ends env (execute_once env req) k 4 200 h result
unfolding execute_clear_deviation_tx
execute_clear_deviation_tx_lem env req h =
    let attempt = execute_once env req in
    let (k, few, ends) = retry_clear_deviation_tx_lem env 4 200 attempt h (omega arith) in
    (
      k,
      few,
      pauses-Ends env attempt k 4 200 h _ (pauses-execute_once env req) ends,
      sets-Ends env attempt k 4 200 h _ (sets-execute_once env req) ends,
      ends,
    )
