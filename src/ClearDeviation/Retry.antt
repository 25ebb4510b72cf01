-- ===== src/ClearDeviation/Retry.antt =====
-- executeClearDeviationTx of apis/config/target_helpers.go: a transaction is set and confirmed, with
-- a bounded number of tries. A pause is in milliseconds.
pub mod Bounds
use config_server.Prelude.{
  Bool, Option, bytes_eq, false, if◌then◌else◌, is_none, nat_eq, none, not, some, string_eq, suc,
  utf8, zero, ℕ, ◌*◌, ◌==◌, ◌||◌, ◌∷◌,
}
use config_server.Errors.{Error, from_error, transient, wrapped}
use config_server.Transactor.{
  Env, M, SetRequest, SetResponse, attempt, closes_dataserver, confirms_transaction,
  dials_dataserver, sets_transaction, waits,
}

abbrev pub Answer : Type 0
Answer = Option SetResponse × Option Error

-- isRecoverableClearDeviationTxError.
unfoldable pub is_recoverable_clear_deviation_tx_error : Option Error → Bool
unfolding from_error transient
is_recoverable_clear_deviation_tx_error none = false
is_recoverable_clear_deviation_tx_error (some e) = elim (from_error e) [
  | none ↦ false
  | some code ↦ transient code
]

unfoldable pub confirm_clear : Env → SetRequest → Option SetResponse → M Answer
unfolding utf8
confirm_clear env req rsp h =
    let h' = confirms_transaction req.datastore_name req.transaction_id ∷ h in
    elim (env.transaction_confirm h req.datastore_name req.transaction_id) [
      | none ↦ ((rsp, none), closes_dataserver ∷ h')
      | some e ↦
          ((rsp, some (wrapped (utf8 "transaction confirm failed: ") e)), closes_dataserver ∷ h')
    ]

-- executeClearDeviationTxOnce; the connection is closed last.
unfoldable pub execute_once : Env → SetRequest → M Answer
unfolding confirm_clear
execute_once env req h =
    let h1 = dials_dataserver ∷ h in
    let reply = env.transaction_set h1 req in
    let h2 = sets_transaction req ∷ h1 in
    elim (env.dial_dataserver h) [
      | some e ↦ ((none, some e), h1)
      | none ↦ elim reply.1 [
        | some e ↦ (reply, closes_dataserver ∷ h2)
        | none ↦ confirm_clear env req reply.0 h2
      ]
    ]

abbrev pub max_attempts : ℕ
max_attempts = 4

abbrev pub base_backoff : ℕ
base_backoff = 200

-- The loop of retryClearDeviationTx with so many attempts left.
unfoldable pub retry_clear_deviation_tx : Env → ℕ → ℕ → M Answer → M Answer
unfolding is_recoverable_clear_deviation_tx_error
retry_clear_deviation_tx env zero backoff attempt h = ((none, none), h)
retry_clear_deviation_tx env (suc left) backoff attempt h =
    let (answer, h') = attempt h in
    let rest = retry_clear_deviation_tx env left (backoff * 2) attempt (waits backoff ∷ h') in
    if is_none answer.1
      || left == 0
      || not (is_recoverable_clear_deviation_tx_error answer.1)
      || env.cancelled h' backoff
    then (answer, h')
    else rest

unfoldable pub execute_clear_deviation_tx : Env → SetRequest → M Answer
unfolding retry_clear_deviation_tx execute_once
execute_clear_deviation_tx env req =
    retry_clear_deviation_tx env max_attempts base_backoff (execute_once env req)
