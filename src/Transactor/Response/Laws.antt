-- ===== src/Transactor/Response/Laws.antt =====
-- The two readings of a reply agree on what a failure is, and nothing is confirmed after one
-- (pkg/sdc/target/manager/utils.go and transactor.go).
use config_server.Prelude.{
  Bool, Bool-cases, Bytes, List, Option, Option-cases, String, [], ap, arith, false, if◌then◌else◌,
  inl, inr, is_none, none, not, not_empty, refl, some, sym, true, ◌&&◌, ◌∙◌, ◌∷◌, ◌≡◌, ◌⊎◌,
}
use config_server.Errors.{Error, is_recoverable_transaction_error, join, plain, transaction}
use config_server.Transactor.{
  Env, History, IntentResponse, SetRequest, SetResponse, confirms_transaction, sets_transaction,
}
use config_server.Transactor.Response.{
  TransactionResult, add_all_errors, add_intent_errors, add_intents, add_plain_errors,
  analyze_intent_response, global_result, intent_error, process_transaction_response,
  response_errors, rpc_errors, transaction_set,
}

-- No intent of the reply has an error.
unfoldable pub no_intent_errors : List (String × IntentResponse) → Bool
no_intent_errors [] = true
no_intent_errors ((key, intent) ∷ is) = not (not_empty intent.errors) && no_intent_errors is

unfoldable pub no_response_errors : Option SetResponse → Bool
unfolding no_intent_errors
no_response_errors none = true
no_response_errors (some rsp) = no_intent_errors rsp.intents

-- The call did not fail, and no intent has an error.
unfoldable pub is_clean : Option SetResponse → Option Error → Bool
unfolding no_response_errors
is_clean rsp e = is_none e && no_response_errors rsp

add_intent_errors-is_none :
    (env : Env) (key : String) (es : List Bytes) (errs : Option Error)
    → is_none (add_intent_errors env key es errs) ≡ (is_none errs && not (not_empty es))
unfolding add_intent_errors
add_intent_errors-is_none env key [] none = refl
add_intent_errors-is_none env key [] (some e) = refl
add_intent_errors-is_none env key (e ∷ es) none =
    ground (arith, add_intent_errors-is_none env key es (join none (some (intent_error env key e))))
add_intent_errors-is_none env key (e ∷ es) (some x) =
    ground
      (arith, add_intent_errors-is_none env key es (join (some x) (some (intent_error env key e))))

add_all_errors-is_none :
    (env : Env) (is : List (String × IntentResponse)) (errs : Option Error)
    → is_none (add_all_errors env is errs) ≡ (is_none errs && no_intent_errors is)
unfolding add_all_errors no_intent_errors
add_all_errors-is_none env [] errs = ground arith
add_all_errors-is_none env ((key, intent) ∷ is) errs = ground (
  arith,
  add_intent_errors-is_none env key intent.errors errs,
  add_all_errors-is_none env is (add_intent_errors env key intent.errors errs),
)

pub process_transaction_response-is_none :
    (env : Env) (rsp : Option SetResponse) (e : Option Error)
    → is_none (process_transaction_response env rsp e).1 ≡ is_clean rsp e
unfolding process_transaction_response is_clean
process_transaction_response-is_none env none none = refl
process_transaction_response-is_none env none (some e) = refl
process_transaction_response-is_none env (some rsp) none =
    ground (arith, add_all_errors-is_none env rsp.intents none)
process_transaction_response-is_none env (some rsp) (some e) =
    ground (arith, add_all_errors-is_none env rsp.intents (rpc_errors (some e)))

process_transaction_response_error :
    (env : Env) (rsp : Option SetResponse) (e : Option Error)
    → is_clean rsp e ≡ false
    → (x : Error) × ((process_transaction_response env rsp e).1
        ≡ some (transaction (is_recoverable_transaction_error e) x))
unfolding process_transaction_response
process_transaction_response_error env rsp e h =
    elim (Option-cases (response_errors env rsp (rpc_errors e))) [
      | inl missing ↦
          absurd (ground (arith, missing, process_transaction_response-is_none env rsp e))
      | inr (x, found) ↦ (x, ground (arith, found))
    ]

-- TransactionSet sends the confirm exactly if the reply is clean and the request is no dry run, and
-- makes no call but the two; on a reply that is not clean it returns a TransactionError.
pub transaction_set_confirms :
    (env : Env) (req : SetRequest) (h : History)
    → let reply = env.transaction_set h req in
      ((transaction_set env req h).1 ≡ (
        if is_clean reply.0 reply.1 && not req.dry_run
        then confirms_transaction req.datastore_name req.transaction_id ∷ sets_transaction req ∷ h
        else sets_transaction req ∷ h))
      × ((is_clean reply.0 reply.1 ≡ true)
          ⊎ ((e : Error) × ((transaction_set env req h).0.1
                ≡ some (transaction (is_recoverable_transaction_error reply.1) e))))
unfolding transaction_set
transaction_set_confirms env req h =
    let reply = env.transaction_set h req in
    let agree = process_transaction_response-is_none env reply.0 reply.1 in
    (
      ground (arith, agree),
      elim (Bool-cases (is_clean reply.0 reply.1)) [
        | inl clean ↦ inl clean
        | inr dirty ↦
            let (e, found) = process_transaction_response_error env reply.0 reply.1 dirty in
            inr (e, ground (arith, found))
      ],
    )

-- What a TransactionSet that is no dry run answers.
pub transaction_set-cases :
    (env : Env) (req : SetRequest) (h : History)
    → req.dry_run ≡ false
    → let reply = env.transaction_set h req in
      let h2 = sets_transaction req ∷ h in
      let msg = (process_transaction_response env reply.0 reply.1).0 in
      ((e : Error) × (is_clean reply.0 reply.1 ≡ false)
        × (transaction_set env req h ≡ ((msg, some e), h2)))
      ⊎ ((is_clean reply.0 reply.1 ≡ true)
          × (transaction_set env req h ≡ (
            (msg, env.transaction_confirm h2 req.datastore_name req.transaction_id),
            confirms_transaction req.datastore_name req.transaction_id ∷ h2,
          )))
unfolding transaction_set
transaction_set-cases env req h wet =
    let reply = env.transaction_set h req in
    let read = process_transaction_response env reply.0 reply.1 in
    let agree = process_transaction_response-is_none env reply.0 reply.1 in
    elim (Option-cases read.1) [
      | inr (e, failed) ↦ inl (e, sym agree ∙ ap is_none failed, ground (arith, failed))
      | inl clean ↦ inr (sym agree ∙ ap is_none clean, ground (arith, clean, wet))
    ]

add_plain_errors_lem :
    (es : List Bytes) (r : TransactionResult)
    → (is_none (add_plain_errors es r).intent_errors
        ≡ (is_none r.intent_errors && not (not_empty es)))
      × ((add_plain_errors es r).global_error ≡ r.global_error)
      × ((add_plain_errors es r).global_warnings ≡ r.global_warnings)
      × ((add_plain_errors es r).recoverable ≡ (r.recoverable && not (not_empty es)))
unfolding add_plain_errors
add_plain_errors_lem [] r = ground arith
add_plain_errors_lem (e ∷ es) r =
    let next =
      add_plain_errors_lem es
        (record r { intent_errors = join r.intent_errors (some (plain e)); recoverable = false }) in
    ground (arith, next, join_some r.intent_errors (plain e))
  where
    join_some : (a : Option Error) (b : Error) → is_none (join a (some b)) ≡ false
    join_some none b = unfold join in refl
    join_some (some a) b = unfold join in refl

add_intents_lem :
    (is : List (String × IntentResponse)) (r : TransactionResult)
    → (is_none (add_intents is r).intent_errors ≡ (is_none r.intent_errors && no_intent_errors is))
      × ((add_intents is r).global_error ≡ r.global_error)
      × ((add_intents is r).global_warnings ≡ r.global_warnings)
      × ((add_intents is r).recoverable ≡ (r.recoverable && no_intent_errors is))
unfolding add_intents no_intent_errors
add_intents_lem [] r = ground arith
add_intents_lem ((key, intent) ∷ is) r = ground (
  arith,
  add_plain_errors_lem intent.errors r,
  add_intents_lem is (add_plain_errors intent.errors r),
)

-- analyzeIntentResponse finds an error exactly if the reply is not clean, passes the global warnings
-- on, and takes the failure for recoverable exactly if no intent has an error and the error of the
-- call is transient.
pub analyze_intent_response_lem :
    (e : Option Error) (rsp : Option SetResponse)
    → let r = analyze_intent_response e rsp in
      ((is_none r.global_error && is_none r.intent_errors) ≡ is_clean rsp e)
      × (r.global_warnings ≡ elim rsp [ none ↦ [] | some x ↦ x.warnings ])
      × (r.recoverable ≡ (no_response_errors rsp && is_recoverable_transaction_error e))
unfolding analyze_intent_response is_clean
analyze_intent_response_lem none none = (refl, refl, refl)
analyze_intent_response_lem (some e) none = ground arith
analyze_intent_response_lem none (some rsp) = ground (
  arith,
  add_intents_lem rsp.intents (record (global_result none) { global_warnings = rsp.warnings }),
)
analyze_intent_response_lem (some e) (some rsp) = ground (
  arith,
  add_intents_lem rsp.intents (record (global_result (some e)) { global_warnings = rsp.warnings }),
)
