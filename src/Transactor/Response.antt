-- ===== src/Transactor/Response.antt =====
-- How the reply of a TransactionSet is read: processTransactionResponse of
-- pkg/sdc/target/manager/utils.go, and TransactionSet and analyzeIntentResponse of transactor.go.
pub mod Laws
use config_server.Prelude.{
  Bool, Bytes, List, Option, String, [], false, if◌then◌else◌, map, none, some, utf8, ◌++◌, ◌∷◌,
}
use config_server.Errors.{
  Error, error_text, is_recoverable_transaction_error, join, plain, transaction, wrapped,
}
use config_server.Transactor.{
  Env, IntentResponse, M, SetRequest, SetResponse, confirms_transaction, sets_transaction,
}

-- strings.Join(parts, "; ").
unfoldable pub join_texts : List Bytes → Bytes
join_texts [] = []
join_texts (x ∷ []) = x
join_texts (x ∷ y ∷ ys) = x ++ 59 ∷ 32 ∷ join_texts (y ∷ ys)

unfoldable pub intent_error : Env → String → Bytes → Error
unfolding utf8
intent_error env key e =
    plain (utf8 "intent " ++ env.quote (utf8 key) ++ utf8 " error: " ++ env.quote e)

unfoldable pub add_intent_errors : Env → String → List Bytes → Option Error → Option Error
unfolding join intent_error
add_intent_errors env key [] errs = errs
add_intent_errors env key (e ∷ es) errs =
    add_intent_errors env key es (join errs (some (intent_error env key e)))

unfoldable pub add_all_errors : Env → List (String × IntentResponse) → Option Error → Option Error
unfolding add_intent_errors
add_all_errors env [] errs = errs
add_all_errors env ((key, intent) ∷ is) errs =
    add_all_errors env is (add_intent_errors env key intent.errors errs)

unfoldable pub intent_warnings : Env → List (String × IntentResponse) → List Bytes
unfolding utf8
intent_warnings env [] = []
intent_warnings env ((key, intent) ∷ is) =
    map (λ w. utf8 "intent " ++ env.quote (utf8 key) ++ utf8 " warning: " ++ env.quote w)
      intent.warnings
    ++ intent_warnings env is

unfoldable pub response_errors : Env → Option SetResponse → Option Error → Option Error
unfolding add_all_errors
response_errors env none errs = errs
response_errors env (some rsp) errs = add_all_errors env rsp.intents errs

unfoldable pub response_warnings : Env → Option SetResponse → List Bytes
unfolding intent_warnings utf8
response_warnings env none = []
response_warnings env (some rsp) =
    map (λ w. utf8 "global warning: " ++ env.quote w) rsp.warnings
    ++ intent_warnings env rsp.intents

unfoldable pub rpc_errors : Option Error → Option Error
unfolding join error_text utf8
rpc_errors none = none
rpc_errors (some e) = join none (some (plain (utf8 "error: " ++ error_text e)))

-- processTransactionResponse: the warnings as one text, and the errors as one TransactionError.
unfoldable pub process_transaction_response :
    Env → Option SetResponse → Option Error → Bytes × Option Error
unfolding response_errors response_warnings rpc_errors join_texts is_recoverable_transaction_error
process_transaction_response env rsp rsperr = (
  join_texts (response_warnings env rsp),
  elim (response_errors env rsp (rpc_errors rsperr)) [
    | none ↦ none
    | some errs ↦ some (transaction (is_recoverable_transaction_error rsperr) errs)
  ],
)

-- Transactor.TransactionSet: the message, and the error.
unfoldable pub transaction_set : Env → SetRequest → M (Bytes × Option Error)
unfolding process_transaction_response
transaction_set env req h =
    let reply = env.transaction_set h req in
    let h' = sets_transaction req ∷ h in
    let read = process_transaction_response env reply.0 reply.1 in
    elim read.1 [
      | some e ↦ (read, h')
      | none ↦ if req.dry_run then (read, h') else (
        (read.0, env.transaction_confirm h' req.datastore_name req.transaction_id),
        confirms_transaction req.datastore_name req.transaction_id ∷ h',
      )
    ]

pub record TransactionResult : Type 0 where
  pub global_error : Option Error
  pub intent_errors : Option Error
  pub global_warnings : List Bytes
  pub recoverable : Bool

unfoldable pub add_plain_errors : List Bytes → TransactionResult → TransactionResult
unfolding join
add_plain_errors [] r = r
add_plain_errors (e ∷ es) r =
    add_plain_errors es
      (record r { intent_errors = join r.intent_errors (some (plain e)); recoverable = false })

unfoldable pub add_intents : List (String × IntentResponse) → TransactionResult → TransactionResult
unfolding add_plain_errors
add_intents [] r = r
add_intents ((key, intent) ∷ is) r = add_intents is (add_plain_errors intent.errors r)

unfoldable pub global_result : Option Error → TransactionResult
unfolding utf8 is_recoverable_transaction_error
global_result none = record {
  global_error = none;
  intent_errors = none;
  global_warnings = [];
  recoverable = false;
}
global_result (some e) = record {
  global_error = some (wrapped (utf8 "transaction error: ") e);
  intent_errors = none;
  global_warnings = [];
  recoverable = is_recoverable_transaction_error (some e);
}

unfoldable pub analyze_intent_response : Option Error → Option SetResponse → TransactionResult
unfolding add_intents global_result
analyze_intent_response e none = global_result e
analyze_intent_response e (some rsp) =
    add_intents rsp.intents (record (global_result e) { global_warnings = rsp.warnings })
