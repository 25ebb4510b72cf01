-- ===== src/Errors.antt =====
-- Go error values, as far as the code looks into them: their text, a gRPC status
-- (status.FromError), a Kubernetes NotFound, and the TransactionError of
-- pkg/sdc/target/manager/error.go. The error of an outside call comes as `external`.
use config_server.Prelude.{
  Bool, Bytes, Option, [], bytes_eq, false, if◌then◌else◌, inl, inr, leb, nat_eq, none, refl, some,
  string_eq, true, utf8, ℕ, ◌&&◌, ◌++◌, ◌+◌, ◌==◌, ◌||◌, ◌∷◌, ◌≡◌, ◌⊎◌,
}

-- google.golang.org/grpc/codes.
pub data Code : Type 0 where
  aborted resource_exhausted unavailable deadline_exceeded not_found : Code
  other_code : ℕ → Code

pub data Error : Type 0 where
  -- fmt.Errorf with no %w
  plain : Bytes → Error
  -- from outside: the text, the gRPC status if it carries one, and whether it is a NotFound
  external : Bytes → Option Code → Bool → Error
  -- fmt.Errorf("…%w", err)
  wrapped : Bytes → Error → Error
  -- errors.Join of one and of two errors
  joined_one : Error → Error
  joined : Error → Error → Error
  -- TransactionError, which has no Unwrap
  transaction : Bool → Error → Error

-- A Go result (T, error) whose value is read only if the error is nil.
pub data Result {ℓ} (A : Type ℓ) : Type ℓ where
  ok : A → Result A
  err : Error → Result A

pub Result-cases {ℓ} :
    {A : Type ℓ} (result : Result A)
    → ((value : A) × (result ≡ ok value)) ⊎ ((failure : Error) × (result ≡ err failure))
Result-cases (ok value) = inl (value, refl)
Result-cases (err failure) = inr (failure, refl)

-- err.Error().
unfoldable pub error_text : Error → Bytes
error_text (plain m) = m
error_text (external m code missing) = m
error_text (wrapped prefix e) = prefix ++ error_text e
error_text (joined_one e) = error_text e
error_text (joined a b) = error_text a ++ 10 ∷ error_text b
error_text (transaction recoverable e) = error_text e

-- errors.Join(a, b): nil if both are.
unfoldable pub join : Option Error → Option Error → Option Error
join none none = none
join (some a) none = some (joined_one a)
join none (some b) = some (joined_one b)
join (some a) (some b) = some (joined a b)

-- errors.Join(a).
unfoldable pub join_one : Option Error → Option Error
join_one none = none
join_one (some a) = some (joined_one a)

unfoldable pub or_else {ℓ} : {A : Type ℓ} → Option A → Option A → Option A
or_else none b = b
or_else (some a) b = some a

-- status.FromError: the first status on the way down the tree that errors.As walks.
unfoldable pub from_error : Error → Option Code
unfolding or_else
from_error (plain m) = none
from_error (external m code missing) = code
from_error (wrapped prefix e) = from_error e
from_error (joined_one e) = from_error e
from_error (joined a b) = or_else (from_error a) (from_error b)
from_error (transaction recoverable e) = none

-- errors.As with a *TransactionError: its Recoverable field.
unfoldable pub as_transaction : Error → Option Bool
unfolding or_else
as_transaction (plain m) = none
as_transaction (external m code missing) = none
as_transaction (wrapped prefix e) = as_transaction e
as_transaction (joined_one e) = as_transaction e
as_transaction (joined a b) = or_else (as_transaction a) (as_transaction b)
as_transaction (transaction recoverable e) = some recoverable

-- apierrors.IsNotFound, as resource.IgnoreNotFound uses it.
unfoldable pub is_not_found : Error → Bool
is_not_found (external m code missing) = missing
is_not_found (wrapped prefix e) = is_not_found e
is_not_found _ = false

-- The codes that isRecoverableTransactionError takes for transient.
unfoldable pub transient : Code → Bool
transient aborted = true
transient resource_exhausted = true
transient unavailable = true
transient deadline_exceeded = true
transient _ = false

-- isRecoverableTransactionError of pkg/sdc/target/manager/utils.go; `none` is nil.
unfoldable pub is_recoverable_transaction_error : Option Error → Bool
unfolding from_error transient
is_recoverable_transaction_error none = false
is_recoverable_transaction_error (some e) = elim (from_error e) [
  | none ↦ false
  | some code ↦ transient code
]

-- strings.ToLower, on the ASCII letters.
unfoldable pub to_lower : Bytes → Bytes
to_lower [] = []
to_lower (b ∷ bs) = (if leb 65 b && leb b 90 then b + 32 else b) ∷ to_lower bs

unfoldable pub has_prefix : Bytes → Bytes → Bool
has_prefix s [] = true
has_prefix [] (p ∷ ps) = false
has_prefix (b ∷ bs) (p ∷ ps) = b == p && has_prefix bs ps

-- strings.Contains.
unfoldable pub contains : Bytes → Bytes → Bool
unfolding has_prefix
contains [] sub = has_prefix [] sub
contains (b ∷ bs) sub = has_prefix (b ∷ bs) sub || contains bs sub

unfoldable pub is_missing : Option Code → Bool
is_missing (some not_found) = true
is_missing _ = false

-- isUnknownDatastoreErr of pkg/sdc/target/manager/runtime.go.
unfoldable pub is_unknown_datastore_err : Option Error → Bool
unfolding from_error is_missing to_lower contains error_text utf8
is_unknown_datastore_err none = false
is_unknown_datastore_err (some e) =
    let msg = to_lower (error_text e) in
    is_missing (from_error e)
    || contains msg (utf8 "unknown datastore")
    || contains msg (utf8 "not found")
