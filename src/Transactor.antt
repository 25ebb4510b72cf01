-- ===== src/Transactor.antt =====
-- pkg/sdc/target/manager/transactor.go: what the transactor calls, and how its calls are recorded.
-- Kubernetes, the dataserver, the clock, SHA-1 and path parsing are not part of the program. They
-- answer through `Env`, from the calls made so far (newest first), so an answer may change with
-- every call. `range_configs` is the order in which Go ranges over a map.
pub mod Classify
pub mod Intents
pub mod Status
pub mod Failure
pub mod Deviations
pub mod Response
pub mod Transact
pub mod Recover
pub mod Local
use config_server.Prelude.{Bool, Bytes, List, Option, String, none, some, ℕ, ◌∷◌}
use config_server.Condition.{Condition}
use config_server.Config.{Config, ConfigSpec, Schema}
use config_server.Errors.{Error, Result, err, ok}

pub record Update : Type 0 where
  -- the parsed path, as its wire form
  pub path : Bytes
  pub value : Bytes

-- sdcpb.TransactionIntent.
pub record Intent : Type 0 where
  pub intent : String
  pub priority : ℕ
  pub update : List Update
  pub delete_intent : Bool
  pub delete_ignore_no_exist : Bool
  pub orphan_intent : Bool
  pub non_revertive : Bool
  pub previously_applied : Bool
  pub revert_paths : List Bytes

-- sdcpb.TransactionSetRequest; the timeout is in seconds.
pub record SetRequest : Type 0 where
  pub transaction_id : String
  pub datastore_name : String
  pub dry_run : Bool
  pub timeout : ℕ
  pub intents : List Intent

pub record IntentResponse : Type 0 where
  pub errors : List Bytes
  pub warnings : List Bytes

pub record SetResponse : Type 0 where
  pub warnings : List Bytes
  pub intents : List (String × IntentResponse)

-- The apply configurations of pkg/generated: what is not set is `none`.
pub record SchemaApply : Type 0 where
  pub type : Option String
  pub vendor : Option String
  pub version : Option String

pub record BlobApply : Type 0 where
  pub path : Option String
  pub value : Bytes

pub record SpecApply : Type 0 where
  pub priority : ℕ
  pub revertive : Option Bool
  pub lifecycle : Option String
  pub config : List BlobApply

pub record StatusApply : Type 0 where
  pub conditions : List Condition
  pub last_known_good_schema : Option SchemaApply
  pub applied_config : Option SpecApply
  pub deviation_generation : Option ℕ

-- A namespaced name.
pub record Key : Type 0 where
  pub namespace : String
  pub name : String

-- sdcpb.CreateDataStoreRequest: what the code reads of it, and the rest as its wire form.
pub record DatastoreTarget : Type 0 where
  pub type : String
  pub address : String
  pub port : ℕ

pub record DatastoreRequest : Type 0 where
  pub schema : Option Schema
  pub target : Option DatastoreTarget
  pub rest : Bytes

-- A host and a port, which net.JoinHostPort joins.
pub record Address : Type 0 where
  pub host : String
  pub port : ℕ

pub data Call : Type 0 where
  gets_config : Key → Call
  lists_configs : Key → Call
  patches_finalizers : Key → List String → Call
  applies_status : Key → StatusApply → Call
  gets_deviation : Key → Call
  creates_deviation : Key → Call
  deletes_deviation : Key → Call
  sets_transaction : SetRequest → Call
  confirms_transaction : String → String → Call
  marks_recovered : Bool → Call
  gets_target : Key → Call
  gets_datastore : String → Call
  creates_datastore : DatastoreRequest → Call
  deletes_datastore : String → Call
  starts_collector : Address → Call
  dials_dataserver closes_dataserver : Call
  waits : ℕ → Call
  adds_target_finalizer removes_target_finalizer : Key → Call

abbrev pub History : Type 0
History = List Call

pub record Env : Type 0 where
  pub now : History → ℕ
  pub new_uuid : History → String
  pub revertive : Option String
  pub sha_sum : ConfigSpec → Bytes
  pub parse_path : String → Result Bytes
  -- storebackend.Key.String, and fmt's %q
  pub key_string : Key → String
  pub quote : Bytes → Bytes
  pub range_configs : List (String × Config) → List (String × Config)
  pub get_config : History → Key → Result Config
  pub list_configs : History → Key → Result (List Config)
  -- client.Patch: the object is overwritten by what the server answers
  pub patch_finalizers : History → Config → List String → Result Config
  pub apply_status : History → Key → StatusApply → Option Error
  pub get_deviation : History → Key → Option Error
  pub create_deviation : History → Key → Option Error
  pub delete_deviation : History → Key → Option Error
  pub transaction_set : History → SetRequest → Option SetResponse × Option Error
  pub transaction_confirm : History → String → String → Option Error
  -- whether DSConnManager.Client is not nil
  pub has_client : History → Bool
  pub get_target : History → Key → Option Error
  pub get_datastore : History → String → Option Error
  pub create_datastore : History → DatastoreRequest → Option Error
  pub delete_datastore : History → String → Option Error
  -- dsclient.NewEphemeral; and whether the context is done before a wait of so many milliseconds
  pub dial_dataserver : History → Option Error
  pub cancelled : History → ℕ → Bool
  -- the gNMI dial of Collector.Start
  pub dial : History → Address → Option Error

-- A computation reads the calls made so far and adds its own.
abbrev pub M : Type 0 → Type 0
M A = History → A × History

-- Go's `if err != nil { return err }`.
abbrev pub continue : {A B : Type 0} → Result A → (A → M (Result B)) → M (Result B)
continue (ok a) f = f a
continue (err e) f = λ h. (err e, h)

infixl 5 ◌>>=◌ ◌>>◌
abbrev pub ◌>>=◌ : {A B : Type 0} → M (Result A) → (A → M (Result B)) → M (Result B)
◌>>=◌ m f h = let (r, h') = m h in continue r f h'

abbrev pub ◌>>◌ : {B : Type 0} → M (Result (Unit {0})) → M (Result B) → M (Result B)
m >> k = m >>= λ _. k

abbrev pub return : {A : Type 0} → A → M (Result A)
return a h = (ok a, h)

abbrev pub fail : {A : Type 0} → Error → M (Result A)
fail e h = (err e, h)

-- An error that may be nil, as a result.
abbrev pub check : Option Error → Result (Unit {0})
check none = ok tt
check (some e) = err e

-- What (requeue, err) says; Go's `if err != nil { return requeue, err }`.
abbrev pub Outcome : Type 0
Outcome = Bool × Option Error

abbrev pub proceed : {A : Type 0} → Bool → Result A → (A → M Outcome) → M Outcome
proceed requeue (ok a) f = f a
proceed requeue (err e) f = λ h. ((requeue, some e), h)

abbrev pub attempt : {A : Type 0} → Bool → M (Result A) → (A → M Outcome) → M Outcome
attempt requeue m f h = let (r, h') = m h in proceed requeue r f h'

-- What the transactor needs of a DatastoreHandle.
pub record Handle : Type 0 where
  pub datastore_name : String
  pub schema : Option Schema

-- The calls that were added all satisfy `P`.
pub data Adds (P : Call → Type 0) (h : History) : History → Type 0 where
  nothing : Adds P h h
  one_more : {h' : History} (c : Call) → P c → Adds P h h' → Adds P h (c ∷ h')

pub Adds-trans :
    {P : Call → Type 0} {h h' h'' : History} → Adds P h h' → Adds P h' h'' → Adds P h h''
Adds-trans a nothing = a
Adds-trans a (one_more c p b) = one_more c p (Adds-trans a b)

pub Adds-mono :
    {P Q : Call → Type 0} {h h' : History} → ((c : Call) → P c → Q c) → Adds P h h' → Adds Q h h'
Adds-mono f nothing = nothing
Adds-mono f (one_more c p a) = one_more c (f c p) (Adds-mono f a)

-- A property of the calls of a bind, from those of its parts.
pub >>=-Adds :
    {A B : Type 0} {P : Call → Type 0} (m : M (Result A)) (f : A → M (Result B)) (h : History)
    → Adds P h (m h).1
    → ((a : A) (h' : History) → Adds P h' (f a h').1)
    → Adds P h ((m >>= f) h).1
>>=-Adds {A} {B} {P} m f h a b = go (m h).0 (m h).1 a
  where
    go : (r : Result A) (h' : History) → Adds P h h' → Adds P h (continue r f h').1
    go (ok x) h' a = Adds-trans a (b x h')
    go (err e) h' a = a

pub attempt-Adds :
    {A : Type 0} {P : Call → Type 0} (requeue : Bool) (m : M (Result A)) (f : A → M Outcome)
    (h : History)
    → Adds P h (m h).1
    → ((a : A) (h' : History) → Adds P h' (f a h').1)
    → Adds P h (attempt requeue m f h).1
attempt-Adds {A} {P} requeue m f h a b = go (m h).0 (m h).1 a
  where
    go : (r : Result A) (h' : History) → Adds P h h' → Adds P h (proceed requeue r f h').1
    go (ok x) h' a = Adds-trans a (b x h')
    go (err e) h' a = a
