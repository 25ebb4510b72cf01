-- ===== src/Condition.antt =====
-- apis/condition/v1alpha1/condition.go (and its internal twin apis/condition/condition.go): the
-- conditions of a resource. A time is a number, 0 for Go's zero time; `now` is metav1.Now().
pub mod Message
pub mod Laws
pub mod Dedupe
use config_server.Prelude.{
  Bool, Bytes, List, String, [], bytes_eq, false, if◌then◌else◌, nat_eq, string_eq, true, ℕ, ◌&&◌,
  ◌++◌, ◌==◌, ◌∷◌,
}
use config_server.Condition.Message.{max_message_bytes, truncate_message}

pub record Condition : Type 0 where
  pub type : String
  pub status : String
  pub observed_generation : ℕ
  pub last_transition_time : ℕ
  pub reason : String
  pub message : Bytes

-- metav1.ConditionStatus.
abbrev pub condition_true : String
condition_true = "True"

abbrev pub condition_false : String
condition_false = "False"

abbrev pub condition_type_ready : String
condition_type_ready = "Ready"

abbrev pub reason_ready : String
reason_ready = "Ready"

abbrev pub reason_failed : String
reason_failed = "Failed"

abbrev pub reason_unrecoverable : String
reason_unrecoverable = "Unrecoverable"

-- Condition.Equal: all but the transition time.
unfoldable pub equal : Condition → Condition → Bool
equal c other =
    c.type == other.type
    && c.status == other.status
    && c.reason == other.reason
    && c.message == other.message
    && c.observed_generation == other.observed_generation

unfoldable pub is_true : Condition → Bool
is_true c = c.status == condition_true

-- NewCondition.
unfoldable pub new_condition : ℕ → String → String → String → Bytes → Condition
new_condition now t status reason msg = record {
  type = t;
  status = status;
  observed_generation = 0;
  last_transition_time = now;
  reason = reason;
  message = truncate_message msg max_message_bytes;
}

-- ReadyWithMsg.
unfoldable pub ready_with_msg : ℕ → Bytes → Condition
ready_with_msg now msg = new_condition now condition_type_ready condition_true reason_ready msg

-- ConditionedStatus.HasCondition.
unfoldable pub has_condition : String → List Condition → Bool
has_condition t [] = false
has_condition t (c ∷ cs) = if c.type == t then true else has_condition t cs

-- ConditionedStatus.GetCondition: the first of the type, or a False condition with nothing else.
unfoldable pub get_condition : String → List Condition → Condition
get_condition t [] = record {
  type = t;
  status = condition_false;
  observed_generation = 0;
  last_transition_time = 0;
  reason = "";
  message = [];
}
get_condition t (c ∷ cs) = if c.type == t then c else get_condition t cs

-- The inner loop of SetConditions: an entry of the type is replaced, until one is met that is equal
-- already. The flag is `exists`.
unfoldable pub set_existing : Condition → List Condition → List Condition × Bool
set_existing new [] = ([], false)
set_existing new (c ∷ cs) =
    let rest = set_existing new cs in
    if c.type == new.type
    then if equal c new then (c ∷ cs, true) else (new ∷ rest.0, true)
    else (c ∷ rest.0, rest.1)

unfoldable pub set_condition : Condition → List Condition → List Condition
unfolding set_existing
set_condition new cs = let r = set_existing new cs in if r.1 then r.0 else r.0 ++ new ∷ []

-- ConditionedStatus.SetConditions.
unfoldable pub set_conditions : List Condition → List Condition → List Condition
set_conditions [] cs = cs
set_conditions (new ∷ news) cs = set_conditions news (set_condition new cs)
