-- ===== src/Instantiation/Manager/Laws.antt =====
-- The methods of TargetManager in pkg/sdc/target/manager/manager.go, on its map of runtimes.
use config_server.Prelude.{
  ==_self, Bool-cases, Option-cases, String, ap, bytes_eq, false, if◌then◌else◌, inl, inr, insert,
  lookup, lookup-insert, nat_eq, none, refl, some, string_eq, true, ◌==◌, ◌∙◌, ◌≡◌, ◌⊎◌,
}
use config_server.Instantiation.{Managed, Targets, key_eq}
use config_server.Instantiation.Manager.{
  apply_desired, desire, get_or_create, new_managed, retry_token, set_retry_token, start,
  with_runtime,
}
use config_server.Runtime.{set_desired, set_recovery_retry_token, wake}
use config_server.Transactor.{DatastoreRequest, Key}

pub get_or_create_found :
    (key : Key) (managed : Managed) (targets : Targets)
    → lookup key targets ≡ some managed
    → get_or_create key targets ≡ (managed, targets)
unfolding get_or_create
get_or_create_found key managed targets found = rw (found, get_or_create) refl

get_or_create_absent :
    (key : Key) (targets : Targets)
    → lookup key targets ≡ none
    → get_or_create key targets ≡ (new_managed, insert key new_managed targets)
unfolding get_or_create
get_or_create_absent key targets absent = rw (absent, get_or_create) refl

get_or_create_others :
    (key wanted : Key) (targets : Targets)
    → (key == wanted) ≡ false
    → lookup wanted (get_or_create key targets).1 ≡ lookup wanted targets
get_or_create_others key wanted targets other = elim (Option-cases (lookup key targets)) [
  | inl absent ↦
      rw (get_or_create_absent key targets absent)
        (lookup-insert key wanted new_managed targets ∙ rw other refl)
  | inr (managed, found) ↦ rw (get_or_create_found key managed targets found) refl
]

-- A method of a runtime that is created on demand changes that runtime only.
pub lookup-with_runtime :
    (key wanted : Key) (method : Managed → Managed) (targets : Targets)
    → lookup wanted (with_runtime key method targets) ≡ (
        if key == wanted
        then some (method (get_or_create key targets).0)
        else lookup wanted targets)
unfolding with_runtime
lookup-with_runtime key wanted method targets =
    let (managed, targets') = get_or_create key targets in
    let changed = lookup-insert key wanted (method managed) targets' in
    elim (Bool-cases (key == wanted)) [
      | inl same ↦ changed ∙ rw same refl
      | inr other ↦ changed ∙ rw other (get_or_create_others key wanted targets other)
    ]

pub with_runtime_current :
    (key : Key) (method : Managed → Managed) (targets : Targets)
    → get_or_create key (with_runtime key method targets)
      ≡ (method (get_or_create key targets).0, with_runtime key method targets)
with_runtime_current key method targets =
    get_or_create_found key _ _ (lookup-with_runtime key key method targets ∙ rw (==_self key) refl)

-- What a runtime has once it was asked for its token, its start and its desired state.
asked_lem :
    (req : DatastoreRequest) (hash token : String) (managed : Managed)
    → let asked = desire (some req) hash (start (retry_token token managed)) in
      (asked.started ≡ true)
      × (asked.stopping ≡ managed.stopping)
      × (asked.runtime ≡ record managed.runtime {
        desired = some req;
        desired_hash = hash;
        recovery_token = token;
        woken = true;
      })
unfolding desire start retry_token set_desired set_recovery_retry_token wake
asked_lem req hash token managed = elim (Bool-cases managed.started) [
  | inl on ↦ elim (Bool-cases (managed.runtime.recovery_token == token)) [
    | inl same ↦ rw (on, same) (refl, refl, refl)
    | inr new ↦ rw (on, new) (refl, refl, refl)
  ]
  | inr off ↦ elim (Bool-cases (managed.runtime.recovery_token == token)) [
    | inl same ↦ rw (off, same) (refl, refl, refl)
    | inr new ↦ rw (off, new) (refl, refl, refl)
  ]
]

-- The runtime that GetOrCreate returns.
get_or_create_lem :
    (key : Key) (targets : Targets)
    → (get_or_create key targets).0
      ≡ elim (lookup key targets) [ none ↦ new_managed | some managed ↦ managed ]
get_or_create_lem key targets = elim (Option-cases (lookup key targets)) [
  | inl absent ↦ rw (get_or_create_absent key targets absent, absent) refl
  | inr (managed, found) ↦ rw (get_or_create_found key managed targets found, found) refl
]

lookup-apply_desired_same :
    (key : Key) (req : DatastoreRequest) (hash token : String) (targets : Targets)
    → lookup key (apply_desired key req hash (set_retry_token key token targets))
      ≡ some (desire (some req) hash (start (retry_token token (get_or_create key targets).0)))
unfolding apply_desired set_retry_token
lookup-apply_desired_same key req hash token targets =
    let retried = set_retry_token key token targets in
    let started = with_runtime key start retried in
    let current : (get_or_create key started).0
        ≡ start (retry_token token (get_or_create key targets).0) =
      ap (λ (m : Managed × Targets). m.0) (with_runtime_current key start retried)
      ∙ ap (λ (m : Managed × Targets). start m.0)
          (with_runtime_current key (retry_token token) targets) in
    lookup-with_runtime key key (desire (some req) hash) started
    ∙ rw (==_self key) (ap (λ (m : Managed). some (desire (some req) hash m)) current)

pub get_or_create-apply_desired :
    (key : Key) (req : DatastoreRequest) (hash token : String) (targets : Targets)
    → let after = apply_desired key req hash (set_retry_token key token targets) in
      get_or_create key after
      ≡ (desire (some req) hash (start (retry_token token (get_or_create key targets).0)), after)
get_or_create-apply_desired key req hash token targets =
    get_or_create_found key _ _ (lookup-apply_desired_same key req hash token targets)

lookup-apply_desired :
    (key wanted : Key) (req : DatastoreRequest) (hash token : String) (targets : Targets)
    → (key == wanted) ≡ false
    → lookup wanted (apply_desired key req hash (set_retry_token key token targets))
      ≡ lookup wanted targets
unfolding apply_desired set_retry_token
lookup-apply_desired key wanted req hash token targets other =
    let retried = set_retry_token key token targets in
    let started = with_runtime key start retried in
    (lookup-with_runtime key wanted (desire (some req) hash) started ∙ rw other refl)
    ∙ (lookup-with_runtime key wanted start retried ∙ rw other refl)
    ∙ (lookup-with_runtime key wanted (retry_token token) targets ∙ rw other refl)

-- After SetRecoveryRetryToken and ApplyDesired for a target, the manager has a runtime for it whose
-- loop was started, which is woken, and which has the given request, hash and token; nothing else of it
-- changed, or it is a new one if there was none; and no other target's runtime changed.
pub apply_desired_current :
    (key wanted : Key) (req : DatastoreRequest) (hash token : String) (targets : Targets)
    → let before : Managed = elim (lookup key targets) [
      | none ↦ new_managed
      | some managed ↦ managed
    ] in
      let after = apply_desired key req hash (set_retry_token key token targets) in
      ((managed : Managed) × (lookup key after ≡ some managed)
        × (managed.started ≡ true)
        × (managed.stopping ≡ before.stopping)
        × (managed.runtime ≡ record before.runtime {
          desired = some req;
          desired_hash = hash;
          recovery_token = token;
          woken = true;
        }))
      × (((key == wanted) ≡ true) ⊎ (lookup wanted after ≡ lookup wanted targets))
apply_desired_current key wanted req hash token targets =
    let managed : Managed = elim (lookup key targets) [
      | none ↦ new_managed
      | some managed ↦ managed
    ] in
    let (started, kept, same) = asked_lem req hash token managed in
    (
      (
        desire (some req) hash (start (retry_token token managed)),
        lookup-apply_desired_same key req hash token targets
            ∙ ap (λ (m : Managed). some (desire (some req) hash (start (retry_token token m))))
                (get_or_create_lem key targets),
        started,
        kept,
        same,
      ),
      elim (Bool-cases (key == wanted)) [
        | inl itself ↦ inl itself
        | inr other ↦ inr (lookup-apply_desired key wanted req hash token targets other)
      ],
    )
