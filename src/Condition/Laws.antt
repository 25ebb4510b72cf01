-- ===== src/Condition/Laws.antt =====
-- What SetConditions of apis/condition/v1alpha1/condition.go keeps and changes.
use config_server.Prelude.{
  All, List, String, [], arith, bytes_eq, false, if◌then◌else◌, inl, inr, nat_eq, refl,
  string_discrete, string_eq, true, ◌++◌, ◌==◌, ◌||◌, ◌∷◌, ◌≡◌, ◌≢◌, ◌⊎◌,
}
use config_server.Condition.{
  Condition, equal, get_condition, has_condition, set_condition, set_existing,
}

-- No entry of the type.
abbrev pub Absent : String → List Condition → Type 0
Absent t = All (λ c. c.type ≢ t)

-- "Only one condition of each type may exist."
abbrev pub UniqueTypes : List Condition → Type 0
UniqueTypes [] = Unit {0}
UniqueTypes (c ∷ cs) = Absent c.type cs × UniqueTypes cs

pub equal_self : (c : Condition) → equal c c ≡ true
unfolding equal
equal_self c = ground arith

set_existing-exists :
    (new : Condition) (cs : List Condition) → (set_existing new cs).1 ≡ has_condition new.type cs
unfolding set_existing has_condition
set_existing-exists new [] = refl
set_existing-exists new (c ∷ cs) = ground (arith, set_existing-exists new cs)

set_existing_absent :
    (new : Condition) (cs : List Condition)
    → has_condition new.type cs ≡ false
    → (set_existing new cs).0 ≡ cs
unfolding set_existing has_condition
set_existing_absent new [] h = refl
set_existing_absent new (c ∷ cs) h = ground (arith, set_existing_absent new cs)

get_condition-set_existing :
    (new : Condition) (cs : List Condition)
    → has_condition new.type cs ≡ true
    → equal (get_condition new.type (set_existing new cs).0) new ≡ true
unfolding set_existing has_condition get_condition
get_condition-set_existing new [] h = cc
get_condition-set_existing new (c ∷ cs) h =
    ground (arith, equal_self new, get_condition-set_existing new cs)

get_condition-set_existing_ne :
    (t : String) (new : Condition) (cs : List Condition)
    → t ≢ new.type
    → get_condition t (set_existing new cs).0 ≡ get_condition t cs
unfolding set_existing get_condition
get_condition-set_existing_ne t new [] h = refl
get_condition-set_existing_ne t new (c ∷ cs) h =
    ground (arith, get_condition-set_existing_ne t new cs h)

pub get_condition-append :
    (t : String) (cs : List Condition) (new : Condition)
    → get_condition t (cs ++ new ∷ []) ≡ (
        if has_condition t cs
        then get_condition t cs
        else if new.type == t
        then new
        else get_condition t cs)
unfolding has_condition get_condition
get_condition-append t [] new = ground arith
get_condition-append t (c ∷ cs) new = ground (arith, get_condition-append t cs new)

-- What is found after a condition is set.
pub get_condition-set_condition :
    (new : Condition) (cs : List Condition)
    → (equal (get_condition new.type (set_condition new cs)) new ≡ true)
      × ((t : String) → t ≢ new.type → get_condition t (set_condition new cs) ≡ get_condition t cs)
unfolding set_condition
get_condition-set_condition new cs = (
  ground (
    arith,
    set_existing-exists new cs,
    set_existing_absent new cs,
    get_condition-set_existing new cs,
    get_condition-append new.type cs new,
    equal_self new,
  ),
  λ t h. ground (
    arith,
    set_existing-exists new cs,
    set_existing_absent new cs,
    get_condition-set_existing_ne t new cs h,
    get_condition-append t cs new,
  ),
)

has_condition-set_existing :
    (t : String) (new : Condition) (cs : List Condition)
    → has_condition t (set_existing new cs).0 ≡ has_condition t cs
unfolding set_existing has_condition
has_condition-set_existing t new [] = refl
has_condition-set_existing t new (c ∷ cs) = ground (arith, has_condition-set_existing t new cs)

has_condition-append :
    (t : String) (cs : List Condition) (new : Condition)
    → has_condition t (cs ++ new ∷ []) ≡ (has_condition t cs || new.type == t)
unfolding has_condition
has_condition-append t [] new = ground arith
has_condition-append t (c ∷ cs) new = ground (arith, has_condition-append t cs new)

-- Setting a condition adds its type to the types present, and no other.
pub has_condition-set_condition :
    (t : String) (new : Condition) (cs : List Condition)
    → has_condition t (set_condition new cs) ≡ (has_condition t cs || new.type == t)
unfolding set_condition
has_condition-set_condition t new cs = ground (
  arith,
  set_existing-exists new cs,
  set_existing_absent new cs,
  has_condition-set_existing t new cs,
  has_condition-append t cs new,
)

Absent-set_existing :
    (t : String) (new : Condition) (cs : List Condition)
    → t ≢ new.type
    → Absent t cs
    → Absent t (set_existing new cs).0
unfolding set_existing
Absent-set_existing t new [] h a = tt
Absent-set_existing t new (c ∷ cs) h a = ground (arith, Absent-set_existing t new cs h)

Absent-same :
    (new : Condition) (cs : List Condition) → Absent new.type cs → (set_existing new cs).0 ≡ cs
unfolding set_existing
Absent-same new [] a = refl
Absent-same new (c ∷ cs) a = ground (arith, Absent-same new cs)

set_existing-UniqueTypes :
    (new : Condition) (cs : List Condition) → UniqueTypes cs → UniqueTypes (set_existing new cs).0
unfolding set_existing
set_existing-UniqueTypes new [] u = tt
set_existing-UniqueTypes new (c ∷ cs) u =
    ground (
      arith,
      set_existing-UniqueTypes new cs,
      Absent-set_existing c.type new cs,
      Absent-same new cs,
    )

Absent-append :
    (t : String) (cs : List Condition) (new : Condition)
    → new.type ≢ t
    → Absent t cs
    → Absent t (cs ++ new ∷ [])
Absent-append t [] new h a = (h, tt)
Absent-append t (c ∷ cs) new h a = (a.0, Absent-append t cs new h a.1)

pub append-UniqueTypes :
    (new : Condition) (cs : List Condition)
    → has_condition new.type cs ≡ false
    → UniqueTypes cs
    → UniqueTypes (cs ++ new ∷ [])
unfolding has_condition
append-UniqueTypes new [] h u = (tt, tt)
append-UniqueTypes new (c ∷ cs) h u =
    ground (arith, append-UniqueTypes new cs, Absent-append c.type cs new)

-- Setting a condition keeps the list at one condition of each type.
pub set_condition-UniqueTypes :
    (new : Condition) (cs : List Condition) → UniqueTypes cs → UniqueTypes (set_condition new cs)
unfolding set_condition
set_condition-UniqueTypes new cs u = ground (
  arith,
  set_existing-exists new cs,
  set_existing_absent new cs,
  set_existing-UniqueTypes new cs u,
  append-UniqueTypes new cs,
)

set_existing_same :
    (new : Condition) (cs : List Condition)
    → equal (get_condition new.type cs) new ≡ true
    → (set_existing new cs).0 ≡ cs
unfolding set_existing get_condition
set_existing_same new [] h = refl
set_existing_same new (c ∷ cs) h = ground (arith, set_existing_same new cs)

-- A condition that is there already, up to the transition time, is not written, so the entry keeps
-- its transition time.
pub set_condition_noop :
    (new : Condition) (cs : List Condition)
    → has_condition new.type cs ≡ true
    → equal (get_condition new.type cs) new ≡ true
    → set_condition new cs ≡ cs
unfolding set_condition
set_condition_noop new cs p h =
    ground (arith, set_existing-exists new cs, set_existing_same new cs h)

-- A condition that is set is found under its type, up to the transition time; and what is found
-- under any other type is as before.
pub set_condition_lem :
    (new : Condition) (cs : List Condition) (t : String)
    → (equal (get_condition new.type (set_condition new cs)) new ≡ true)
      × ((t ≡ new.type) ⊎ (get_condition t (set_condition new cs) ≡ get_condition t cs))
set_condition_lem new cs t =
    let both = get_condition-set_condition new cs in
    (both.0, elim (string_discrete t new.type) [ yes e ↦ inl e | no p ↦ inr (both.1 t p) ])
