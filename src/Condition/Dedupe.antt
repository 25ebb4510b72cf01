-- ===== src/Condition/Dedupe.antt =====
-- DedupeConditions of apis/condition/v1alpha1/condition.go. The index maps a type to its place.
use config_server.Prelude.{
  List, Option, Option-cases, String, [], ap, arith, bytes_eq, false, if◌then◌else◌, inl, inr,
  insert, length, lookup, lookup-insert, nat_eq, none, refl, reverse, set, some, string_eq, suc,
  sym, zero, ℕ, ◌++◌, ◌==◌, ◌∙◌, ◌∷◌, ◌≡◌, ◌≢◌,
}
use config_server.Condition.{Condition, get_condition, has_condition}
use config_server.Condition.Laws.{Absent, UniqueTypes, append-UniqueTypes, get_condition-append}
use mathlib.Core.Option
use mathlib.Core.List.{reverse-cons, append_assoc, append-nil}

pub dedupe_from : List (String × ℕ) → List Condition → List Condition → List Condition
dedupe_from index out [] = out
dedupe_from index out (c ∷ cs) = elim (lookup c.type index) [
  | some i ↦ dedupe_from index (set out i c) cs
  | none ↦ dedupe_from (insert c.type (length out) index) (out ++ c ∷ []) cs
]

unfoldable pub dedupe_conditions : List Condition → List Condition
unfolding dedupe_from
dedupe_conditions conds = dedupe_from [] [] conds

-- The place of the first condition of a type.
position : String → List Condition → Option ℕ
position t [] = none
position t (c ∷ cs) = if c.type == t then some 0 else Option.map (λ i. suc i) (position t cs)

position-append :
    (t : String) (cs : List Condition) (c : Condition)
    → position t (cs ++ c ∷ []) ≡ elim (position t cs) [
      | some i ↦ some i
      | none ↦ (if c.type == t then some (length cs) else none)
    ]
unfolding position
position-append t [] c = ground arith
position-append t (x ∷ cs) c = ground (arith, position-append t cs c)

position-set :
    (t : String) (cs : List Condition) (c : Condition) (i : ℕ)
    → position c.type cs ≡ some i
    → position t (set cs i c) ≡ position t cs
unfolding position
position-set t [] c i h = refl
position-set t (x ∷ cs) c zero h = ground arith
position-set t (x ∷ cs) c (suc i) h = ground (arith, position-set t cs c i)

get_condition-set :
    (t : String) (cs : List Condition) (c : Condition) (i : ℕ)
    → position c.type cs ≡ some i
    → get_condition t (set cs i c) ≡ get_condition t (c ∷ cs)
unfolding position get_condition
get_condition-set t [] c i h = cc
get_condition-set t (x ∷ cs) c zero h = ground arith
get_condition-set t (x ∷ cs) c (suc i) h = ground (arith, get_condition-set t cs c i)

Absent-set :
    (t : String) (cs : List Condition) (c : Condition) (i : ℕ)
    → c.type ≢ t
    → Absent t cs
    → Absent t (set cs i c)
Absent-set t [] c i h a = tt
Absent-set t (x ∷ cs) c zero h a = (h, a.1)
Absent-set t (x ∷ cs) c (suc i) h a = (a.0, Absent-set t cs c i h a.1)

get_condition-++ :
    (t : String) (xs ys : List Condition)
    → get_condition t (xs ++ ys)
      ≡ (if has_condition t xs then get_condition t xs else get_condition t ys)
unfolding get_condition has_condition
get_condition-++ t [] ys = refl
get_condition-++ t (x ∷ xs) ys = ground (arith, get_condition-++ t xs ys)

-- The index agrees with the output.
abbrev Indexed : List (String × ℕ) → List Condition → Type 0
Indexed index out = (t : String) → lookup t index ≡ position t out

Indexed-set :
    (index : List (String × ℕ)) (out : List Condition) (c : Condition) (i : ℕ)
    → Indexed index out
    → lookup c.type index ≡ some i
    → Indexed index (set out i c)
Indexed-set index out c i ix e t = ix t ∙ sym (position-set t out c i (sym (ix c.type) ∙ e))

Indexed-append :
    (index : List (String × ℕ)) (out : List Condition) (c : Condition)
    → Indexed index out
    → lookup c.type index ≡ none
    → Indexed (insert c.type (length out) index) (out ++ c ∷ [])
Indexed-append index out c ix e t =
    ground
      (arith, ix t, ix c.type, lookup-insert c.type t (length out) index, position-append t out c)

has_condition-position :
    (t : String) (cs : List Condition) → position t cs ≡ none → has_condition t cs ≡ false
unfolding position has_condition
has_condition-position t [] h = refl
has_condition-position t (c ∷ cs) h = ground (arith, has_condition-position t cs)

get_condition_added :
    (t : String) (out : List Condition) (c : Condition)
    → position c.type out ≡ none
    → get_condition t (out ++ c ∷ []) ≡ get_condition t (c ∷ out)
unfolding get_condition
get_condition_added t out c h =
    rw (get_condition-append t out c) (ground (arith, has_condition-position c.type out h))

get_condition-reverse :
    (t : String) (cs out out' : List Condition) (c : Condition)
    → get_condition t out' ≡ get_condition t (c ∷ out)
    → get_condition t (reverse cs ++ out') ≡ get_condition t (reverse (c ∷ cs) ++ out)
get_condition-reverse t cs out out' c h = rw (
  reverse-cons c cs,
  append_assoc (reverse cs) (c ∷ []) out,
  get_condition-++ t (reverse cs) out',
  get_condition-++ t (reverse cs) (c ∷ out),
  h,
)

dedupe_from-last :
    (t : String) (index : List (String × ℕ)) (out cs : List Condition)
    → Indexed index out
    → get_condition t (dedupe_from index out cs) ≡ get_condition t (reverse cs ++ out)
unfolding dedupe_from
dedupe_from-last t index out [] ix = refl
dedupe_from-last t index out (c ∷ cs) ix = elim (Option-cases (lookup c.type index)) [
  | inl e ↦
      rw (e, dedupe_from)
        (dedupe_from-last t (insert c.type (length out) index) (out ++ c ∷ []) cs
            (Indexed-append index out c ix e)
          ∙ get_condition-reverse t cs out (out ++ c ∷ []) c
              (get_condition_added t out c (sym (ix c.type) ∙ e)))
  | inr (i, e) ↦
      rw (e, dedupe_from)
        (dedupe_from-last t index (set out i c) cs (Indexed-set index out c i ix e)
          ∙ get_condition-reverse t cs out (set out i c) c
              (get_condition-set t out c i (sym (ix c.type) ∙ e)))
]

UniqueTypes-set :
    (cs : List Condition) (c : Condition) (i : ℕ)
    → position c.type cs ≡ some i
    → UniqueTypes cs
    → UniqueTypes (set cs i c)
unfolding position
UniqueTypes-set [] c i h u = tt
UniqueTypes-set (x ∷ cs) c zero h u = ground arith
UniqueTypes-set (x ∷ cs) c (suc i) h u =
    ground (arith, UniqueTypes-set cs c i, Absent-set x.type cs c i)

dedupe_from-UniqueTypes :
    (index : List (String × ℕ)) (out cs : List Condition)
    → Indexed index out
    → UniqueTypes out
    → UniqueTypes (dedupe_from index out cs)
unfolding dedupe_from
dedupe_from-UniqueTypes index out [] ix u = u
dedupe_from-UniqueTypes index out (c ∷ cs) ix u = elim (Option-cases (lookup c.type index)) [
  | inl e ↦
      rw (e, dedupe_from)
        (dedupe_from-UniqueTypes (insert c.type (length out) index) (out ++ c ∷ []) cs
          (Indexed-append index out c ix e)
          (append-UniqueTypes c out (has_condition-position c.type out (sym (ix c.type) ∙ e)) u))
  | inr (i, e) ↦
      rw (e, dedupe_from)
        (dedupe_from-UniqueTypes index (set out i c) cs (Indexed-set index out c i ix e)
          (UniqueTypes-set out c i (sym (ix c.type) ∙ e) u))
]

-- The output has one condition of each type, and under every type it has what the input has last
-- under that type: the last value wins.
pub dedupe_conditions_last :
    (conds : List Condition)
    → UniqueTypes (dedupe_conditions conds)
      × ((t : String) → get_condition t (dedupe_conditions conds) ≡ get_condition t (reverse conds))
unfolding dedupe_conditions
dedupe_conditions_last conds = (
  dedupe_from-UniqueTypes [] [] conds (λ t. start t) tt,
  λ t.
      dedupe_from-last t [] [] conds (λ u. start u)
      ∙ ap (get_condition t) (append-nil (reverse conds)),
)
  where
    start : (t : String) → lookup {V = ℕ} t [] ≡ position t []
    start t = unfold lookup position in refl
