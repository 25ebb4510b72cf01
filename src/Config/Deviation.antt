-- ===== src/Config/Deviation.antt =====
-- apis/config/deviation_helper.go: the names of Deviation resources.
use config_server.Prelude.{
  ==_self, List, Option, String, [], ap, arith, bytes_eq, if◌then◌else◌, nat_eq, none, some,
  string_eq, sym, ◌<>◌, ◌==◌, ◌∙◌, ◌∷◌, ◌≡◌, ◌≢◌,
}
use Prim.Native.Char.{code}
use text.Mathlib.TextEquality.{Char-path}
use text.Mathlib.TextLemmas.{nil-append, cons-append, append_assoc}
use mathlib.Core.Path.{ap₂}
use mathlib.Core.Option

pub data DeviationType : Type 0 where
  config_deviation target_deviation : DeviationType

-- The string of a DeviationType.
unfoldable pub type_string : DeviationType → String
type_string config_deviation = "config"
type_string target_deviation = "target"

unfoldable pub deviation_name : DeviationType → String → String
unfolding type_string
deviation_name typ resource = type_string typ <> "-" <> resource

-- strings.CutPrefix.
unfoldable pub cut_prefix : String → String → Option String
cut_prefix s String.[] = some s
cut_prefix String.[] (String.◌∷◌ p ps) = none
cut_prefix (String.◌∷◌ c s) (String.◌∷◌ p ps) = if code c == code p then cut_prefix s ps else none

-- `found && rest != ""`.
unfoldable pub proper_rest : Option String → Option String
proper_rest none = none
proper_rest (some rest) = if rest == "" then none else some rest

-- The loop over the known types; `none` is `ok = false`.
unfoldable pub parse_types : List DeviationType → String → Option (DeviationType × String)
unfolding type_string cut_prefix proper_rest
parse_types [] name = none
parse_types (typ ∷ typs) name = elim (proper_rest (cut_prefix name (type_string typ <> "-"))) [
  | some rest ↦ some (typ, rest)
  | none ↦ parse_types typs name
]

unfoldable pub parse_deviation_name : String → Option (DeviationType × String)
unfolding parse_types
parse_deviation_name name = parse_types (config_deviation ∷ target_deviation ∷ []) name

cut_prefix-append : (p s : String) → cut_prefix (p <> s) p ≡ some s
unfolding cut_prefix
cut_prefix-append String.[] s = ap some (nil-append s)
cut_prefix-append (String.◌∷◌ c p) s =
    rw (cons-append c p s) (rw (==_self (code c)) (cut_prefix-append p s))

-- What is cut off is the prefix.
cut_prefix-eq-some : (s p : String) (r : String) → cut_prefix s p ≡ some r → s ≡ p <> r
unfolding cut_prefix
cut_prefix-eq-some s String.[] r h = Option.some-injective s r h ∙ sym (nil-append r)
cut_prefix-eq-some String.[] (String.◌∷◌ c p) r h = cc
cut_prefix-eq-some (String.◌∷◌ d s) (String.◌∷◌ c p) r h =
    let f : (code d ≡ code c) × (cut_prefix s p ≡ some r) = ground arith in
    ap₂ String.◌∷◌ (Char-path d c f.0) (cut_prefix-eq-some s p r f.1) ∙ sym (cons-append c p r)

cut_prefix-type :
    (typ : DeviationType) (r : String)
    → cut_prefix (deviation_name typ r) (type_string typ <> "-") ≡ some r
unfolding deviation_name
cut_prefix-type typ r =
    rw (← append_assoc (type_string typ) "-" r) (cut_prefix-append (type_string typ <> "-") r)

-- No name of one type has the prefix of the other.
cut_prefix_config_target : (x : String) → cut_prefix ("target" <> x) "config-" ≡ none
unfolding cut_prefix
cut_prefix_config_target x = rw (cons-append "t" "arget" x) (ground arith)

proper_rest-some :
    (o : Option String) (r : String) → proper_rest o ≡ some r → (o ≡ some r) × (r ≢ "")
unfolding proper_rest
proper_rest-some none r h = cc
proper_rest-some (some x) r h = ground arith

-- ParseDeviationName undoes DeviationName for every resource name that is not empty.
pub parse_deviation_name-deviation_name :
    (typ : DeviationType) (resource : String)
    → resource ≢ ""
    → parse_deviation_name (deviation_name typ resource) ≡ some (typ, resource)
unfolding parse_deviation_name deviation_name
parse_deviation_name-deviation_name config_deviation resource h =
    ground (arith, cut_prefix-type config_deviation resource)
parse_deviation_name-deviation_name target_deviation resource h =
    ground
      (arith, cut_prefix-type target_deviation resource, cut_prefix_config_target ("-" <> resource))

-- What ParseDeviationName accepts is the name that DeviationName builds from its answer.
pub deviation_name-parse_deviation_name :
    (name : String) (typ : DeviationType) (resource : String)
    → parse_deviation_name name ≡ some (typ, resource)
    → deviation_name typ resource ≡ name
unfolding parse_deviation_name deviation_name
deviation_name-parse_deviation_name name config_deviation resource h =
    ground (arith, cut_prefix-eq-some name "config-" resource, append_assoc "config" "-" resource)
deviation_name-parse_deviation_name name target_deviation resource h =
    ground (arith, cut_prefix-eq-some name "target-" resource, append_assoc "target" "-" resource)
