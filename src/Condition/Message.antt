-- ===== src/Condition/Message.antt =====
-- apis/condition/v1alpha1/message.go: messages are bounded, and cut at a rune boundary.
-- A string is its bytes. `max` is a Go int; below 0 the code does what it does at 0.
pub mod Runes
use config_server.Prelude.{
  Bool, Bool-cases, Bytes, [], arith, bytes_eq, dec_lt, eq_of_==, get_or, if◌then◌else◌, inl, inr,
  leb, length, length-append, length-take, ltb, nat_eq, not, refl, string_eq, suc, take, true, zero,
  ℕ, ◌&&◌, ◌++◌, ◌-◌, ◌<◌, ◌==◌, ◌∷◌, ◌≡◌, ◌≤◌, ◌⊎◌,
}

abbrev pub max_message_bytes : ℕ
max_message_bytes = 1024

abbrev pub truncated_suffix : Bytes
truncated_suffix = 46 ∷ 46 ∷ 46 ∷ []

-- utf8.RuneStart: every byte but a continuation byte, 10xxxxxx.
abbrev pub rune_start : ℕ → Bool
rune_start b = not (leb 128 b && ltb b 192)

-- The loop of `cutAtRune`: back from `n` to the start of a rune.
pub back_to_rune : Bytes → ℕ → ℕ
back_to_rune s zero = 0
back_to_rune s (suc n) =
    let rest = back_to_rune s n in if rune_start (get_or s (suc n) 0) then suc n else rest

pub cut_at_rune : Bytes → ℕ → Bytes
cut_at_rune s n = if leb (length s) n then s else take (back_to_rune s n) s

unfoldable pub truncate_message : Bytes → ℕ → Bytes
truncate_message msg max =
    if max == 0
    then []
    else if leb (length msg) max
    then msg
    else if leb max (length truncated_suffix)
    then cut_at_rune msg max
    else cut_at_rune msg (max - length truncated_suffix) ++ truncated_suffix

back_to_rune-le : (s : Bytes) (n : ℕ) → back_to_rune s n ≤ n
unfolding back_to_rune
back_to_rune-le s zero = omega arith
back_to_rune-le s (suc n) = ground (arith, back_to_rune-le s n)

length-cut_at_rune : (s : Bytes) (n : ℕ) → length (cut_at_rune s n) ≤ n
unfolding cut_at_rune
length-cut_at_rune s n = ground (arith, back_to_rune-le s n, length-take (back_to_rune s n) s)

-- A truncated message fits in `max` bytes, whatever the message, and one that fits already is left
-- alone.
pub truncate_message_bounded :
    (msg : Bytes) (max : ℕ)
    → (length (truncate_message msg max) ≤ max)
      × ((truncate_message msg max ≡ msg) ⊎ (max < length msg))
unfolding truncate_message
truncate_message_bounded msg max = (
  ground (
    arith,
    length-cut_at_rune msg max,
    length-cut_at_rune msg (max - 3),
    length-append (cut_at_rune msg (max - 3)) truncated_suffix,
  ),
  elim (dec_lt max (length msg)) [ yes long ↦ inr long | no short ↦ inl (kept (omega arith)) ],
)
  where
    empty : (s : Bytes) → length s ≤ 0 → [] ≡ s
    empty [] h = refl
    empty (x ∷ xs) h = absurd (omega arith)

    fits : (a b : ℕ) → a ≤ b → leb a b ≡ true
    fits a b h = ground arith

    kept : length msg ≤ max → truncate_message msg max ≡ msg
    kept h = elim (Bool-cases (max == 0)) [
      | inl z ↦ rw z (empty msg (omega (arith, eq_of_== max 0 z)))
      | inr p ↦ rw (p, fits (length msg) max h) refl
    ]
