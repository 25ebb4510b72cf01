-- ===== src/Condition/Message/Runes.antt =====
-- Where apis/condition/v1alpha1/message.go cuts: between two runes, as late as the limit allows.
use config_server.Prelude.{
  All, Bool-cases, Bytes, List, [], ap, arith, concat, dec_lt, false, get_or, get_or-append_left,
  get_or-append_right, inl, inr, leb, length, length-append, length-take, refl, suc, sym, take,
  take-append_right, take_all, true, zero, ℕ, ◌++◌, ◌+◌, ◌-◌, ◌<◌, ◌∙◌, ◌∷◌, ◌≡◌, ◌≤◌, ◌⊎◌,
}
use config_server.Condition.Message.{back_to_rune, back_to_rune-le, cut_at_rune, rune_start}

-- The form of an encoded rune: a start byte, then continuation bytes.
abbrev pub IsRune : Bytes → Type 0
IsRune [] = ⊥
IsRune (b ∷ bs) = (rune_start b ≡ true) × All (λ c. rune_start c ≡ false) bs

get_or-All :
    (bs : Bytes) (p : ℕ)
    → All (λ c. rune_start c ≡ false) bs
    → p < length bs
    → rune_start (get_or bs p 0) ≡ false
get_or-All [] p a h = absurd (omega arith)
get_or-All (b ∷ bs) zero a h = a.0
get_or-All (b ∷ bs) (suc p) a h = get_or-All bs p a.1 (omega arith)

skip_rune :
    (b : ℕ) (bs : Bytes) (rs : List Bytes) (p q k : ℕ)
    → p ≡ length bs + q
    → take q (concat rs) ≡ concat (take k rs)
    → take (suc p) (concat ((b ∷ bs) ∷ rs)) ≡ concat (take (suc k) ((b ∷ bs) ∷ rs))
skip_rune b bs rs p q k at f =
    ap (◌∷◌ b) (rw at (take-append_right q bs (concat rs) ∙ ap (◌++◌ bs) f))

-- A position inside the text where a rune starts is the end of a number of whole runes.
boundary :
    (rs : List Bytes) (p : ℕ)
    → All IsRune rs
    → p < length (concat rs)
    → rune_start (get_or (concat rs) p 0) ≡ true
    → (k : ℕ) × (take p (concat rs) ≡ concat (take k rs))
boundary [] p a h e = absurd (omega arith)
boundary ([] ∷ rs) p a h e = absurd a.0
boundary ((b ∷ bs) ∷ rs) zero a h e = (0, refl)
boundary ((b ∷ bs) ∷ rs) (suc p) a h e = elim (dec_lt p (length bs)) [
  | yes inside ↦ cc (e, get_or-append_left p bs (concat rs) 0 inside, get_or-All bs p a.0.1 inside)
  | no outside ↦
      let q = p - length bs in
      let at : p ≡ length bs + q = omega arith in
      let found =
        boundary rs q a.1 (omega (arith, length-append bs (concat rs)))
          (rw (← get_or-append_right q bs (concat rs) 0) (rw (← at) e)) in
      (suc found.0, skip_rune b bs rs p q found.0 at found.1)
]

-- Where a rune starts, and not only after it.
rune_boundary :
    (rs : List Bytes) (k : ℕ)
    → All IsRune rs
    → length (concat (take k rs)) < length (concat rs)
    → rune_start (get_or (concat rs) (length (concat (take k rs))) 0) ≡ true
rune_boundary [] zero a h = absurd (omega arith)
rune_boundary [] (suc k) a h = absurd (omega arith)
rune_boundary ([] ∷ rs) k a h = absurd a.0
rune_boundary ((b ∷ bs) ∷ rs) zero a h = a.0.0
rune_boundary ((b ∷ bs) ∷ rs) (suc k) a h =
    let front = length-append bs (concat (take k rs)) in
    let whole = length-append bs (concat rs) in
    rw (front, get_or-append_right (length (concat (take k rs))) bs (concat rs) 0)
      (rune_boundary rs k a.1 (omega (arith, front, whole)))

back_to_rune-start :
    (s : Bytes) (n : ℕ)
    → (back_to_rune s n ≡ 0) ⊎ (rune_start (get_or s (back_to_rune s n) 0) ≡ true)
unfolding back_to_rune
back_to_rune-start s zero = inl refl
back_to_rune-start s (suc n) = elim (Bool-cases (rune_start (get_or s (suc n) 0))) [
  | inl e ↦ inr (rw (e, back_to_rune) e)
  | inr e ↦ rw (e, back_to_rune) (back_to_rune-start s n)
]

back_to_rune-last :
    (s : Bytes) (n p : ℕ) → p ≤ n → rune_start (get_or s p 0) ≡ true → p ≤ back_to_rune s n
unfolding back_to_rune
back_to_rune-last s zero p h e = h
back_to_rune-last s (suc n) p h e = elim (dec_lt p (suc n)) [
  | yes below ↦ elim (Bool-cases (rune_start (get_or s (suc n) 0))) [
    | inl t ↦ rw (t, back_to_rune) h
    | inr f ↦ rw (f, back_to_rune) (back_to_rune-last s n p (omega arith) e)
  ]
  | no above ↦
      let at : suc n ≡ p = omega arith in
      let starts : rune_start (get_or s (suc n) 0) ≡ true = rw at e in rw (starts, back_to_rune) h
]

length-concat-take : (rs : List Bytes) (j : ℕ) → length (concat (take j rs)) ≤ length (concat rs)
length-concat-take [] zero = omega arith
length-concat-take [] (suc j) = omega arith
length-concat-take (r ∷ rs) zero = omega arith
length-concat-take (r ∷ rs) (suc j) = omega (
  arith,
  length-append r (concat (take j rs)),
  length-append r (concat rs),
  length-concat-take rs j,
)

-- A text of whole runes is cut between two runes: what is left is a number of its whole runes, and
-- every number of whole runes that fits in `n` bytes is no longer than what is left.
pub cut_at_rune_whole :
    (rs : List Bytes) (n j : ℕ)
    → All IsRune rs
    → length (concat (take j rs)) ≤ n
    → ((k : ℕ) × (cut_at_rune (concat rs) n ≡ concat (take k rs)))
      × (length (concat (take j rs)) ≤ length (cut_at_rune (concat rs) n))
unfolding cut_at_rune
cut_at_rune_whole rs n j a h = elim (Bool-cases (leb (length (concat rs)) n)) [
  | inl fits ↦ (
    (length rs, rw fits (ap concat (sym (take_all (length rs) rs (omega arith))))),
    rw fits (length-concat-take rs j),
  )
  | inr long ↦
      let over : n < length (concat rs) = ground arith in
      let back = back_to_rune-le (concat rs) n in
      (
        elim (back_to_rune-start (concat rs) n) [
          | inl none_left ↦ (0, rw (long, none_left))
          | inr starts ↦
              let found = boundary rs (back_to_rune (concat rs) n) a (omega arith) starts in
              (found.0, rw long found.1)
        ],
        let last =
              back_to_rune-last (concat rs) n (length (concat (take j rs))) h
                (rune_boundary rs j a (omega arith)) in
            rw (long, length-take (back_to_rune (concat rs) n) (concat rs)) (omega arith),
      )
]
