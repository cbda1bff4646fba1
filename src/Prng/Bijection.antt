-- ===== src/Prng/Bijection.antt =====
-- The mixing function and the transition of the generator are bijections of the 64-bit words.
use laige_cpp.Prelude.{ℕ, ◌*◌, ◌/◌, ◌^◌, bit_xor, ◌≡◌, refl, sym, ap, ◌∙◌, arith}
use laige_cpp.Prelude.Bits.{xor_assoc, xor_comm, xor_cancel}
use laige_cpp.Prng.{split_mix64, step_state, u64, multiplier_a, multiplier_b}
use laige_cpp.Prng.Shift.{
  IsWord, xor-IsWord, mixed, unmixed, unmixed-mixed, mixed-unmixed, shr_by, shl_by, shr_18, shr_27,
  shr_30, shr_31, shl_23, u64-IsWord, shr-IsWord, halved, mixed_shr, mixed_shl, unmixed_shr,
}

-- The inverse of the multipliers mod 2 ^ 64.
abbrev inverse_a : ℕ
inverse_a = 0x96de1b173f119089

abbrev inverse_b : ℕ
inverse_b = 0x319642b2d24d8ec3

scale_a :
    (x : ℕ)
    → IsWord x
    → (u64 (u64 (x * multiplier_a) * inverse_a) ≡ x)
      × (u64 (u64 (x * inverse_a) * multiplier_a) ≡ x)
scale_a x w = (omega arith, omega arith)

scale_b :
    (x : ℕ)
    → IsWord x
    → (u64 (u64 (x * multiplier_b) * inverse_b) ≡ x)
      × (u64 (u64 (x * inverse_b) * multiplier_b) ≡ x)
scale_b x w = (omega arith, omega arith)

-- The inverse of `split_mix64`, step by step.
pub unmix64 : ℕ → ℕ
unmix64 w = unmixed (shr_by 30) (shr_by 60) (
    u64 (
      unmixed (shr_by 27) (shr_by 54) (u64 (unmixed (shr_by 31) (shr_by 62) w * inverse_b))
      * inverse_a))

split_mix64_stages :
    (z : ℕ)
    → split_mix64 z
      ≡ mixed
          (shr_by 31)
          (u64 (mixed (shr_by 27) (u64 (mixed (shr_by 30) z * multiplier_a)) * multiplier_b))
unfolding split_mix64 mixed shr_by
split_mix64_stages z = refl

pub split_mix64-IsWord : (z : ℕ) → IsWord (split_mix64 z)
split_mix64-IsWord z = rw (split_mix64_stages z) (mixed_shr 31 _ (u64-IsWord _))

-- `split_mix64` is a bijection of the 64-bit words: `unmix64` undoes it on both sides.
pub unmix64-split_mix64 :
    (z : ℕ) → IsWord z → (unmix64 (split_mix64 z) ≡ z) × (split_mix64 (unmix64 z) ≡ z)
unfolding unmix64
unmix64-split_mix64 z w = (forth, back)
  where
    x1 : ℕ
    x1 = mixed (shr_by 30) z

    x2 : ℕ
    x2 = u64 (x1 * multiplier_a)

    x3 : ℕ
    x3 = mixed (shr_by 27) x2

    x4 : ℕ
    x4 = u64 (x3 * multiplier_b)

    forth : unmix64 (split_mix64 z) ≡ z
    forth =
        ap unmix64 (split_mix64_stages z)
        ∙ ap
            (λ y.
              unmixed (shr_by 30) (shr_by 60)
                (u64 (unmixed (shr_by 27) (shr_by 54) (u64 (y * inverse_b)) * inverse_a)))
            (unmixed-mixed (shr_by 31) (shr_by 62) shr_31 x4 (u64-IsWord _))
        ∙ ap
            (λ y.
              unmixed (shr_by 30) (shr_by 60) (u64 (unmixed (shr_by 27) (shr_by 54) y * inverse_a)))
            (scale_b x3 (mixed_shr 27 x2 (u64-IsWord _))).0
        ∙ ap (λ y. unmixed (shr_by 30) (shr_by 60) (u64 (y * inverse_a)))
            (unmixed-mixed (shr_by 27) (shr_by 54) shr_27 x2 (u64-IsWord _))
        ∙ ap (unmixed (shr_by 30) (shr_by 60)) (scale_a x1 (mixed_shr 30 z w)).0
        ∙ unmixed-mixed (shr_by 30) (shr_by 60) shr_30 z w

    y1 : ℕ
    y1 = unmixed (shr_by 31) (shr_by 62) z

    y2 : ℕ
    y2 = u64 (y1 * inverse_b)

    y3 : ℕ
    y3 = unmixed (shr_by 27) (shr_by 54) y2

    y4 : ℕ
    y4 = u64 (y3 * inverse_a)

    back : split_mix64 (unmix64 z) ≡ z
    back =
        split_mix64_stages (unmix64 z)
        ∙ ap
            (λ y.
              mixed (shr_by 31) (u64 (mixed (shr_by 27) (u64 (y * multiplier_a)) * multiplier_b)))
            (mixed-unmixed (shr_by 30) (shr_by 60) shr_30 y4 (u64-IsWord _))
        ∙ ap (λ y. mixed (shr_by 31) (u64 (mixed (shr_by 27) y * multiplier_b)))
            (scale_a y3 (unmixed_shr 27 54 y2 (u64-IsWord _))).1
        ∙ ap (λ y. mixed (shr_by 31) (u64 (y * multiplier_b)))
            (mixed-unmixed (shr_by 27) (shr_by 54) shr_27 y2 (u64-IsWord _))
        ∙ ap (mixed (shr_by 31)) (scale_b y1 (unmixed_shr 31 62 z w)).1
        ∙ mixed-unmixed (shr_by 31) (shr_by 62) shr_31 z w

-- The inverse of the transition.
pub unstep : ℕ × ℕ → ℕ × ℕ
unstep (p, q) =
    let w = bit_xor p (bit_xor (p / 2 ^ 5) q) in
    (unmixed (shl_by 23) (shl_by 46) (unmixed (shr_by 18) (shr_by 36) w), p)

abbrev pub IsState : ℕ × ℕ → Type 0
IsState s = IsWord s.0 × IsWord s.1

xor_swap : (a b c : ℕ) → bit_xor (bit_xor a b) c ≡ bit_xor (bit_xor a c) b
xor_swap a b c = xor_assoc a b c ∙ ap (bit_xor a) (xor_comm b c) ∙ sym (xor_assoc a c b)

xor_strip : (a b m : ℕ) → bit_xor a (bit_xor b (bit_xor (bit_xor m a) b)) ≡ m
xor_strip a b m =
    ap (λ y. bit_xor a (bit_xor b y)) (xor_comm (bit_xor m a) b)
    ∙ ap (bit_xor a) (xor_cancel b (bit_xor m a) ∙ xor_comm m a)
    ∙ xor_cancel a m

xor_restore : (a b q : ℕ) → bit_xor (bit_xor (bit_xor a (bit_xor b q)) a) b ≡ q
xor_restore a b q =
    ap (λ y. bit_xor y b) (xor_comm (bit_xor a (bit_xor b q)) a ∙ xor_cancel a (bit_xor b q))
    ∙ xor_comm (bit_xor b q) b
    ∙ xor_cancel b q

step_state_stages :
    (o0 o1 : ℕ)
    → step_state (o0, o1)
      ≡ (o1, bit_xor (bit_xor (mixed (shr_by 18) (mixed (shl_by 23) o0)) o1) (o1 / 2 ^ 5))
unfolding step_state mixed shr_by shl_by
step_state_stages o0 o1 =
    ap (λ y. (o1, bit_xor y (o1 / 2 ^ 5)))
      (xor_swap (mixed (shl_by 23) o0) o1 (mixed (shl_by 23) o0 / 2 ^ 18))

pub step_state-IsState : (s : ℕ × ℕ) → IsState s → IsState (step_state s)
unfolding shr_by
step_state-IsState (o0, o1) (w0, w1) = rw (step_state_stages o0 o1) (
  w1,
  xor-IsWord _ _ (xor-IsWord _ _ (mixed_shr 18 _ (mixed_shl 23 o0 w0)) w1) (shr-IsWord 5 o1 w1),
)

-- The transition is a bijection of the states: `unstep` undoes it on both sides.
pub unstep-step_state :
    (s : ℕ × ℕ) → IsState s → (unstep (step_state s) ≡ s) × (step_state (unstep s) ≡ s)
unfolding unstep
unstep-step_state (p, q) (wp, wq) = (forth, back)
  where
    m : ℕ
    m = mixed (shr_by 18) (mixed (shl_by 23) p)

    forth : unstep (step_state (p, q)) ≡ (p, q)
    forth =
        ap unstep (step_state_stages p q)
        ∙ ap (λ y. (unmixed (shl_by 23) (shl_by 46) (unmixed (shr_by 18) (shr_by 36) y), q))
            (xor_strip q (q / 2 ^ 5) m)
        ∙ ap (λ y. (unmixed (shl_by 23) (shl_by 46) y, q))
            (unmixed-mixed (shr_by 18) (shr_by 36) shr_18 _ (mixed_shl 23 p wp))
        ∙ ap (λ y. (y, q)) (unmixed-mixed (shl_by 23) (shl_by 46) shl_23 p wp)

    w : ℕ
    w = bit_xor p (bit_xor (p / 2 ^ 5) q)

    w-IsWord : IsWord w
    w-IsWord = xor-IsWord p _ wp (xor-IsWord _ q (halved 5 p wp) wq)

    back : step_state (unstep (p, q)) ≡ (p, q)
    back =
        step_state_stages (unmixed (shl_by 23) (shl_by 46) (unmixed (shr_by 18) (shr_by 36) w)) p
        ∙ ap (λ y. (p, bit_xor (bit_xor (mixed (shr_by 18) y) p) (p / 2 ^ 5)))
            (mixed-unmixed (shl_by 23) (shl_by 46) shl_23 _ (unmixed_shr 18 36 w w-IsWord))
        ∙ ap (λ y. (p, bit_xor (bit_xor y p) (p / 2 ^ 5)))
            (mixed-unmixed (shr_by 18) (shr_by 36) shr_18 w w-IsWord)
        ∙ ap (λ y. (p, y)) (xor_restore p (p / 2 ^ 5) q)

pub unmix64-zero : unmix64 0 ≡ 0
unfolding unmix64 unmixed mixed shr_by
unmix64-zero = refl

pub unstep-zero : unstep (0, 0) ≡ (0, 0)
unfolding unstep unmixed mixed shr_by shl_by
unstep-zero = refl

-- The second word is the one that was first.
pub unstep_second : (s : ℕ × ℕ) → (unstep s).1 ≡ s.0
unfolding unstep
unstep_second s = refl
