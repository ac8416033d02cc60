-- ===== src/Pcm/Params/Masks.antt =====
-- What the mask accessors of src/pcm.c do: a mask that is set to one bit tests as that bit alone.
use Prim.Native.Nat.{bit_or, bit_or-bitwise}
use tinyalsa.Base.{
  ℕ, zero, suc, ◌-◌, ◌/◌, ◌%◌, ◌^◌, ◌<◌, ◌≡◌, refl, ◌∙◌, Bool, true, false, List, ◌∷◌, arith, tests,
  Bool-cases, inl, inr, ltb, ◌==◌, ==_iff, if◌then◌else◌,
}
use tinyalsa.Pcm.Params.{only_bit, pcm_mask_test}

zero-bit_or : (x : ℕ) → bit_or 0 x ≡ x
zero-bit_or x = bit_or-bitwise 0 x

-- The test passes on all numbers under the bound.
passes : (ℕ → Bool) → ℕ → Bool
passes test zero = true
passes test (suc bound) = if test bound then passes test bound else false

passes-at :
    (test : ℕ → Bool) (bound : ℕ) {x : ℕ} → x < bound → passes test bound ≡ true → test x ≡ true
unfolding passes
passes-at test zero lt h = elim lt [ ]
passes-at test (suc bound) {x} lt h = ground (arith, passes-at test bound {x = x})

abbrev bit_at : ℕ → ℕ → ℕ
bit_at a b = 2 ^ a / 2 ^ b % 2

-- Of a word with one bit set, read bit by bit.
abbrev bit_is : ℕ → ℕ → Bool
bit_is a b = bit_at a b == (if a == b then 1 else 0)

word_table : passes (λ a. passes (bit_is a) 32) 32 ≡ true
unfolding passes
word_table = refl

power-bit : (a b : ℕ) → a < 32 → b < 32 → bit_at a b ≡ (if a == b then 1 else 0)
power-bit a b ha hb =
    let row = passes-at (λ a. passes (bit_is a) 32) 32 ha word_table in
    (==_iff _ _).0 (passes-at (bit_is a) 32 hb row)

-- In a mask of which only `bit` is set, exactly `bit` tests as set, among the first 64.
pub mask_test-only_bit :
    (a b : ℕ) (ws : List ℕ) (bit index : ℕ)
    → bit < 64
    → index < 64
    → pcm_mask_test (record { bits = only_bit (a ∷ b ∷ ws) bit }) index
      ≡ (if bit == index then 1 else 0)
unfolding pcm_mask_test
mask_test-only_bit a b ws bit index hb hi = elim (Bool-cases (ltb bit 32)) [
  | inl low ↦ elim (Bool-cases (ltb index 32)) [
    | inl low' ↦
        let e : bit / 32 ≡ 0 = omega tests in
        let e' : index / 32 ≡ 0 = omega tests in
        let r : bit % 32 ≡ bit = omega tests in
        let r' : index % 32 ≡ index = omega tests in
        rw (e, e', r, r', zero-bit_or) (power-bit bit index (omega tests) (omega tests))
    | inr high' ↦
        let e : bit / 32 ≡ 0 = ground arith in
        let e' : index / 32 ≡ 1 = ground arith in
        let apart : (bit == index) ≡ false = ground arith in rw (e, e', apart) (omega arith)
  ]
  | inr high ↦
      let e : bit / 32 ≡ 1 = ground arith in
      let r : bit % 32 ≡ bit - 32 = ground arith in
      elim (Bool-cases (ltb index 32)) [
        | inl low' ↦
            let e' : index / 32 ≡ 0 = omega tests in
            let apart : (bit == index) ≡ false = ground arith in rw (e, e', apart) (omega arith)
        | inr high' ↦
            let e' : index / 32 ≡ 1 = ground arith in
            let r' : index % 32 ≡ index - 32 = ground arith in
            let same : (bit - 32 == index - 32) ≡ (bit == index) = ground arith in
            rw (e, e', r, r', zero-bit_or)
              (power-bit (bit - 32) (index - 32) (ground arith) (ground arith) ∙ rw same)
      ]
]
