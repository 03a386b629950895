-- ===== src/Buffer/Growth.antt =====
-- The growth of the buffer's storage by doubling.
use libkmip.Base.{
  ℕ, zero, suc, ◌*◌, ◌%◌, ◌^◌, ◌≤◌, ◌<◌, ◌≡◌, refl, ap, ◌⊎◌, inl, inr, arith, Bool-cases, ltb,
}
use libkmip.Buffer.{double_until}
use native.Mathlib.Decide.{dec_le}
use native.Mathlib.Nat.{pow-suc, pow-le-pow_right}

-- One round fits 64 bits while the number sought is at most 2 ^ 63.
round_fits : (c r : ℕ) → c < r → r ≤ 2 ^ 63 → c * 2 % 2 ^ 64 ≡ c * 2
round_fits c r h k = omega arith

doubled : (fuel c : ℕ) → c * 2 ^ suc fuel ≡ c * 2 * 2 ^ fuel
doubled fuel c = omega (arith, ap (λ (t : ℕ). c * t) (pow-suc 2 fuel))

pub double_until-ge : (fuel c r : ℕ) → r ≤ 2 ^ 63 → r ≤ c * 2 ^ fuel → r ≤ double_until fuel c r
unfolding double_until
double_until-ge zero c r k h = omega arith
double_until-ge (suc fuel) c r k h = elim (Bool-cases (ltb c r)) [
  | inl short ↦
      rw (short, round_fits c r (ground arith) k)
        (double_until-ge fuel (c * 2) r k (omega (arith, doubled fuel c)))
  | inr enough ↦ rw enough (ground arith)
]

-- It never doubles past twice the number sought.
pub double_until-le :
    (fuel c r : ℕ) → r ≤ 2 ^ 63 → (double_until fuel c r ≡ c) ⊎ (double_until fuel c r < 2 * r)
unfolding double_until
double_until-le zero c r k = inl refl
double_until-le (suc fuel) c r k = elim (Bool-cases (ltb c r)) [
  | inl short ↦
      rw (short, round_fits c r (ground arith) k) (ground (arith, double_until-le fuel (c * 2) r k))
  | inr enough ↦ rw enough (inl refl)
]

-- From a power of two it reaches a power of two.
pub double_until-pow : (fuel n r : ℕ) → r ≤ 2 ^ 63 → (m : ℕ) × (double_until fuel (2 ^ n) r ≡ 2 ^ m)
unfolding double_until
double_until-pow zero n r k = (n, refl)
double_until-pow (suc fuel) n r k = elim (Bool-cases (ltb (2 ^ n) r)) [
  | inl short ↦
      rw (short, round_fits (2 ^ n) r (ground arith) k, ← pow-suc 2 n)
        (double_until-pow fuel (suc n) r k)
  | inr enough ↦ rw enough (n, refl)
]

-- A power of two above 2 ^ 26 is above 100 MB.
pub pow_above : (m : ℕ) → 2 ^ 26 < 2 ^ m → 100 * 1024 * 1024 < 2 ^ m
pow_above m h = elim (dec_le 27 m) [
  | yes far ↦ omega (arith, pow-le-pow_right {n = 2} (omega arith) far)
  | no near ↦
      absurd (omega (arith, pow-le-pow_right {n = 2} (omega arith) {i = m} {j = 26} (omega arith)))
]
