-- ===== src/Common/Bits.antt =====
-- `|` of fields that do not overlap is a sum, at every width.
use Prim.Native.Nat.{ℕ, zero, suc, ◌+◌, ◌*◌, ◌/◌, ◌%◌, ◌^◌, ◌≤◌, ◌<◌, max, bit_or, digits}
use Prim.Native.Nat.{bit_or-bitwise}
use mathlib.Core.Path.{◌≡◌, refl, ap, ◌∙◌}
use native.Mathlib.Nat.{pow-suc, le_refl, div-add-mod, mul_comm}
use native.Mathlib.Omega.{arith}

double : (k q : ℕ) → 2 * (q * 2 ^ k) ≡ q * 2 ^ suc k
double k q = omega (arith, ap (λ power. q * power) (pow-suc 2 k))

-- The digits of `a`, whose lowest `k` are 0, joined to those of `b`, which has at most `k`.
digits_join :
    (n k q a b : ℕ) → a ≡ q * 2 ^ k → a ≤ n → b < 2 ^ k → digits (λ y. y) max n a b ≡ a + b
digits_join zero k q zero b e h f = omega arith
digits_join zero k q (suc a) b e h f = absurd (omega arith)
digits_join (suc n) k q zero b e h f = omega arith
digits_join (suc n) zero q (suc a) b e h f = omega (
  arith,
  digits_join n zero (suc a / 2) (suc a / 2) (b / 2) (omega arith) (omega arith) (omega arith),
)
digits_join (suc n) (suc k) q (suc a) b e h f = omega (
  arith,
  double k q,
  digits_join n k q (suc a / 2) (b / 2) (omega (arith, double k q)) (omega arith)
      (omega (arith, pow-suc 2 k)),
  pow-suc 2 k,
)

pub bit_or-fields : (k q b : ℕ) → b < 2 ^ k → bit_or (q * 2 ^ k) b ≡ q * 2 ^ k + b
bit_or-fields k q b f =
    bit_or-bitwise (q * 2 ^ k) b ∙ digits_join (q * 2 ^ k) k q (q * 2 ^ k) b refl (le_refl _) f

-- The same, where the fields are known by remainders.
pub bit_or-add : (k x b : ℕ) → x % 2 ^ k ≡ 0 → b < 2 ^ k → bit_or x b ≡ x + b
bit_or-add k x b e f =
    let split : x / 2 ^ k * 2 ^ k ≡ x =
      omega (arith, div-add-mod x (2 ^ k), mul_comm (x / 2 ^ k) (2 ^ k)) in
    rw split at (bit_or-fields k (x / 2 ^ k) b f)
