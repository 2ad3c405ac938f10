-- ===== src/Base/Bits.antt =====
-- Laws of `&`, `|` and `^` at every width, from the recursion on binary digits.
use Prim.Native.Nat.{digits, bitwise, differ, bit_and-bitwise, bit_or-bitwise, bit_xor-bitwise}
use Prim.Native.Nat.{ℕ, zero, suc, ◌+◌, ◌-◌, ◌*◌, ◌/◌, ◌%◌, ◌^◌, ◌≤◌, ◌<◌, min, max}
use Prim.Native.Nat.{bit_and, bit_or, bit_xor}
use mathlib.Core.Path.{◌≡◌, refl, ap}
use mathlib.Core.Logic.{◌⊎◌, inl, inr}
use native.Mathlib.Nat.{pow-suc, one-le-pow}
use native.Mathlib.Omega.{arith}
use stark_v.Base.Word.{low, clear_low}

-- Any two counts of digits that cover the first number give the same digits.
module _ (z : ℕ → ℕ) (f : ℕ → ℕ → ℕ) where
  digits-count : (n a b : ℕ) → a ≤ n → (m : ℕ) → a ≤ m → digits z f n a b ≡ digits z f m a b
  digits-count zero zero b h zero k = refl
  digits-count zero zero b h (suc m) k = refl
  digits-count zero (suc a) b h m k = absurd (omega arith)
  digits-count (suc n) zero b h zero k = refl
  digits-count (suc n) zero b h (suc m) k = refl
  digits-count (suc n) (suc a) b h zero k = absurd (omega arith)
  digits-count (suc n) (suc a) b h (suc m) k =
      rw (digits-count n (suc a / 2) (b / 2) (omega arith) m (omega arith))

  bitwise_lowest :
      (a b : ℕ)
      → bitwise z f (suc a) b ≡ bitwise z f (suc a / 2) (b / 2) * 2 + f (suc a % 2) (b % 2)
  bitwise_lowest a b =
      omega (arith, digits-count a (suc a / 2) (b / 2) (omega arith) (suc a / 2) (omega arith))

-- The lowest digit apart from the others.
pub bit_and_lowest : (a b : ℕ) → bit_and a b ≡ bit_and (a / 2) (b / 2) * 2 + min (a % 2) (b % 2)
bit_and_lowest zero b = simp bit_and-bitwise (omega arith)
bit_and_lowest (suc a) b = simp bit_and-bitwise (bitwise_lowest (λ y. 0) min a b)

pub bit_or_lowest : (a b : ℕ) → bit_or a b ≡ bit_or (a / 2) (b / 2) * 2 + max (a % 2) (b % 2)
bit_or_lowest zero b = simp bit_or-bitwise (omega arith)
bit_or_lowest (suc a) b = simp bit_or-bitwise (bitwise_lowest (λ y. y) max a b)

differ-le-max : (x y : ℕ) → differ x y ≤ max x y
differ-le-max zero y = omega arith
differ-le-max (suc x) zero = omega arith
differ-le-max (suc x) (suc y) = omega (arith, differ-le-max x y)

pub bit_xor_lowest : (a b : ℕ) → bit_xor a b ≡ bit_xor (a / 2) (b / 2) * 2 + differ (a % 2) (b % 2)
bit_xor_lowest zero b = simp bit_xor-bitwise (omega arith)
bit_xor_lowest (suc a) b = simp bit_xor-bitwise (bitwise_lowest (λ y. y) differ a b)

-- The count `n` covers both numbers, so that the recursion may go from `a / 2` to `a`.
bit_and_comm_to : (n a b : ℕ) → a ≤ n → b ≤ n → bit_and a b ≡ bit_and b a
bit_and_comm_to zero a b h k = let e : a ≡ b = omega arith in rw e
bit_and_comm_to (suc n) a b h k = omega (
  arith,
  bit_and_lowest a b,
  bit_and_lowest b a,
  bit_and_comm_to n (a / 2) (b / 2) (omega arith) (omega arith),
)

bit_or_comm_to : (n a b : ℕ) → a ≤ n → b ≤ n → bit_or a b ≡ bit_or b a
bit_or_comm_to zero a b h k = let e : a ≡ b = omega arith in rw e
bit_or_comm_to (suc n) a b h k = omega (
  arith,
  bit_or_lowest a b,
  bit_or_lowest b a,
  bit_or_comm_to n (a / 2) (b / 2) (omega arith) (omega arith),
)

pub bit_and_comm : (a b : ℕ) → bit_and a b ≡ bit_and b a
bit_and_comm a b = bit_and_comm_to (a + b) a b (omega arith) (omega arith)

pub bit_or_comm : (a b : ℕ) → bit_or a b ≡ bit_or b a
bit_or_comm a b = bit_or_comm_to (a + b) a b (omega arith) (omega arith)

pub zero-bit_and : (b : ℕ) → bit_and 0 b ≡ 0
zero-bit_and b = bit_and-bitwise 0 b

pub zero-bit_or : (b : ℕ) → bit_or 0 b ≡ b
zero-bit_or b = bit_or-bitwise 0 b

double-pow : (q k : ℕ) → q * 2 ^ suc k ≡ 2 * (q * 2 ^ k)
double-pow q k = omega (arith, ap (λ (t : ℕ). q * t) (pow-suc 2 k))

-- `r | (q << k)` is a sum where `r` fits `k` bits.
pub bit_or-shifted : (k r q : ℕ) → r < 2 ^ k → bit_or r (q * 2 ^ k) ≡ r + q * 2 ^ k
bit_or-shifted zero r q h = let e : r ≡ 0 = omega arith in rw e (omega (arith, zero-bit_or (q * 1)))
bit_or-shifted (suc k) r q h = ground (
  arith,
  bit_or_lowest r (q * 2 ^ suc k),
  double-pow q k,
  pow-suc 2 k,
  bit_or-shifted k (r / 2) q,
)

-- The same with the sum on the left, as in `lo | (hi << k)` after earlier fields.
pub shifted-bit_or : (k q r : ℕ) → r < 2 ^ k → bit_or (q * 2 ^ k) r ≡ q * 2 ^ k + r
shifted-bit_or k q r h = omega (arith, bit_or_comm (q * 2 ^ k) r, bit_or-shifted k r q h)

-- A mask that is itself shifted sees only the shifted part.
pub bit_and-shifted :
    (k q r p : ℕ) → r < 2 ^ k → bit_and (r + q * 2 ^ k) (p * 2 ^ k) ≡ bit_and q p * 2 ^ k
bit_and-shifted zero q r p h =
    let e : r ≡ 0 = omega arith in
    let eq : r + q * 1 ≡ q = omega arith in
    let ep : p * 1 ≡ p = omega arith in rw (eq, ep) (omega arith)
bit_and-shifted (suc k) q r p h = ground (
  arith,
  bit_and_lowest (r + q * 2 ^ suc k) (p * 2 ^ suc k),
  double-pow q k,
  double-pow p k,
  double-pow (bit_and q p) k,
  pow-suc 2 k,
  bit_and-shifted k q (r / 2) p,
)

bit_and-field : (k q r : ℕ) → r < 2 ^ k → bit_and (r + q * 2 ^ k) (2 ^ k - 1) ≡ r
bit_and-field zero q r h = omega (arith, bit_and_comm (r + q * 1) 0, zero-bit_and (r + q * 1))
bit_and-field (suc k) q r h = ground (
  arith,
  bit_and_lowest (r + q * 2 ^ suc k) (2 ^ suc k - 1),
  double-pow q k,
  pow-suc 2 k,
  one-le-pow k 2,
  bit_and-field k q (r / 2),
)

-- `x & (2 ^ k - 1)` keeps the low bits.
pub bit_and-low : (k x : ℕ) → bit_and x (2 ^ k - 1) ≡ low x k
bit_and-low k x = ground (arith, one-le-pow k 2, bit_and-field k (x / 2 ^ k) (x % 2 ^ k))

-- `x & !1`, `x & !3` and `x & 0xFFFFF000` on a `u32` clear the low bits.
pub bit_and-clear_low :
    (x : ℕ)
    → x < 2 ^ 32
    → (bit_and x 0xffff_fffe ≡ clear_low x 1)
      × (bit_and x 0xffff_fffc ≡ clear_low x 2)
      × (bit_and x 0xffff_f000 ≡ clear_low x 12)
bit_and-clear_low x h = (
  ground
      (arith, bit_and-shifted 1 (x / 2) (x % 2) (2 ^ 31 - 1) (omega arith), bit_and-low 31 (x / 2)),
  ground
      (arith, bit_and-shifted 2 (x / 4) (x % 4) (2 ^ 30 - 1) (omega arith), bit_and-low 30 (x / 4)),
  ground (
    arith,
    bit_and-shifted 12 (x / 4096) (x % 4096) (2 ^ 20 - 1) (omega arith),
    bit_and-low 20 (x / 4096),
  ),
)

-- The results of the three operations fit the width of their arguments.
pub bit_and-lt : (k a b : ℕ) → a < 2 ^ k → bit_and a b < 2 ^ k
bit_and-lt zero a b h = let e : a ≡ 0 = omega arith in rw (e, zero-bit_and) (omega arith)
bit_and-lt (suc k) a b h =
    ground (arith, bit_and_lowest a b, pow-suc 2 k, bit_and-lt k (a / 2) (b / 2))

pub bit_or-lt : (k a b : ℕ) → a < 2 ^ k → b < 2 ^ k → bit_or a b < 2 ^ k
bit_or-lt zero a b h g = let e : a ≡ 0 = omega arith in rw (e, zero-bit_or) g
bit_or-lt (suc k) a b h g =
    ground (arith, bit_or_lowest a b, pow-suc 2 k, bit_or-lt k (a / 2) (b / 2))

pub bit_xor-lt : (k a b : ℕ) → a < 2 ^ k → b < 2 ^ k → bit_xor a b < 2 ^ k
bit_xor-lt zero a b h g = let e : a ≡ 0 = omega arith in rw e (omega (arith, bit_xor-bitwise 0 b))
bit_xor-lt (suc k) a b h g = ground (
  arith,
  bit_xor_lowest a b,
  differ-le-max (a % 2) (b % 2),
  pow-suc 2 k,
  bit_xor-lt k (a / 2) (b / 2),
)

-- `|` is a sum where the left side ends in enough zeros.
pub bit_or-disjoint : (k x r : ℕ) → x % 2 ^ k ≡ 0 → r < 2 ^ k → bit_or x r ≡ x + r
bit_or-disjoint k x r e h = ground (arith, shifted-bit_or k (x / 2 ^ k) r)

parity : (x : ℕ) → (x % 2 ≡ 0) ⊎ (x % 2 ≡ 1)
parity x = omega arith

bit_xor-zero_to : (n a : ℕ) → a ≤ n → bit_xor a 0 ≡ a
bit_xor-zero_to zero a h = let e : a ≡ 0 = omega (arith, h) in rw e refl
bit_xor-zero_to (suc n) zero h = refl
bit_xor-zero_to (suc n) (suc a) h =
    let rest = bit_xor-zero_to n (suc a / 2) (omega (arith, h)) in
    elim (parity (suc a)) [
      | inl e ↦ let low = bit_xor_lowest (suc a) 0 in let low' = rw e at low in omega arith
      | inr e ↦ let low = bit_xor_lowest (suc a) 0 in let low' = rw e at low in omega arith
    ]

-- `x ^ 1` is the other number with the same half.
pub bit_xor-one : (x : ℕ) → bit_xor x 1 ≡ x / 2 * 2 + (1 - x % 2)
bit_xor-one x =
    let rest = bit_xor-zero_to (x / 2) (x / 2) (omega arith) in
    elim (parity x) [
      | inl e ↦ let low = bit_xor_lowest x 1 in let low' = rw e at low in omega arith
      | inr e ↦ let low = bit_xor_lowest x 1 in let low' = rw e at low in omega arith
    ]
