-- ===== src/Base/Words.antt =====
-- `u64` and `u32` arithmetic, which wraps in the release build, and big-endian bytes.
use Prim.Native.Nat.{ℕ, zero, suc, ◌+◌, ◌-◌, ◌*◌, ◌/◌, ◌%◌, ◌^◌, ◌≤◌, ◌<◌}
use mathlib.Core.Path.{◌≡◌, refl, sym, ap, ◌∙◌}
use mathlib.Core.List.{List, [], ◌∷◌, ◌++◌, foldl}
use native.Mathlib.Omega.{arith}
use native.Mathlib.Nat.{pow-suc}
use publisher.Base.Lists.{length, length-append}

abbrev pub u64_mod : ℕ
u64_mod = 2 ^ 64

abbrev pub u32_mod : ℕ
u32_mod = 2 ^ 32

-- `a + b` and `a - b` on `u64`, as the release profile computes them.
unfoldable pub add64 : ℕ → ℕ → ℕ
add64 a b = (a + b) % u64_mod

unfoldable pub sub64 : ℕ → ℕ → ℕ
sub64 a b = (a + u64_mod - b) % u64_mod

pub add64_exact : (a b : ℕ) → a + b < u64_mod → add64 a b ≡ a + b
unfolding add64
add64_exact a b h = omega arith

pub sub64_exact : (a b : ℕ) → a < u64_mod → b ≤ a → sub64 a b ≡ a - b
unfolding sub64
sub64_exact a b h k = omega arith

-- The last `k` base-256 digits, most significant first: `to_be_bytes`.
unfoldable pub to_be_bytes : ℕ → ℕ → List ℕ
to_be_bytes zero n = []
to_be_bytes (suc k) n = to_be_bytes k (n / 256) ++ (n % 256) ∷ []

abbrev be_step : ℕ → ℕ → ℕ
be_step acc b = acc * 256 + b

unfoldable pub from_be_bytes : List ℕ → ℕ
from_be_bytes = foldl be_step 0

pub length-to_be_bytes : (k n : ℕ) → length (to_be_bytes k n) ≡ k
unfolding to_be_bytes
length-to_be_bytes zero n = refl
length-to_be_bytes (suc k) n = omega (
  arith,
  length-append (to_be_bytes k (n / 256)) ((n % 256) ∷ []),
  length-to_be_bytes k (n / 256),
)

foldl-append :
    (a : ℕ) (xs ys : List ℕ) → foldl be_step a (xs ++ ys) ≡ foldl be_step (foldl be_step a xs) ys
foldl-append a [] ys = refl
foldl-append a (x ∷ xs) ys = foldl-append (be_step a x) xs ys

high_digits-lt : (k n : ℕ) → n < 256 ^ suc k → n / 256 < 256 ^ k
high_digits-lt k n h = omega (arith, pow-suc 256 k)

-- Reading back the bytes of a number that fits gives the number.
pub from_be_bytes-to_be_bytes : (k n : ℕ) → n < 256 ^ k → from_be_bytes (to_be_bytes k n) ≡ n
unfolding from_be_bytes to_be_bytes
from_be_bytes-to_be_bytes zero n h = omega arith
from_be_bytes-to_be_bytes (suc k) n h =
    rw (foldl-append 0 (to_be_bytes k (n / 256)) ((n % 256) ∷ []))
      (rw (from_be_bytes-to_be_bytes k (n / 256) (high_digits-lt k n h)) (omega arith))

-- Byte strings of one length at the front of two equal strings are equal, and so is the rest.
pub append-cancel :
    (xs ys r s : List ℕ) → length xs ≡ length ys → xs ++ r ≡ ys ++ s → (xs ≡ ys) × (r ≡ s)
append-cancel [] [] r s h e = (refl, e)
append-cancel [] (y ∷ ys) r s h e = absurd (omega arith)
append-cancel (x ∷ xs) [] r s h e = absurd (omega arith)
append-cancel (x ∷ xs) (y ∷ ys) r s h e =
    let (tails, rest) = append-cancel xs ys r s (omega arith) (cc) in (cc, rest)

-- An eight-byte number at the front of a string can be read off.
pub to_be_bytes-cancel :
    (a b : ℕ) (r s : List ℕ)
    → a < u64_mod
    → b < u64_mod
    → to_be_bytes 8 a ++ r ≡ to_be_bytes 8 b ++ s
    → (a ≡ b) × (r ≡ s)
to_be_bytes-cancel a b r s ha hb e =
    let (same, rest) =
      append-cancel (to_be_bytes 8 a) (to_be_bytes 8 b) r s
        (length-to_be_bytes 8 a ∙ sym (length-to_be_bytes 8 b)) e in
    (
      sym (from_be_bytes-to_be_bytes 8 a ha)
          ∙ ap from_be_bytes same
          ∙ from_be_bytes-to_be_bytes 8 b hb,
      rest,
    )
