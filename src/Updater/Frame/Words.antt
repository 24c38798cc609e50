-- ===== src/Updater/Frame/Words.antt =====
-- Little-endian words, as `struct` writes and reads them with "<", and zero padding.
use native.Mathlib.Nat.{pow-suc}
use neko_family_proxy.Prelude.{
  ℕ, zero, suc, ◌+◌, ◌*◌, ◌/◌, ◌%◌, ◌^◌, ◌<◌, ◌≡◌, refl, ap, Bool, true, List, [], ◌∷◌, arith,
  length, all, nat_beq,
}

abbrev pub Bytes : Type 0
Bytes = List ℕ

unfoldable pub to_le : ℕ → ℕ → Bytes
to_le zero x = []
to_le (suc k) x = (x % 256) ∷ to_le k (x / 256)

unfoldable pub from_le : Bytes → ℕ
from_le [] = 0
from_le (b ∷ bs) = b + 256 * from_le bs

-- `b"\x00" * n`
pub zeros : ℕ → Bytes
zeros zero = []
zeros (suc n) = 0 ∷ zeros n

-- `not any(b != 0 for b in padding)`
pub all_zero : Bytes → Bool
all_zero = all (λ b. nat_beq b 0)

pub length-to_le : (k x : ℕ) → length (to_le k x) ≡ k
unfolding to_le
length-to_le zero x = refl
length-to_le (suc k) x = ap suc (length-to_le k (x / 256))

pub from_le-to_le : (k x : ℕ) → x < 256 ^ k → from_le (to_le k x) ≡ x
unfolding to_le from_le
from_le-to_le zero x h = omega arith
from_le-to_le (suc k) x h =
    omega (arith, pow-suc 256 k, from_le-to_le k (x / 256) (omega (arith, pow-suc 256 k)))

pub length-zeros : (n : ℕ) → length (zeros n) ≡ n
unfolding zeros
length-zeros zero = refl
length-zeros (suc n) = ap suc (length-zeros n)

pub all_zero-zeros : (n : ℕ) → all_zero (zeros n) ≡ true
unfolding zeros all_zero
all_zero-zeros zero = refl
all_zero-zeros (suc n) = ground (arith, all_zero-zeros n)

pub all_zero→zeros : (bs : Bytes) → all_zero bs ≡ true → bs ≡ zeros (length bs)
unfolding zeros all_zero
all_zero→zeros [] h = refl
all_zero→zeros (b ∷ bs) h = ground (arith, all_zero→zeros bs)
