-- ===== src/Coordinator/ChainIds/Decimal.antt =====
-- crates/coordinator/src/handlers.rs: which chain a client id names.
use publisher.Base.{ℕ, ◌+◌, ◌-◌, ◌*◌, ◌^◌, ◌≡◌, refl, ap, ◌∙◌, true, false, [], ◌∷◌, ◌++◌, arith}
use native.Mathlib.Nat.{pow-suc}
use publisher.Base.Tests.{ltb, if◌then◌else◌}
use publisher.Base.Lists.{length, is_empty, All}
use publisher.Base.Words.{u64_mod}
use publisher.Base.Results.{ok, err}
use publisher.Spec.Primitives.{Text}
use publisher.Coordinator.ChainIds.{
  no_chain_id, is_ascii_digit, take_while, decimal_from, parse_u64, parse_chain_id,
}

abbrev IsDigit : ℕ → Type 0
IsDigit c = is_ascii_digit c ≡ true

-- No digit, or nothing.
abbrev StartsNoDigit : Text → Type 0
StartsNoDigit [] = Unit
StartsNoDigit (c ∷ cs) = is_ascii_digit c ≡ false

-- The number that decimal digits write, by the weight of each place.
abbrev pub value : Text → ℕ
value [] = 0
value (c ∷ cs) = (c - b'0') * 10 ^ length cs + value cs

take_while-digits :
    (ds rest : Text)
    → All IsDigit ds
    → StartsNoDigit rest
    → take_while is_ascii_digit (ds ++ rest) ≡ ds
unfolding take_while
take_while-digits [] [] a s = refl
take_while-digits [] (c ∷ cs) a s = rw s
take_while-digits (d ∷ ds) rest a s = rw a.0 (ap (◌∷◌ d) (take_while-digits ds rest a.1 s))

shift_digit : (a d p v : ℕ) → (a * 10 + d) * p + v ≡ a * (10 * p) + (d * p + v)
shift_digit a d p v = grind arith

decimal_from-value : (acc : ℕ) (ds : Text) → decimal_from acc ds ≡ acc * 10 ^ length ds + value ds
unfolding decimal_from
decimal_from-value acc [] = omega arith
decimal_from-value acc (d ∷ ds) =
    decimal_from-value (acc * 10 + (d - b'0')) ds
    ∙ shift_digit acc (d - b'0') (10 ^ length ds) (value ds)
    ∙ ap (λ (p : ℕ). acc * p + ((d - b'0') * 10 ^ length ds + value ds))
        (omega (arith, pow-suc 10 (length ds)))

parse_digits :
    (ds client_id : Text)
    → (if is_empty ds then err (no_chain_id client_id) else parse_u64 client_id ds) ≡ (
        if is_empty ds
        then err (no_chain_id client_id)
        else if ltb (value ds) u64_mod
        then ok (value ds)
        else err (no_chain_id client_id))
unfolding parse_u64
parse_digits ds client_id =
    let n : decimal_from 0 ds ≡ value ds = decimal_from-value 0 ds ∙ omega arith in rw n refl

-- A client id that begins with digits names the chain of that number if the number fits into `u64`,
-- and none otherwise; one that begins with no digit names none.
pub parse_chain_id_lem :
    (ds rest : Text)
    → All IsDigit ds
    → StartsNoDigit rest
    → parse_chain_id (ds ++ rest) ≡ (
        if is_empty ds
        then err (no_chain_id (ds ++ rest))
        else if ltb (value ds) u64_mod
        then ok (value ds)
        else err (no_chain_id (ds ++ rest)))
unfolding parse_chain_id
parse_chain_id_lem ds rest a s = rw (take_while-digits ds rest a s) (parse_digits ds (ds ++ rest))
