-- ===== src/Coordinator/ChainIds.antt =====
-- crates/coordinator/src/handlers.rs: `parse_chain_id`. `parse::<u64>` refuses what does not fit.
pub mod Decimal
use publisher.Base.{ℕ, ◌+◌, ◌-◌, ◌*◌, Bool, ◌&&◌, [], ◌∷◌}
use publisher.Base.Tests.{ltb, leb, if◌then◌else◌}
use publisher.Base.Lists.{is_empty}
use publisher.Base.Words.{u64_mod}
use publisher.Base.Results.{Result, ok, err}
use publisher.Spec.Primitives.{Text, ChainId}

pub data ParseChainIdError : Type 0 where
  no_chain_id : Text → ParseChainIdError

unfoldable pub is_ascii_digit : ℕ → Bool
is_ascii_digit c = leb b'0' c && leb c b'9'

unfoldable pub take_while : (ℕ → Bool) → Text → Text
take_while p [] = []
take_while p (c ∷ cs) = if p c then c ∷ take_while p cs else []

-- The number that a text of digits stands for, after the digits read so far.
unfoldable pub decimal_from : ℕ → Text → ℕ
decimal_from acc [] = acc
decimal_from acc (c ∷ cs) = decimal_from (acc * 10 + (c - b'0')) cs

unfoldable pub parse_u64 : Text → Text → Result ParseChainIdError ChainId
unfolding decimal_from
parse_u64 client_id num_str =
    let n = decimal_from 0 num_str in if ltb n u64_mod then ok n else err (no_chain_id client_id)

unfoldable pub parse_chain_id : Text → Result ParseChainIdError ChainId
unfolding take_while is_ascii_digit parse_u64
parse_chain_id client_id =
    let num_str = take_while is_ascii_digit client_id in
    if is_empty num_str then err (no_chain_id client_id) else parse_u64 client_id num_str
