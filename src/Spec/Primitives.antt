-- ===== src/Spec/Primitives.antt =====
-- crates/spec/src/primitives.rs: the newtypes over `u64` and over byte arrays, and the texts of ids
-- and addresses. A text is the list of its code points, a byte string the list of its bytes.
use Prim.Native.Char.{code}
use Prim.Native.String.{String}
use publisher.Base.{ℕ, ◌+◌, ◌-◌, ◌/◌, ◌%◌, ◌<◌, ◌≡◌, refl, List, [], ◌∷◌, ◌++◌, arith, ℕ_discrete}
use publisher.Base.Tests.{ltb, if◌then◌else◌}
use publisher.Base.Lists.{All}

abbrev pub Bytes : Type 0
Bytes = List ℕ

abbrev pub Text : Type 0
Text = List ℕ

-- The text of a literal.
abbrev pub codes : String → Text
codes String.[] = []
codes (String.◌∷◌ c s) = code c ∷ codes s

-- Equality of texts, and of byte strings.
unfoldable pub text_discrete : Discrete Text
unfolding ℕ_discrete
text_discrete [] [] = yes refl
text_discrete [] (y ∷ ys) = no (λ e. cc)
text_discrete (x ∷ xs) [] = no (λ e. cc)
text_discrete (x ∷ xs) (y ∷ ys) = heads (ℕ_discrete x y) (text_discrete xs ys)
  where
    heads : Dec (x ≡ y) → Dec (xs ≡ ys) → Dec (x ∷ xs ≡ y ∷ ys)
    heads (yes p) (yes q) = yes (λ i. p i ∷ q i)
    heads (yes p) (no q) = no (λ e. q (cc))
    heads (no p) _ = no (λ e. p (cc))

abbrev pub ChainId : Type 0
ChainId = ℕ

abbrev SessionId : Type 0
SessionId = ℕ

abbrev pub PeriodId : Type 0
PeriodId = ℕ

abbrev pub SequenceNumber : Type 0
SequenceNumber = ℕ

abbrev pub SuperblockNumber : Type 0
SuperblockNumber = ℕ

abbrev pub SuperblockHash : Type 0
SuperblockHash = Bytes

abbrev pub BlockHash : Type 0
BlockHash = Bytes

abbrev pub StateRoot : Type 0
StateRoot = Bytes

abbrev pub InstanceId : Type 0
InstanceId = Bytes

abbrev pub EthAddress : Type 0
EthAddress = Bytes

-- A lowercase hexadecimal digit.
unfoldable pub hex_digit : ℕ → ℕ
hex_digit d = if ltb d 10 then b'0' + d else b'a' + d - 10

-- `Display` of `InstanceId`: two digits for each byte.
unfoldable pub to_string : InstanceId → Text
unfolding hex_digit
to_string [] = []
to_string (b ∷ bs) = hex_digit (b / 16) ∷ hex_digit (b % 16) ∷ to_string bs

-- `Display` of `EthAddress`.
unfoldable pub address_text : EthAddress → Text
unfolding to_string
address_text address = codes "0x" ++ to_string address

hex_digit-injective : (c d : ℕ) → c < 16 → d < 16 → hex_digit c ≡ hex_digit d → c ≡ d
unfolding hex_digit
hex_digit-injective c d hc hd e = ground arith

-- Two ids print alike only if they are the same bytes.
to_string-injective :
    (xs ys : InstanceId)
    → All (λ b. b < 256) xs
    → All (λ b. b < 256) ys
    → to_string xs ≡ to_string ys
    → xs ≡ ys
unfolding to_string
to_string-injective [] [] hx hy e = refl
to_string-injective [] (y ∷ ys) hx hy e = cc
to_string-injective (x ∷ xs) [] hx hy e = cc
to_string-injective (x ∷ xs) (y ∷ ys) hx hy e = ground (
  arith,
  hex_digit-injective (x / 16) (y / 16),
  hex_digit-injective (x % 16) (y % 16),
  to_string-injective xs ys hx.1 hy.1,
)
