-- ===== src/Sbcp/Id/Injective.antt =====
-- Which inputs of `generate_instance_id` can share an id.
use mathlib.Core.List.{append_assoc}
use publisher.Base.{ℕ, ◌<◌, ◌≡◌, refl, sym, ap, ◌∙◌, ◌≢◌, List, [], ◌∷◌, ◌++◌, arith}
use publisher.Base.Tests.{if◌then◌else◌}
use publisher.Base.Lists.{length, length-append, is_empty, All}
use publisher.Base.Words.{
  u64_mod, to_be_bytes, length-to_be_bytes, to_be_bytes-cancel, append-cancel,
}
use publisher.Spec.Primitives.{Bytes, PeriodId, SequenceNumber}
use publisher.Spec.Instance.{TransactionRequest, XtRequest}
use publisher.Sbcp.Id.{transaction_bytes, request_bytes, preimage, generate_instance_id}

-- Not empty, and of a length that fits into `u64`.
abbrev IsSized : Bytes → Type 0
IsSized d = (0 < length d) × (length d < u64_mod)

pub record IsProper (r : TransactionRequest) : Type 0 where
  pub chain : r.chain_id < u64_mod
  pub count : length r.transactions < u64_mod
  pub sized : All IsSized r.transactions

-- Two non-empty lists of bytes of which the first transactions can be cancelled.
transaction_bytes-cons :
    (b : ℕ) (bs : Bytes) (ds : List Bytes) (r : Bytes)
    → transaction_bytes ((b ∷ bs) ∷ ds) ++ r
      ≡ to_be_bytes 8 (length (b ∷ bs)) ++ ((b ∷ bs) ++ (transaction_bytes ds ++ r))
unfolding transaction_bytes
transaction_bytes-cons b bs ds r = simp append_assoc

transaction_bytes-cancel :
    (xs ys : List Bytes) (r s : Bytes)
    → length xs ≡ length ys
    → All IsSized xs
    → All IsSized ys
    → transaction_bytes xs ++ r ≡ transaction_bytes ys ++ s
    → (xs ≡ ys) × (r ≡ s)
unfolding transaction_bytes
transaction_bytes-cancel [] [] r s n hx hy e = (refl, e)
transaction_bytes-cancel [] (y ∷ ys) r s n hx hy e = absurd (omega arith)
transaction_bytes-cancel (x ∷ xs) [] r s n hx hy e = absurd (omega arith)
transaction_bytes-cancel ([] ∷ xs) (y ∷ ys) r s n hx hy e = absurd (omega arith)
transaction_bytes-cancel ((a ∷ x) ∷ xs) ([] ∷ ys) r s n hx hy e = absurd (omega arith)
transaction_bytes-cancel ((a ∷ x) ∷ xs) ((b ∷ y) ∷ ys) r s n hx hy e =
    let (same_length, after) =
      to_be_bytes-cancel (length (a ∷ x)) (length (b ∷ y)) ((a ∷ x) ++ (transaction_bytes xs ++ r))
        ((b ∷ y) ++ (transaction_bytes ys ++ s)) hx.0.1 hy.0.1
        (sym (transaction_bytes-cons a x xs r) ∙ e ∙ transaction_bytes-cons b y ys s) in
    let (first, others) =
      append-cancel (a ∷ x) (b ∷ y) (transaction_bytes xs ++ r) (transaction_bytes ys ++ s)
        same_length after in
    let (rest, ends) = transaction_bytes-cancel xs ys r s (omega arith) hx.1 hy.1 others in
    (λ i. first i ∷ rest i, ends)

head_bytes-cancel :
    (c n c' n' : ℕ) (r s : Bytes)
    → c < u64_mod
    → n < u64_mod
    → c' < u64_mod
    → n' < u64_mod
    → to_be_bytes 8 c ++ (to_be_bytes 8 n ++ r) ≡ to_be_bytes 8 c' ++ (to_be_bytes 8 n' ++ s)
    → (c ≡ c') × (n ≡ n') × (r ≡ s)
head_bytes-cancel c n c' n' r s hc hn hc' hn' e =
    let (same, after) =
      to_be_bytes-cancel c c' (to_be_bytes 8 n ++ r) (to_be_bytes 8 n' ++ s) hc hc' e in
    let (same', rest) = to_be_bytes-cancel n n' r s hn hn' after in (same, same', rest)

-- The bytes of a request are never none: eight of them are its chain id.
request_bytes_ne_nil :
    (r : TransactionRequest) (rs : List TransactionRequest) → request_bytes (r ∷ rs) ≢ []
unfolding request_bytes to_be_bytes
request_bytes_ne_nil r rs e = omega (
  arith,
  ap length e,
  length-append (to_be_bytes 8 r.chain_id) (
      to_be_bytes 8 (length r.transactions)
      ++ (transaction_bytes r.transactions ++ request_bytes rs)),
  length-to_be_bytes 8 r.chain_id,
)

request_bytes-injective :
    (rs ss : List TransactionRequest)
    → All IsProper rs
    → All IsProper ss
    → request_bytes rs ≡ request_bytes ss
    → rs ≡ ss
unfolding request_bytes
request_bytes-injective [] [] hr hs e = refl
request_bytes-injective [] (s ∷ ss) hr hs e = absurd (request_bytes_ne_nil s ss (sym e))
request_bytes-injective (r ∷ rs) [] hr hs e = absurd (request_bytes_ne_nil r rs e)
request_bytes-injective (r ∷ rs) (s ∷ ss) hr hs e =
    let (chain, count, after) =
      head_bytes-cancel r.chain_id (length r.transactions) s.chain_id (length s.transactions)
        (transaction_bytes r.transactions ++ request_bytes rs)
        (transaction_bytes s.transactions ++ request_bytes ss) hr.0.chain hr.0.count hs.0.chain
        hs.0.count e in
    let (same, rest) =
      transaction_bytes-cancel r.transactions s.transactions (request_bytes rs) (request_bytes ss)
        count hr.0.sized hs.0.sized after in
    let others = request_bytes-injective rs ss hr.1 hs.1 rest in
    λ i. record { chain_id = chain i; transactions = same i } ∷ others i

-- If no transaction is empty and all numbers and lengths fit into `u64`, the bytes that are hashed
-- for an instance id determine the period, the sequence number and the request.
pub preimage-injective :
    (p q : PeriodId) (m n : SequenceNumber) (x y : XtRequest)
    → p < u64_mod
    → q < u64_mod
    → m < u64_mod
    → n < u64_mod
    → All IsProper x.transactions
    → All IsProper y.transactions
    → preimage p m x ≡ preimage q n y
    → (p ≡ q) × (m ≡ n) × (x ≡ y)
unfolding preimage
preimage-injective p q m n x y hp hq hm hn hx hy e =
    let (period, seq, rest) =
      head_bytes-cancel p m q n (request_bytes x.transactions) (request_bytes y.transactions) hp hm
        hq hn e in
    let same = request_bytes-injective x.transactions y.transactions hx hy rest in
    (period, seq, λ i. record { transactions = same i })

-- The transactions that are not empty, in order.
abbrev nonempty : List Bytes → List Bytes
nonempty [] = []
nonempty (d ∷ ds) = if is_empty d then nonempty ds else d ∷ nonempty ds

transaction_bytes-nonempty :
    (ds : List Bytes) → transaction_bytes ds ≡ transaction_bytes (nonempty ds)
unfolding transaction_bytes
transaction_bytes-nonempty [] = refl
transaction_bytes-nonempty ([] ∷ ds) = transaction_bytes-nonempty ds
transaction_bytes-nonempty ((b ∷ d) ∷ ds) =
    ap (◌++◌ (to_be_bytes 8 (length (b ∷ d)) ++ (b ∷ d))) (transaction_bytes-nonempty ds)

-- Two requests that differ in their first entry only, in the position of its empty transactions,
-- get the same instance id whatever the hash function.
pub generate_instance_id_ignores_empty :
    (sha256 : Bytes → Bytes) (p : PeriodId) (m : SequenceNumber) (c : ℕ) (ds es : List Bytes)
    (rest : List TransactionRequest)
    → length ds ≡ length es
    → nonempty ds ≡ nonempty es
    → generate_instance_id sha256 p m
        (record { transactions = record { chain_id = c; transactions = ds } ∷ rest })
      ≡ generate_instance_id sha256 p m
          (record { transactions = record { chain_id = c; transactions = es } ∷ rest })
unfolding generate_instance_id
generate_instance_id_ignores_empty sha256 p m c ds es rest n e =
    rw (n, transaction_bytes-nonempty ds, transaction_bytes-nonempty es, e)
