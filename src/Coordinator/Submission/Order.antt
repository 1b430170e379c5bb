-- ===== src/Coordinator/Submission/Order.antt =====
-- crates/coordinator/src/l1_submit.rs: the proposal does not depend on the order of the proof map.
use publisher.Base.{
  ℕ, ◌≡◌, ◌≢◌, refl, sym, ap, subst, ◌∙◌, false, List, [], ◌∷◌, map, arith, ℕ_discrete,
}
use mathlib.Core.List.{Permᴰ}
use publisher.Base.Lists.{contains, IsDistinct}
use publisher.Coordinator.ProofTypes.{B256, ProofData}
use publisher.Coordinator.Submission.{
  Encoding, key, place, sort_by_key, highest_head, agg_outputs_of, propose,
}

-- No two proofs are of the same rollup configuration.
abbrev pub IsKeyed : List ProofData → Type 0
IsKeyed ps = IsDistinct ℕ_discrete (map key ps)

place-place :
    (p q : ProofData) (ps : List ProofData)
    → key p ≢ key q
    → place p (place q ps) ≡ place q (place p ps)
unfolding place
place-place p q [] n = ground arith
place-place p q (x ∷ xs) n = ground (arith, place-place p q xs n)

contains-cons :
    (x k : ℕ) (xs ys : List ℕ)
    → contains ℕ_discrete xs k ≡ contains ℕ_discrete ys k
    → contains ℕ_discrete (x ∷ xs) k ≡ contains ℕ_discrete (x ∷ ys) k
unfolding contains
contains-cons x k xs ys h = ground arith

contains-swap :
    (x y k : ℕ) (xs : List ℕ)
    → contains ℕ_discrete (x ∷ y ∷ xs) k ≡ contains ℕ_discrete (y ∷ x ∷ xs) k
unfolding contains
contains-swap x y k xs = ground arith

contains-perm :
    {ps qs : List ProofData}
    → Permᴰ ps qs
    → (k : B256) → contains ℕ_discrete (map key ps) k ≡ contains ℕ_discrete (map key qs) k
contains-perm Permᴰ.nil k = refl
contains-perm (Permᴰ.cons {a} {b} {l₁} {l₂} e d) k =
    ap (λ x. contains ℕ_discrete (key x ∷ map key l₁) k) e
    ∙ contains-cons (key b) k (map key l₁) (map key l₂) (contains-perm d k)
contains-perm (Permᴰ.swap {a} {b} {a'} {b'} {l} e f) k =
    contains-swap (key a) (key b) k (map key l)
    ∙ ap (λ x. contains ℕ_discrete (key x ∷ key a ∷ map key l) k) f
    ∙ ap (λ x. contains ℕ_discrete (key a' ∷ key x ∷ map key l) k) e
contains-perm (Permᴰ.trans d d') k = contains-perm d k ∙ contains-perm d' k

keyed-cons :
    (x y : ℕ) (xs ys : List ℕ)
    → x ≡ y
    → contains ℕ_discrete xs x ≡ contains ℕ_discrete ys x
    → contains ℕ_discrete xs x ≡ false
    → contains ℕ_discrete ys y ≡ false
keyed-cons x y xs ys e same h = ap (contains ℕ_discrete ys) (sym e) ∙ sym same ∙ h

keyed-swap :
    (x y : ℕ) (xs : List ℕ)
    → IsDistinct ℕ_discrete (x ∷ y ∷ xs)
    → IsDistinct ℕ_discrete (y ∷ x ∷ xs)
unfolding contains
keyed-swap x y xs d = ground arith

keyed_first : (x y : ℕ) (xs : List ℕ) → IsDistinct ℕ_discrete (x ∷ y ∷ xs) → x ≢ y
unfolding contains
keyed_first x y xs d = ground arith

IsKeyed-perm : {ps qs : List ProofData} → Permᴰ ps qs → IsKeyed ps → IsKeyed qs
IsKeyed-perm Permᴰ.nil k = k
IsKeyed-perm (Permᴰ.cons {a} {b} {l₁} {l₂} e d) k = (
  keyed-cons (key a) (key b) (map key l₁) (map key l₂) (ap key e) (contains-perm d (key a)) k.0,
  IsKeyed-perm d k.1,
)
IsKeyed-perm (Permᴰ.swap {a} {b} {a'} {b'} {l} e f) k =
    subst (λ x. IsKeyed (x ∷ b' ∷ l)) f
      (subst (λ x. IsKeyed (b ∷ x ∷ l)) e (keyed-swap (key a) (key b) (map key l) k))
IsKeyed-perm (Permᴰ.trans d d') k = IsKeyed-perm d' (IsKeyed-perm d k)

sort_by_key-perm :
    {ps qs : List ProofData} → Permᴰ ps qs → IsKeyed ps → sort_by_key ps ≡ sort_by_key qs
unfolding sort_by_key
sort_by_key-perm Permᴰ.nil k = refl
sort_by_key-perm (Permᴰ.cons {a} {b} {l₁} {l₂} e d) k =
    ap (λ x. place x (sort_by_key l₁)) e ∙ ap (place b) (sort_by_key-perm d k.1)
sort_by_key-perm (Permᴰ.swap {a} {b} {a'} {b'} {l} e f) k =
    place-place a b (sort_by_key l) (keyed_first (key a) (key b) (map key l) k)
    ∙ ap (λ x. place x (place a (sort_by_key l))) f
    ∙ ap (λ x. place a' (place x (sort_by_key l))) e
sort_by_key-perm (Permᴰ.trans d d') k =
    sort_by_key-perm d k ∙ sort_by_key-perm d' (IsKeyed-perm d k)

highest-cons :
    (p : ProofData) (ps qs : List ProofData)
    → highest_head ps ≡ highest_head qs
    → highest_head (p ∷ ps) ≡ highest_head (p ∷ qs)
unfolding highest_head
highest-cons p ps qs h = ground arith

highest-swap :
    (p q : ProofData) (ps : List ProofData) → highest_head (p ∷ q ∷ ps) ≡ highest_head (q ∷ p ∷ ps)
unfolding highest_head
highest-swap p q ps = ground arith

highest-perm : {ps qs : List ProofData} → Permᴰ ps qs → highest_head ps ≡ highest_head qs
highest-perm Permᴰ.nil = refl
highest-perm (Permᴰ.cons {a} {b} {l₁} {l₂} e d) =
    ap (λ x. highest_head (x ∷ l₁)) e ∙ highest-cons b l₁ l₂ (highest-perm d)
highest-perm (Permᴰ.swap {a} {b} {a'} {b'} {l} e f) =
    highest-swap a b l
    ∙ ap (λ x. highest_head (x ∷ a ∷ l)) f
    ∙ ap (λ x. highest_head (a' ∷ x ∷ l)) e
highest-perm (Permᴰ.trans d d') = highest-perm d ∙ highest-perm d'

-- Proofs of pairwise distinct rollup configurations make the same proposal in whatever order the
-- proof map gives them.
pub propose-perm :
    (enc : Encoding) (parent : B256) (superblock_number : ℕ) (ps qs : List ProofData)
    → Permᴰ ps qs
    → IsKeyed ps
    → propose enc parent superblock_number ps ≡ propose enc parent superblock_number qs
unfolding propose agg_outputs_of
propose-perm enc parent superblock_number ps qs d k =
    rw (sort_by_key-perm d k) (rw (highest-perm d) refl)
