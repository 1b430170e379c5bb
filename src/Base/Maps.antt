-- ===== src/Base/Maps.antt =====
-- `HashMap` as an association list that holds a key at most once. A new key goes to the end; the
-- iteration order of the source is unspecified, and is that of the list here.
use Prim.Native.Nat.{suc}
use mathlib.Core.Path.{◌≡◌, refl, sym, ap, ◌∙◌}
use mathlib.Core.Logic.{ite, if_pos, if_neg, ◌≢◌}
use mathlib.Core.Bool.{Bool, true, false}
use mathlib.Core.List.{List, [], ◌∷◌, ◌++◌, map}
use mathlib.Core.Option.{Option, none, some}
use native.Mathlib.Omega.{arith}
use publisher.Base.Tests.{if◌then◌else◌}
use publisher.Base.Lists.{length, contains, IsDistinct}

abbrev pub is_some {ℓ} : {A : Type ℓ} → Option A → Bool
is_some none = false
is_some (some a) = true

module _ {ℓ κ} {K : Type ℓ} {V : Type κ} where
  abbrev pub keys : List (K × V) → List K
  keys = map (λ e. e.0)

  abbrev pub values : List (K × V) → List V
  values = map (λ e. e.1)

is_some-ite {ℓ κ} :
    {P : Type ℓ} {V : Type κ} (d : Dec P) (b : Bool) (o : Option V) (w : V)
    → b ≡ is_some o
    → elim d [ yes _ ↦ true | no _ ↦ b ] ≡ is_some (ite d (some w) o)
is_some-ite (yes p) b o w e = refl
is_some-ite (no p) b o w e = e

module _ {ℓ} {K V : Type ℓ} (dec : Discrete K) where
  unfoldable pub get : K → List (K × V) → Option V
  get k [] = none
  get k ((j, v) ∷ m) = ite (dec j k) (some v) (get k m)

  abbrev pub contains_key : K → List (K × V) → Bool
  contains_key k m = is_some (get k m)

  unfoldable pub insert : K → V → List (K × V) → List (K × V)
  insert k v [] = (k, v) ∷ []
  insert k v ((j, w) ∷ m) = ite (dec j k) ((k, v) ∷ m) ((j, w) ∷ insert k v m)

  unfoldable pub remove : K → List (K × V) → List (K × V)
  remove k [] = []
  remove k ((j, v) ∷ m) = let rest = remove k m in ite (dec j k) rest ((j, v) ∷ rest)

  pub get-insert :
      (k j : K) (v : V) (m : List (K × V)) → get j (insert k v m) ≡ ite (dec k j) (some v) (get j m)
  unfolding get insert
  get-insert k j v [] = refl
  get-insert k j v ((i, w) ∷ m) = ground (arith, get-insert k j v m)

  pub get-remove : (k j : K) (m : List (K × V)) → get j (remove k m) ≡ ite (dec k j) none (get j m)
  unfolding get remove
  get-remove k j [] = ground arith
  get-remove k j ((i, w) ∷ m) = ground (arith, get-remove k j m)

  pub length-insert :
      (k : K) (v : V) (m : List (K × V))
      → length (insert k v m) ≡ (if contains_key k m then length m else suc (length m))
  unfolding get insert
  length-insert k v [] = refl
  length-insert k v ((i, w) ∷ m) = ground (arith, length-insert k v m)

  pub contains-keys : (k : K) (m : List (K × V)) → contains dec (keys m) k ≡ contains_key k m
  unfolding get contains
  contains-keys k [] = refl
  contains-keys k ((i, w) ∷ m) =
      is_some-ite (dec i k) (contains dec (keys m) k) (get k m) w (contains-keys k m)

  pub insert_new :
      (k : K) (v : V) (m : List (K × V)) → get k m ≡ none → insert k v m ≡ m ++ (k, v) ∷ []
  unfolding get insert
  insert_new k v [] h = refl
  insert_new k v ((i, w) ∷ m) h = ground (arith, insert_new k v m)

  pub insert_same : (k : K) (v : V) (m : List (K × V)) → get k m ≡ some v → insert k v m ≡ m
  unfolding get insert
  insert_same k v [] h = cc
  insert_same k v ((i, w) ∷ m) h = ground (arith, insert_same k v m)

  pub remove_absent : (k : K) (m : List (K × V)) → get k m ≡ none → remove k m ≡ m
  unfolding get remove
  remove_absent k [] h = refl
  remove_absent k ((i, w) ∷ m) h = ground (arith, remove_absent k m)

  -- No key stands twice, and neither does one after a change.
  abbrev pub IsMap : List (K × V) → Type 0
  IsMap m = IsDistinct dec (keys m)

  contains-keys-insert :
      (k j : K) (v : V) (m : List (K × V))
      → k ≢ j
      → contains dec (keys (insert k v m)) j ≡ contains dec (keys m) j
  contains-keys-insert k j v m n =
      contains-keys j (insert k v m)
      ∙ ap is_some (get-insert k j v m ∙ if_neg (dec k j) n (some v) (get j m))
      ∙ sym (contains-keys j m)

  pub insert-IsMap : (k : K) (v : V) (m : List (K × V)) → IsMap m → IsMap (insert k v m)
  unfolding insert contains
  insert-IsMap k v [] d = (refl, tt)
  insert-IsMap k v ((i, w) ∷ m) d = elim (dec i k) [
    | yes p ↦ rw (if_pos _ p) (rw p at d)
    | no p ↦
        rw (if_neg _ p)
          (contains-keys-insert k i v m (λ e. p (sym e)) ∙ d.0, insert-IsMap k v m d.1)
  ]

  contains-keys-remove :
      (k j : K) (m : List (K × V))
      → contains dec (keys m) j ≡ false
      → contains dec (keys (remove k m)) j ≡ false
  contains-keys-remove k j m h =
      ground (arith, contains-keys j m, contains-keys j (remove k m), get-remove k j m)

  pub remove-IsMap : (k : K) (m : List (K × V)) → IsMap m → IsMap (remove k m)
  unfolding remove
  remove-IsMap k [] d = tt
  remove-IsMap k ((i, w) ∷ m) d =
      ground (arith, contains-keys-remove k i m d.0, remove-IsMap k m d.1)
