-- ===== src/Base/Lists.antt =====
-- Lists measured and indexed by native numbers, under the library's names.
use Prim.Native.Nat.{ℕ, zero, suc, ◌+◌, ◌<◌, ◌≤◌}
use mathlib.Core.Path.{◌≡◌, refl, sym, ap}
use mathlib.Core.Logic.{◌≢◌}
use mathlib.Core.Bool.{Bool, true, false, ◌||◌, or_assoc}
use mathlib.Core.List.{List, [], ◌∷◌, ◌++◌}
use mathlib.Core.Option.{Option, none, some}
use native.Mathlib.Omega.{arith}
use jack_os.Base.Tests.{◌==◌, if◌then◌else◌}

module _ {ℓ} {A : Type ℓ} where
  abbrev pub length : List A → ℕ
  length [] = 0
  length (x ∷ xs) = suc (length xs)

  abbrev pub get_elem? : List A → ℕ → Option A
  get_elem? [] i = none
  get_elem? (x ∷ xs) zero = some x
  get_elem? (x ∷ xs) (suc i) = get_elem? xs i

  -- An array read; a read past the end gives `d`.
  abbrev pub get_or : List A → ℕ → A → A
  get_or [] i d = d
  get_or (x ∷ xs) zero d = x
  get_or (x ∷ xs) (suc i) d = get_or xs i d

  -- An array write; a write past the end changes nothing.
  abbrev pub set : List A → ℕ → A → List A
  set [] i v = []
  set (x ∷ xs) zero v = v ∷ xs
  set (x ∷ xs) (suc i) v = x ∷ set xs i v

  abbrev pub replicate : ℕ → A → List A
  replicate zero a = []
  replicate (suc n) a = a ∷ replicate n a

  abbrev pub take : ℕ → List A → List A
  take zero xs = []
  take (suc n) [] = []
  take (suc n) (x ∷ xs) = x ∷ take n xs

  abbrev pub drop : ℕ → List A → List A
  drop zero xs = xs
  drop (suc n) [] = []
  drop (suc n) (x ∷ xs) = drop n xs

  pub length-append : (xs ys : List A) → length (xs ++ ys) ≡ length xs + length ys
  length-append [] ys = omega arith
  length-append (x ∷ xs) ys = omega (arith, length-append xs ys)

  pub length-set : (xs : List A) (i : ℕ) (v : A) → length (set xs i v) ≡ length xs
  length-set [] i v = refl
  length-set (x ∷ xs) zero v = refl
  length-set (x ∷ xs) (suc i) v = ap suc (length-set xs i v)

  pub length-replicate : (n : ℕ) (a : A) → length (replicate n a) ≡ n
  length-replicate zero a = refl
  length-replicate (suc n) a = ap suc (length-replicate n a)

  pub get_or-set_self :
      (xs : List A) (i : ℕ) (v d : A) → i < length xs → get_or (set xs i v) i d ≡ v
  get_or-set_self [] i v d h = absurd (omega arith)
  get_or-set_self (x ∷ xs) zero v d h = refl
  get_or-set_self (x ∷ xs) (suc i) v d h = get_or-set_self xs i v d (omega arith)

  pub get_or-set_ne :
      (xs : List A) (i j : ℕ) (v d : A) → i ≢ j → get_or (set xs i v) j d ≡ get_or xs j d
  get_or-set_ne [] i j v d h = refl
  get_or-set_ne (x ∷ xs) zero zero v d h = absurd (h refl)
  get_or-set_ne (x ∷ xs) zero (suc j) v d h = refl
  get_or-set_ne (x ∷ xs) (suc i) zero v d h = refl
  get_or-set_ne (x ∷ xs) (suc i) (suc j) v d h = get_or-set_ne xs i j v d (λ e. h (ap suc e))

  pub get_or-replicate : (n i : ℕ) (v d : A) → i < n → get_or (replicate n v) i d ≡ v
  get_or-replicate zero i v d h = absurd (omega arith)
  get_or-replicate (suc n) zero v d h = refl
  get_or-replicate (suc n) (suc i) v d h = get_or-replicate n i v d (omega arith)

  pub get_elem?-eq-get_or :
      (xs : List A) (i : ℕ) (d : A) → i < length xs → get_elem? xs i ≡ some (get_or xs i d)
  get_elem?-eq-get_or [] i d h = absurd (omega arith)
  get_elem?-eq-get_or (x ∷ xs) zero d h = refl
  get_elem?-eq-get_or (x ∷ xs) (suc i) d h = get_elem?-eq-get_or xs i d (omega arith)

  pub get_or-past : (xs : List A) (i : ℕ) (d : A) → length xs ≤ i → get_or xs i d ≡ d
  get_or-past [] i d h = refl
  get_or-past (x ∷ xs) zero d h = absurd (omega arith)
  get_or-past (x ∷ xs) (suc i) d h = get_or-past xs i d (omega arith)

-- A number is none of a list.
infix 40 ◌∉◌
abbrev pub ◌∉◌ : ℕ → List ℕ → Type 0
n ∉ [] = Unit
n ∉ (k ∷ l) = (n ≢ k) × (n ∉ l)

-- Whether a number stands in a list.
abbrev pub has : ℕ → List ℕ → Bool
has n [] = false
has n (k ∷ l) = (n == k) || has n l

-- A list without the first place at which a number stands.
abbrev pub remove : ℕ → List ℕ → List ℕ
remove n [] = []
remove n (k ∷ l) = let rest = remove n l in if n == k then l else k ∷ rest

-- The numbers of a list are pairwise different.
abbrev pub Distinct : List ℕ → Type 0
Distinct [] = Unit
Distinct (k ∷ l) = (k ∉ l) × Distinct l

pub has-append : (a : ℕ) (xs ys : List ℕ) → has a (xs ++ ys) ≡ (has a xs || has a ys)
has-append a [] ys = refl
has-append a (x ∷ xs) ys = rw (has-append a xs ys, or_assoc)

pub not-mem→has : (a : ℕ) (xs : List ℕ) → a ∉ xs → has a xs ≡ false
not-mem→has a [] h = refl
not-mem→has a (x ∷ xs) h = ground (arith, not-mem→has a xs)

pub has→not-mem : (a : ℕ) (xs : List ℕ) → has a xs ≡ false → a ∉ xs
has→not-mem a [] h = tt
has→not-mem a (x ∷ xs) h = (ground arith, has→not-mem a xs (ground arith))

pub not-mem-append : (a : ℕ) (xs ys : List ℕ) → a ∉ xs → a ∉ ys → a ∉ (xs ++ ys)
not-mem-append a [] ys h k = k
not-mem-append a (x ∷ xs) ys h k = (h.0, not-mem-append a xs ys h.1 k)

pub not-mem-left : (a : ℕ) (xs ys : List ℕ) → a ∉ (xs ++ ys) → a ∉ xs
not-mem-left a [] ys h = tt
not-mem-left a (x ∷ xs) ys h = (h.0, not-mem-left a xs ys h.1)

pub not-mem-right : (a : ℕ) (xs ys : List ℕ) → a ∉ (xs ++ ys) → a ∉ ys
not-mem-right a [] ys h = h
not-mem-right a (x ∷ xs) ys h = not-mem-right a xs ys h.1

pub mem-ne : (a b : ℕ) (xs : List ℕ) → has a xs ≡ true → b ∉ xs → b ≢ a
mem-ne a b [] h out = cc
mem-ne a b (x ∷ xs) h out = ground (arith, mem-ne a b xs)

pub not-mem-snoc : (a b : ℕ) (xs : List ℕ) → a ∉ xs → a ≢ b → a ∉ (xs ++ b ∷ [])
not-mem-snoc a b xs h ne = not-mem-append a xs (b ∷ []) h (ne, tt)

module _ (e : ℕ) where
  pub not-mem-delete : (a : ℕ) (xs ys : List ℕ) → a ∉ (xs ++ e ∷ ys) → (a ≢ e) × (a ∉ (xs ++ ys))
  not-mem-delete a [] ys h = h
  not-mem-delete a (x ∷ xs) ys h = let (ne, out) = not-mem-delete a xs ys h.1 in (ne, (h.0, out))

  pub Distinct-delete :
      (xs ys : List ℕ) → Distinct (xs ++ e ∷ ys) → (e ∉ (xs ++ ys)) × Distinct (xs ++ ys)
  Distinct-delete [] ys d = d
  Distinct-delete (x ∷ xs) ys d =
      let (ne, out) = not-mem-delete x xs ys d.0 in
      let (e_out, rest) = Distinct-delete xs ys d.1 in ((λ k. ne (sym k), e_out), (out, rest))

pub Distinct-snoc : (xs : List ℕ) (e : ℕ) → Distinct xs → e ∉ xs → Distinct (xs ++ e ∷ [])
Distinct-snoc [] e d out = (tt, tt)
Distinct-snoc (x ∷ xs) e d out =
    (not-mem-snoc x e xs d.0 (λ k. out.0 (sym k)), Distinct-snoc xs e d.1 out.1)

pub has-remove_ne : (x n : ℕ) (l : List ℕ) → x ≢ n → has x (remove n l) ≡ has x l
has-remove_ne x n [] h = refl
has-remove_ne x n (k ∷ l) h = ground (arith, has-remove_ne x n l h)

pub has-remove_self : (n : ℕ) (l : List ℕ) → Distinct l → has n (remove n l) ≡ false
has-remove_self n [] d = refl
has-remove_self n (k ∷ l) d = ground (arith, has-remove_self n l d.1, not-mem→has n l)

pub remove-Distinct : (n : ℕ) (l : List ℕ) → Distinct l → Distinct (remove n l)
remove-Distinct n [] d = d
remove-Distinct n (k ∷ l) d = ground (
  arith,
  remove-Distinct n l d.1,
  has-remove_ne k n l,
  has→not-mem k (remove n l),
  not-mem→has k l,
)
