-- ===== src/CString/Copy.antt =====
-- `strcpy` and `strcat` of lib/string.c.
use jack_os.Base.{
  ℕ, zero, suc, ◌+◌, ◌-◌, ◌≤◌, ◌<◌, ◌≡◌, ◌≢◌, ◌⊎◌, some, List, [], ◌∷◌, ◌++◌, arith, length,
  length-append, update, subst,
}
use jack_os.CString.{Memory, Ptr, null, strcpy_loop, strcpy, strcat}
use jack_os.CString.Text.{IsString, IsString-frame, walk-IsString}

-- The `n + 1` bytes from `p` and those from `q` share no address.
abbrev pub Apart : Ptr → Ptr → ℕ → Type 0
Apart p q n = (p + n < q) ⊎ (q + n < p)

-- `m'` holds `s` at `p`, and elsewhere what `m` holds.
pub record Written (m : Memory) (p : Ptr) (s : List ℕ) (m' : Memory) : Type 0 where
  pub text : IsString m' p s
  pub others : (a : Ptr) → (a < p) ⊎ (p + length s < a) → m' a ≡ m a

strcpy_loop_lem :
    (fuel : ℕ) (m : Memory) (des src : Ptr) (s : List ℕ)
    → Apart des src (length s)
    → IsString m src s
    → length s < fuel
    → (m' : Memory) × (strcpy_loop fuel m des src ≡ some m') × Written m des s m'
unfolding strcpy_loop
strcpy_loop_lem zero m des src s ap h f = absurd (omega arith)
strcpy_loop_lem (suc fuel) m des src [] ap h f = (
  update m des (m src),
  ground arith,
  record { text = ground arith; others = λ a o. ground arith },
)
strcpy_loop_lem (suc fuel) m des src (c ∷ s) ap h f =
    let m1 : Memory = update m des (m src) in
    let rest : IsString m1 (src + 1) s =
      IsString-frame m m1 (src + 1) s (λ a l r. ground arith) h.2 in
    let (m', e, w) =
      strcpy_loop_lem fuel m1 (des + 1) (src + 1) s (omega arith) rest (omega arith) in
    (
      m',
      ground arith,
      record {
        text = (ground (arith, w.others des), h.1, w.text);
        others = λ a o. ground (arith, w.others a);
      },
    )

-- `strcpy` of a string to a place that shares no byte with it returns, with the string at that place
-- and every byte outside the place as it was, given fuel for the bytes and the zero.
strcpy_lem :
    (fuel : ℕ) (m : Memory) (des src : Ptr) (s : List ℕ)
    → des ≢ null
    → src ≢ null
    → Apart des src (length s)
    → IsString m src s
    → length s < fuel
    → (m' : Memory) × (strcpy fuel m des src ≡ some m') × Written m des s m'
unfolding strcpy
strcpy_lem fuel m des src s nd ns ap h f =
    let (m', e, w) = strcpy_loop_lem fuel m des src s ap h f in (m', ground arith, w)

-- A string up to its zero, and a string that begins there, are one string.
IsString-append :
    (m m' : Memory) (p : Ptr) (s t : List ℕ)
    → IsString m p s
    → ((a : Ptr) → p ≤ a → a < p + length s → m' a ≡ m a)
    → IsString m' (p + length s) t
    → IsString m' p (s ++ t)
IsString-append m m' p [] t h same k =
    let e : p + 0 ≡ p = omega arith in subst (λ q. IsString m' q t) e k
IsString-append m m' p (c ∷ s) t h same k = (
  ground (arith, same p),
  h.1,
  IsString-append m m' (p + 1) s t h.2 (λ a l r. same a (omega arith) (omega arith))
      (subst (λ q. IsString m' q t) (omega arith) k),
)

-- `strcat` of a string behind another, where the place that it is copied to shares no byte with it,
-- returns with the joined string at `dst`, every byte outside it as it was, given fuel for each of
-- the two strings and its zero.
pub strcat-append :
    (fuel : ℕ) (m : Memory) (dst src : Ptr) (s t : List ℕ)
    → dst ≢ null
    → src ≢ null
    → Apart (dst + length s) src (length t)
    → IsString m dst s
    → IsString m src t
    → length s < fuel
    → length t < fuel
    → (m' : Memory) × (strcat fuel m dst src ≡ some m') × Written m dst (s ++ t) m'
unfolding strcat
strcat-append fuel m dst src s t nd ns ap hs ht fs ft =
    let (m', e, w) = strcpy_loop_lem fuel m (dst + length s) src t ap ht ft in
    let back : dst + length s + 1 - 1 ≡ dst + length s = omega arith in
    (
      m',
      rw (walk-IsString fuel m dst s hs fs, back) (ground arith),
      record {
        text = IsString-append m m' dst s t hs (λ a l r. ground (arith, w.others a)) w.text;
        others = λ a o. ground (arith, w.others a, length-append s t);
      },
    )
