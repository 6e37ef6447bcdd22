-- ===== src/Fs/Bytes.antt =====
-- Blocks of bytes that are read and written, and 32-bit numbers in them.
use jack_os.Base.{
  ℕ, ◌∷◌, some, ◌+◌, ◌-◌, ◌*◌, ◌<◌, ◌≤◌, ◌≡◌, refl, sym, ◌∙◌, ap, ◌⊎◌, inl, inr, arith, Bool-cases,
  ◌&&◌, leb, ltb,
}
use jack_os.CString.{Ptr}
use jack_os.Fs.{Fs, blit, clear, word_at, byte_of, sys_malloc}

module _ (m : ℕ → ℕ) (p n : ℕ) (bytes : ℕ → ℕ) where
  pub blit-in : (a : ℕ) → p ≤ a → a < p + n → blit m p n bytes a ≡ bytes (a - p)
  blit-in a low high = ground arith

  pub blit-at : (i : ℕ) → i < n → blit m p n bytes (p + i) ≡ bytes i
  blit-at i h =
      let q : p + i - p ≡ i = omega arith in
      rw (blit-in (p + i) (omega arith) (omega arith), q) refl

  pub blit-out : (a : ℕ) → (a < p) ⊎ (p + n ≤ a) → blit m p n bytes a ≡ m a
  blit-out a out = ground arith

-- Blocks of the same bytes, over the same bytes.
pub blit-same :
    (m m' : ℕ → ℕ) (p n : ℕ) (bytes bytes' : ℕ → ℕ)
    → ((a : ℕ) → m a ≡ m' a)
    → ((k : ℕ) → k < n → bytes k ≡ bytes' k)
    → (a : ℕ) → blit m p n bytes a ≡ blit m' p n bytes' a
blit-same m m' p n bytes bytes' around same a = elim (Bool-cases (leb p a && ltb a (p + n))) [
  | inl inside ↦ let offset : a - p < n = ground arith in rw inside (same (a - p) offset)
  | inr out ↦ rw out (around a)
]

-- Two blocks side by side are one.
pub blit-append :
    (m m₁ : ℕ → ℕ) (p n k : ℕ) (b b' whole : ℕ → ℕ)
    → ((a : ℕ) → m₁ a ≡ blit m p n b a)
    → ((i : ℕ) → i < n → b i ≡ whole i)
    → ((i : ℕ) → i < k → b' i ≡ whole (n + i))
    → (a : ℕ) → blit m₁ (p + n) k b' a ≡ blit m p (n + k) whole a
blit-append m m₁ p n k b b' whole first front back a = elim (Bool-cases (leb (p + n) a)) [
  | inr before ↦ elim (Bool-cases (leb p a)) [
    | inr out ↦
        blit-out m₁ (p + n) k b' a (inl (ground arith))
        ∙ first a
        ∙ blit-out m p n b a (inl (ground arith))
        ∙ sym (blit-out m p (n + k) whole a (inl (ground arith)))
    | inl inside ↦
        let offset : a - p < n = ground arith in
        blit-out m₁ (p + n) k b' a (inl (ground arith))
        ∙ first a
        ∙ blit-in m p n b a (ground arith) (ground arith)
        ∙ front (a - p) offset
        ∙ sym (blit-in m p (n + k) whole a (ground arith) (ground arith))
  ]
  | inl after ↦ elim (Bool-cases (ltb a (p + n + k))) [
    | inl inside ↦
        let offset : a - (p + n) < k = ground arith in
        let place : n + (a - (p + n)) ≡ a - p = ground arith in
        blit-in m₁ (p + n) k b' a (ground arith) (ground arith)
        ∙ back (a - (p + n)) offset
        ∙ ap whole place
        ∙ sym (blit-in m p (n + k) whole a (ground arith) (ground arith))
    | inr out ↦
        blit-out m₁ (p + n) k b' a (inr (ground arith))
        ∙ first a
        ∙ blit-out m p n b a (inr (ground arith))
        ∙ sym (blit-out m p (n + k) whole a (inr (ground arith)))
  ]
]

word_sum :
    (w : ℕ)
    → w < 0x1_0000_0000
    → byte_of w 0 + 256 * byte_of w 1 + 65536 * byte_of w 2 + 16777216 * byte_of w 3 ≡ w
word_sum w h = omega arith

pub word_at-bytes :
    (f : ℕ → ℕ) (a w : ℕ)
    → w < 0x1_0000_0000
    → ((j : ℕ) → j < 4 → f (a + j) ≡ byte_of w j)
    → word_at f a ≡ w
word_at-bytes f a w h bytes =
    let q : a + 0 ≡ a = omega arith in
    let b₀ : f a ≡ byte_of w 0 = rw (← q) (bytes 0 (omega arith)) in
    rw (b₀, bytes 1 (omega arith), bytes 2 (omega arith), bytes 3 (omega arith)) (word_sum w h)

pub sys_malloc-some :
    (size : ℕ) (fs : Fs) (p : Ptr)
    → fs.pick fs.pgdir fs.live size ≡ some p
    → sys_malloc size fs ≡ (p, clear p size (record fs { live = p ∷ fs.live }))
unfolding sys_malloc
sys_malloc-some size fs p e = rw (sys_malloc, e) refl
