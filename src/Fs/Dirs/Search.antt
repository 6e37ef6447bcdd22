-- ===== src/Fs/Dirs/Search.antt =====
-- The search in a sector and the entry that is written there, of fs/dir.c.
use jack_os.Base.{
  ℕ, zero, suc, ◌+◌, ◌-◌, ◌*◌, ◌<◌, ◌≤◌, ◌≡◌, ◌⊎◌, inl, inr, refl, Bool, true, false, List, [], ◌∷◌,
  none, some, arith, Bool-cases, length, get_or, lt→ltb, le→ltb, le→leb, eq→==, ==→eq, subst, ◌∙◌,
  sym, false≢true, ◌≢◌, ◌↔◌, ltb, if◌then◌else◌, ◌==◌,
}
use jack_os.CString.{Memory, Ptr}
use jack_os.Fs.{blit, word_at}
use jack_os.Fs.Bytes.{blit-at, word_at-bytes}
use jack_os.Fs.Dirs.{
  DirEntry, entry_at, entry_byte, matches, create_dir_entry, cleared_entry, search_sector,
}

-- What holds at the first entry and at those behind it.
behind :
    (P : ℕ → Bool) (de size n : ℕ)
    → P de ≡ false
    → ((i : ℕ) → i < n → P (de + size + i * size) ≡ false)
    → (i : ℕ) → i < suc n
    → P (de + i * size) ≡ false
behind P de size n first rest zero h = let q : de + 0 * size ≡ de = omega arith in rw q first
behind P de size n first rest (suc i) h =
    let step : de + size + i * size ≡ de + suc i * size = grind arith in
    rw (← step) (rest i (omega arith))

-- The string at `p` is `name`: its bytes, and a 0 behind them.
abbrev pub IsNameAt : Memory → Ptr → List ℕ → Type 0
IsNameAt m p name = (k : ℕ) → k ≤ length name → m (p + k) ≡ get_or name k 0

matches_lem : (m : Memory) (name : List ℕ) (p : Ptr) → IsNameAt m p name → matches m p name ≡ true
matches_lem m [] p h =
    let q : p + 0 ≡ p = omega arith in
    let e : m p ≡ 0 = subst (λ a. m a ≡ 0) q (h 0 (omega arith)) in rw e refl
matches_lem m (c ∷ cs) p h =
    let q : p + 0 ≡ p = omega arith in
    let e : m p ≡ c = subst (λ a. m a ≡ c) q (h 0 (omega arith)) in
    let rest =
      matches_lem m cs (p + 1)
        (λ k le. let r : p + 1 + k ≡ p + suc k = omega arith in rw r (h (suc k) (omega arith))) in
    rw (eq→== (m p) c e, rest) refl

matches-IsNameAt :
    (m : Memory) (name : List ℕ) (p : Ptr) → matches m p name ≡ true → IsNameAt m p name
matches-IsNameAt m [] p h zero le = let q : p + 0 ≡ p = omega arith in rw q (==→eq (m p) 0 h)
matches-IsNameAt m [] p h (suc k) le = absurd (omega arith)
matches-IsNameAt m (c ∷ cs) p h zero le =
    let q : p + 0 ≡ p = omega arith in
    let first : (m p == c) ≡ true = ground (arith, h) in rw q (==→eq (m p) c first)
matches-IsNameAt m (c ∷ cs) p h (suc k) le =
    let r : p + suc k ≡ p + 1 + k = omega arith in
    let rest : matches m (p + 1) cs ≡ true = ground (arith, h) in
    rw r (matches-IsNameAt m cs (p + 1) rest k (omega arith))

differs : (m : Memory) (name : List ℕ) (p : Ptr) → matches m p name ≡ false → ¬ IsNameAt m p name
differs m name p h at = false≢true (sym h ∙ matches_lem m name p at)

search_cases :
    (m : Memory) (de : Ptr) (name : List ℕ) (n : ℕ)
    → ((search_sector m de name n ≡ none)
        × ((i : ℕ) → i < n → matches m (de + i * 24) name ≡ false))
      ⊎ ((i : ℕ) × (i < n)
          × (search_sector m de name n ≡ some (de + i * 24))
          × (matches m (de + i * 24) name ≡ true)
          × ((j : ℕ) → j < i → matches m (de + j * 24) name ≡ false))
unfolding search_sector
search_cases m de name zero = inl (refl, λ i h. absurd (omega arith))
search_cases m de name (suc n) =
    let q : de + 0 * 24 ≡ de = omega arith in
    let step : (i : ℕ) → de + 24 + i * 24 ≡ de + suc i * 24 = λ i. omega arith in
    elim (Bool-cases (matches m de name)) [
      | inl e ↦ inr (0, omega arith, rw (e, q) refl, rw q e, λ j h. absurd (omega arith))
      | inr e ↦ elim (search_cases m (de + 24) name n) [
        | inl (none_left, out) ↦
            inl (rw (e, none_left) refl, behind (λ p. matches m p name) de 24 n e out)
        | inr (i, lt, found, hit, before) ↦ inr (
          suc i,
          omega arith,
          rw (e, found, step i) refl,
          rw (← step i) hit,
          behind (λ p. matches m p name) de 24 i e before,
        )
      ]
    ]

-- The search of a sector of entries, of 24 bytes each: either at none of the `n` entries stands the name
-- with a 0 behind it, or the first entry where it does is found.
pub search_sector_lem :
    (m : Memory) (de : Ptr) (name : List ℕ) (n : ℕ)
    → ((search_sector m de name n ≡ none) × ((i : ℕ) → i < n → ¬ IsNameAt m (de + i * 24) name))
      ⊎ ((i : ℕ) × (i < n)
          × (search_sector m de name n ≡ some (de + i * 24))
          × IsNameAt m (de + i * 24) name
          × ((j : ℕ) → j < i → ¬ IsNameAt m (de + j * 24) name))
search_sector_lem m de name n = elim (search_cases m de name n) [
  | inl (e, out) ↦ inl (e, λ i l. differs m name (de + i * 24) (out i l))
  | inr (i, l, e, hit, before) ↦ inr (
    i,
    l,
    e,
    matches-IsNameAt m name (de + i * 24) hit,
    λ j lt. differs m name (de + j * 24) (before j lt),
  )
]

-- The bytes of an entry stand at `p`.
module _ (m : Memory) (p : Ptr) (de : DirEntry) where
  abbrev put : Memory
  put = blit m p 24 (entry_byte de)

  put-name : (k : ℕ) → k < 16 → put (p + k) ≡ de.filename k
  put-name k h = blit-at m p 24 (entry_byte de) k (omega arith) ∙ rw (lt→ltb k 16 h) refl

  put-i_no : de.i_no < 0x1_0000_0000 → word_at put (p + 16) ≡ de.i_no
  put-i_no small = word_at-bytes put (p + 16) de.i_no small (λ j h.
      let q : p + 16 + j ≡ p + (16 + j) = omega arith in
      let r : 16 + j - 16 ≡ j = omega arith in
      rw q (
        blit-at m p 24 (entry_byte de) (16 + j) (omega arith)
        ∙ rw (le→ltb (16 + j) 16 (omega arith), lt→ltb (16 + j) 20 (omega arith), r) refl))

  put-f_type : de.f_type < 0x1_0000_0000 → word_at put (p + 20) ≡ de.f_type
  put-f_type small = word_at-bytes put (p + 20) de.f_type small (λ j h.
      let q : p + 20 + j ≡ p + (20 + j) = omega arith in
      let r : 20 + j - 20 ≡ j = omega arith in
      rw q (
        blit-at m p 24 (entry_byte de) (20 + j) (omega arith)
        ∙ rw (le→ltb (20 + j) 16 (omega arith), le→ltb (20 + j) 20 (omega arith), r) refl))

-- No byte of a name is 0.
abbrev pub IsText : List ℕ → Type 0
IsText [] = Unit
IsText (c ∷ cs) = (c ≢ 0) × IsText cs

-- Two names at one place are the same.
one_name :
    (m : Memory) (p : Ptr) (a b : List ℕ)
    → IsText a
    → IsText b
    → IsNameAt m p a
    → IsNameAt m p b
    → a ≡ b
one_name m p [] [] ta tb ha hb = refl
one_name m p [] (c ∷ cs) ta tb ha hb = absurd (tb.0 (sym (hb 0 (omega arith)) ∙ ha 0 (omega arith)))
one_name m p (c ∷ cs) [] ta tb ha hb = absurd (ta.0 (sym (ha 0 (omega arith)) ∙ hb 0 (omega arith)))
one_name m p (c ∷ cs) (d ∷ ds) ta tb ha hb =
    let first : c ≡ d = sym (ha 0 (omega arith)) ∙ hb 0 (omega arith) in
    let shift : (xs : List ℕ) (x : ℕ) → IsNameAt m p (x ∷ xs) → IsNameAt m (p + 1) xs =
      λ xs x h k le.
        let r : p + 1 + k ≡ p + suc k = omega arith in rw r (h (suc k) (omega arith)) in
    let rest = one_name m (p + 1) cs ds ta.1 tb.1 (shift cs c ha) (shift ds d hb) in
    rw (first, rest) refl

get_or-past : (name : List ℕ) (k : ℕ) → length name ≤ k → get_or name k 0 ≡ 0
get_or-past [] k h = refl
get_or-past (c ∷ cs) zero h = absurd (omega arith)
get_or-past (c ∷ cs) (suc k) h = get_or-past cs k (omega arith)

kept_name :
    (name : List ℕ) (k : ℕ) → (if ltb k (length name) then get_or name k 0 else 0) ≡ get_or name k 0
kept_name name k = elim (Bool-cases (ltb k (length name))) [
  | inl inside ↦ rw inside refl
  | inr past ↦ rw past (sym (get_or-past name k (ground arith)))
]

-- An entry that `create_dir_entry` makes of one that was cleared, for a name of at most 15 bytes, and that
-- is written to a sector: the comparison of a search finds it the same as another name exactly if that
-- is its own, and the inode and the type are those that were given.
pub create_dir_entry-matches :
    (m : Memory) (p : Ptr) (name : List ℕ) (inode_no file_type : ℕ)
    → IsText name
    → length name ≤ 15
    → inode_no < 4096
    → file_type ≤ 2
    → (de : DirEntry) × (create_dir_entry name inode_no file_type cleared_entry ≡ some de)
      × (let m' = blit m p 24 (entry_byte de) in
          ((other : List ℕ) → IsText other → (matches m' p other ≡ true) ↔ (other ≡ name))
          × ((entry_at m' p).i_no ≡ inode_no)
          × ((entry_at m' p).f_type ≡ file_type))
unfolding create_dir_entry
create_dir_entry-matches m p name inode_no file_type text short low kind =
    let de : DirEntry = record {
      filename = λ k. if ltb k (length name) then get_or name k 0 else 0;
      i_no = inode_no;
      f_type = file_type;
    } in
    let m' = blit m p 24 (entry_byte de) in
    let there : IsNameAt m' p name = λ k le. put-name m p de k (omega arith) ∙ kept_name name k in
    (
      de,
      rw (le→leb (length name) 16 (omega arith)) refl,
      (
        λ other t. (
          λ hit. one_name m' p other name t text (matches-IsNameAt m' other p hit) there,
          λ same. matches_lem m' other p (subst (IsNameAt m' p) (sym same) there),
        ),
        put-i_no m p de (omega arith),
        put-f_type m p de (omega arith),
      ),
    )
