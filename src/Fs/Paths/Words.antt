-- ===== src/Fs/Paths/Words.antt =====
-- The words of a text, told apart by a separator, and `path_parse` of fs/fs.c as taking the first.
use jack_os.Base.{
  ℕ, ◌≡◌, ◌≢◌, refl, ◌∙◌, sym, ap, List, [], ◌∷◌, ◌++◌, Option, none, some, arith, ◌==◌,
  if◌then◌else◌, ◌∉◌, ◌⊎◌, ◌<◌, length, Bool-cases, inl, inr, ==→ne, eq→==, ne→==,
}
use jack_os.Fs.Paths.{slash, skip_slashes, take_name, path_parse}

-- A word and the words behind it: it counts if it is not empty.
abbrev pub flush : List ℕ → List (List ℕ) → List (List ℕ)
flush [] ws = ws
flush (c ∷ cs) ws = (c ∷ cs) ∷ ws

-- The text up to the first separator, and the words behind that.
unfoldable pub split : ℕ → List ℕ → List ℕ × List (List ℕ)
split sep [] = ([], [])
split sep (c ∷ cs) =
    let (w, ws) = split sep cs in if c == sep then ([], flush w ws) else (c ∷ w, ws)

-- The words: the longest pieces that are not empty and hold no separator.
abbrev pub words : ℕ → List ℕ → List (List ℕ)
words sep p = flush (split sep p).0 (split sep p).1

words-skip : (p : List ℕ) → words slash (skip_slashes p) ≡ words slash p
unfolding skip_slashes split
words-skip [] = refl
words-skip (c ∷ cs) = elim (Bool-cases (c == slash)) [
  | inl e ↦
      let q : skip_slashes (c ∷ cs) ≡ skip_slashes cs = rw e refl in
      let r : words slash (c ∷ cs) ≡ words slash cs = rw e refl in
      ap (words slash) q ∙ words-skip cs ∙ sym r
  | inr e ↦ let q : skip_slashes (c ∷ cs) ≡ c ∷ cs = rw e refl in ap (words slash) q
]

split-take : (p : List ℕ) → split slash p ≡ ((take_name p).0, words slash (take_name p).1)
unfolding take_name split
split-take [] = refl
split-take (c ∷ cs) = elim (Bool-cases (c == slash)) [
  | inl e ↦ rw (e, split, e) refl
  | inr e ↦ rw (e, split-take cs) refl
]

abbrev pub left_words : Option (List ℕ) → List (List ℕ)
left_words none = []
left_words (some p) = words slash p

-- `path_parse` takes the first word.
pub parse_words :
    (p : List ℕ) → words slash p ≡ flush (path_parse p).0 (left_words (path_parse p).1)
unfolding path_parse split
parse_words p =
    let q = split-take (skip_slashes p) in
    sym (words-skip p)
    ∙ ap (λ x. flush x.0 x.1) q
    ∙ ap (flush (take_name (skip_slashes p)).0) (sym (left (take_name (skip_slashes p)).1))
  where
    left : (r : List ℕ) → left_words (elim r [ [] ↦ none | c ∷ cs ↦ some (c ∷ cs) ]) ≡ words slash r
    left [] = refl
    left (c ∷ cs) = refl

-- Words of fewer than `n` bytes.
abbrev pub AreShort : ℕ → List (List ℕ) → Type 0
AreShort n [] = Unit
AreShort n (w ∷ ws) = (length w < n) × AreShort n ws

-- A word is not empty and has no separator in it.
abbrev pub AreWords : ℕ → List (List ℕ) → Type 0
AreWords sep [] = Unit
AreWords sep (w ∷ ws) = ((sep ∉ w) × (w ≢ [])) × AreWords sep ws

flush-AreWords :
    (sep : ℕ) (w : List ℕ) (ws : List (List ℕ))
    → sep ∉ w
    → AreWords sep ws
    → AreWords sep (flush w ws)
flush-AreWords sep [] ws out all = all
flush-AreWords sep (c ∷ cs) ws out all = ((out, λ e. cc e), all)

split-AreWords : (sep : ℕ) (p : List ℕ) → (sep ∉ (split sep p).0) × AreWords sep (split sep p).1
unfolding split
split-AreWords sep [] = (tt, tt)
split-AreWords sep (c ∷ cs) =
    let (out, all) = split-AreWords sep cs in
    elim (Bool-cases (c == sep)) [
      | inl e ↦ rw e (tt, flush-AreWords sep (split sep cs).0 (split sep cs).1 out all)
      | inr e ↦ rw e ((λ q. ==→ne c sep e (sym q), out), all)
    ]

pub words-AreWords : (sep : ℕ) (p : List ℕ) → AreWords sep (words sep p)
words-AreWords sep p =
    let (out, all) = split-AreWords sep p in
    flush-AreWords sep (split sep p).0 (split sep p).1 out all

-- Where there is no name, nothing is left.
pub no_name-no_rest : (p : List ℕ) → (path_parse p).0 ≡ [] → (path_parse p).1 ≡ none
unfolding path_parse skip_slashes take_name
no_name-no_rest [] h = refl
no_name-no_rest (c ∷ cs) h = elim (Bool-cases (c == slash)) [
  | inl e ↦
      let q : path_parse (c ∷ cs) ≡ path_parse cs = rw e refl in
      ap (λ x. x.1) q ∙ no_name-no_rest cs (sym (ap (λ x. x.0) q) ∙ h)
  | inr e ↦ absurd (ground arith)
]

-- A parse finds no name where there is no word, else the first word.
pub parse-cases :
    (p : List ℕ)
    → (((path_parse p).0 ≡ []) × (words slash p ≡ []))
      ⊎ ((c : ℕ) × (cs : List ℕ) × (p' : Option (List ℕ)) × (path_parse p ≡ (c ∷ cs, p'))
          × (words slash p ≡ (c ∷ cs) ∷ left_words p'))
parse-cases p = go (path_parse p).0 (path_parse p).1 refl (parse_words p)
  where
    go :
        (name : List ℕ) (p' : Option (List ℕ))
        → path_parse p ≡ (name, p')
        → words slash p ≡ flush name (left_words p')
        → (((path_parse p).0 ≡ []) × (words slash p ≡ []))
          ⊎ ((c : ℕ) × (cs : List ℕ) × (p' : Option (List ℕ)) × (path_parse p ≡ (c ∷ cs, p'))
              × (words slash p ≡ (c ∷ cs) ∷ left_words p'))
    go [] p' e q =
        let none_left =
          ap left_words (sym (ap (λ x. x.1) e) ∙ no_name-no_rest p (ap (λ x. x.0) e)) in
        inl (ap (λ x. x.0) e, q ∙ none_left)
    go (c ∷ cs) p' e q = inr (c, cs, p', e, q)

-- A word in front of a separator is the first.
pub split-append :
    (sep : ℕ) (n q : List ℕ) → sep ∉ n → split sep (n ++ (sep ∷ q)) ≡ (n, words sep q)
unfolding split
split-append sep [] q out = rw (eq→== sep sep refl) refl
split-append sep (c ∷ cs) q out =
    rw (split-append sep cs q out.1, ne→== c sep (λ e. out.0 (sym e))) refl
