-- ===== src/Shell/Wash.antt =====
-- `wash_path` of shell/builtin_cmd.c against the names that a path goes down and up.
use jack_os.Base.{
  ℕ, zero, suc, ◌+◌, ◌<◌, ◌≤◌, ◌≡◌, ◌≢◌, refl, ◌∙◌, ap, subst, List, [], ◌∷◌, ◌++◌, Option, none,
  some, true, false, not, arith, ◌==◌, if◌then◌else◌, length, ◌∉◌, Bool-cases, inl, inr,
  append_assoc, and-false, lt→ltb, ltb,
}
use jack_os.Fs.Paths.{slash, parse_next, last_slash}
use jack_os.Fs.Paths.Parts.{left_length, parse_lem}
use jack_os.Fs.Paths.Reverse.{upward, last_slash-append}
use jack_os.Fs.Dirs.{dot, dot_dot}
use jack_os.Shell.{
  str_same, no_chars, wash_name, wash_loop, starts_with_slash, wash_path, make_clear_abs_path,
}
use jack_os.Fs.Paths.Words.{
  AreShort, words, left_words, flush, AreWords, words-AreWords, parse-cases, split-append,
}

-- The names from a directory up to the root, after one more name: `..` goes up, and stays at the root.
unfoldable pub step : List (List ℕ) → List ℕ → List (List ℕ)
step st name =
    if str_same dot_dot name
    then elim st [ [] ↦ [] | n ∷ ns ↦ ns ]
    else if str_same dot name
    then st
    else name ∷ st

abbrev pub resolve : List (List ℕ) → List (List ℕ) → List (List ℕ)
resolve st [] = st
resolve st (w ∷ ws) = resolve (step st w) ws

-- The path of a directory: `/` for the root, else a slash before each name.
abbrev pub path_of : List (List ℕ) → List ℕ
path_of [] = slash ∷ []
path_of (n ∷ ns) = upward (n ∷ ns)

step-AreWords :
    (st : List (List ℕ)) (name : List ℕ)
    → AreWords slash st
    → (slash ∉ name) × (name ≢ [])
    → AreWords slash (step st name)
unfolding step
step-AreWords st name all word = elim (Bool-cases (str_same dot_dot name)) [
  | inl up ↦ rw up (tail st all)
  | inr down ↦ elim (Bool-cases (str_same dot name)) [
    | inl here ↦ rw (down, here) all
    | inr there ↦ rw (down, there) (word, all)
  ]
]
  where
    tail :
        (st : List (List ℕ))
        → AreWords slash st
        → AreWords slash (elim st [ [] ↦ [] | n ∷ ns ↦ ns ])
    tail [] all = tt
    tail (n ∷ ns) all = all.1

not_empty : (xs n : List ℕ) → no_chars (xs ++ (slash ∷ n)) ≡ false
not_empty [] n = refl
not_empty (x ∷ xs) n = refl

not_same : (xs n : List ℕ) → str_same (xs ++ (slash ∷ n)) [] ≡ false
not_same [] n = refl
not_same (x ∷ xs) n = refl

not_root : (xs n : List ℕ) → n ≢ [] → str_same (xs ++ (slash ∷ n)) (slash ∷ []) ≡ false
not_root [] [] h = absurd (h refl)
not_root [] (c ∷ cs) h = refl
not_root (x ∷ xs) n h = rw (not_same xs n) (and-false (x == slash))

wash_name_lem :
    (st : List (List ℕ)) (name : List ℕ)
    → AreWords slash st
    → wash_name name (path_of st) ≡ some (path_of (step st name))
unfolding wash_name step last_slash
wash_name_lem st name all = elim (Bool-cases (str_same dot_dot name)) [
  | inl up ↦ rw (up) (go_up st all)
  | inr down ↦ elim (Bool-cases (str_same dot name)) [
    | inl here ↦ rw (down, here) refl
    | inr there ↦ rw (down, there) (go_down st all)
  ]
]
  where
    go_up :
        (st : List (List ℕ))
        → AreWords slash st
        → elim (last_slash (path_of st)) [
          | none ↦ none
          | some (front, back) ↦ some (if no_chars front then slash ∷ [] else front)
        ]
          ≡ some (path_of (elim st [ [] ↦ [] | n ∷ ns ↦ ns ]))
    go_up [] all = refl
    go_up (n ∷ []) all = rw (last_slash-append [] n all.0.0) refl
    go_up (n ∷ m ∷ ns) all =
        rw (last_slash-append (upward (m ∷ ns)) n all.0.0, not_empty (upward ns) m) refl

    go_down :
        (st : List (List ℕ))
        → AreWords slash st
        → some (
            (if not (str_same (path_of st) (slash ∷ []))
              then path_of st ++ slash ∷ []
              else path_of st)
            ++ name)
          ≡ some (upward (name ∷ st))
    go_down [] all = refl
    go_down (n ∷ ns) all =
        rw (not_root (upward ns) n all.0.1)
          (ap some (append_assoc (upward (n ∷ ns)) (slash ∷ []) name))

-- The loop ends with the path of the directory that the words lead to, given a round for each byte.
wash_loop_lem :
    (fuel : ℕ) (p : Option (List ℕ)) (st : List (List ℕ))
    → AreWords slash st
    → AreShort 16 (left_words p)
    → left_length p < fuel
    → wash_loop fuel (parse_next p).0 (parse_next p).1 (path_of st)
      ≡ some (path_of (resolve st (left_words p)))
unfolding wash_loop
wash_loop_lem zero p st all short h = absurd (omega arith)
wash_loop_lem (suc fuel) none st all short h = refl
wash_loop_lem (suc fuel) (some p) st all short h = elim (parse-cases p) [
  | inl (e, w) ↦ rw (e, w) refl
  | inr (c, cs, p', e, w) ↦
      let (word, rest) = subst (AreWords slash) w (words-AreWords slash p) in
      let len = subst (λ x. left_length x.1 + length x.0 ≤ length p) e (parse_lem p) in
      let (fits, later) = subst (AreShort 16) w short in
      let next =
        wash_loop_lem fuel p' (step st (c ∷ cs)) (step-AreWords st (c ∷ cs) all word) later
          (omega arith) in
      rw (e, w, lt→ltb (length (c ∷ cs)) 16 fits, wash_name_lem st (c ∷ cs) all) next
]

-- `wash_path` of a path from the root, with names of at most 15 bytes, returns: the path of the directory that the names of the path lead
-- to, `.` staying where it is and `..` going one up, and staying at the root. The names are the pieces
-- between slashes that are not empty.
pub wash_path-resolve :
    (p : List ℕ)
    → starts_with_slash p ≡ true
    → AreShort 16 (words slash p)
    → wash_path p ≡ some (path_of (resolve [] (words slash p)))
unfolding wash_path
wash_path-resolve p start short = elim (parse-cases p) [
  | inl (e, w) ↦ rw (start, e, w) refl
  | inr (c, cs, p', e, w) ↦
      let next = wash_loop_lem (length p + 1) (some p) [] tt short (omega arith) in
      rw (start, e)
        (subst
          (λ x.
            wash_loop (length p + 1) x.0 x.1 (slash ∷ [])
            ≡ some (path_of (resolve [] (words slash p))))
          e next)
]

-- Names of directories: words that are neither `.` nor `..`.
abbrev pub AreDirs : List (List ℕ) → Type 0
AreDirs [] = Unit
AreDirs (n ∷ ns) =
    ((slash ∉ n) × (n ≢ []) × (str_same dot_dot n ≡ false) × (str_same dot n ≡ false)) × AreDirs ns

-- The path of a directory leads to it.
resolve-upward :
    (st : List (List ℕ)) (q : List ℕ)
    → AreDirs st
    → resolve [] (words slash (upward st ++ (slash ∷ q))) ≡ resolve st (words slash q)
unfolding step
resolve-upward [] q all = ap (λ x. resolve [] (flush x.0 x.1)) (split-append slash [] q tt)
resolve-upward ([] ∷ ns) q all = absurd (all.0.1 refl)
resolve-upward ((c ∷ cs) ∷ ns) q all =
    let (out, ne, down, there) = all.0 in
    let path = append_assoc (upward ns) (slash ∷ c ∷ cs) (slash ∷ q) in
    let plain : step ns (c ∷ cs) ≡ (c ∷ cs) ∷ ns = rw (step, down, there) refl in
    let first : words slash ((c ∷ cs) ++ (slash ∷ q)) ≡ (c ∷ cs) ∷ words slash q =
      ap (λ x. flush x.0 x.1) (split-append slash (c ∷ cs) q out) in
    ap (λ x. resolve [] (words slash x)) path
    ∙ resolve-upward ns ((c ∷ cs) ++ (slash ∷ q)) all.1
    ∙ ap (resolve ns) first
    ∙ ap (λ x. resolve x (words slash q)) plain

starts-append :
    (xs n q : List ℕ)
    → starts_with_slash ((xs ++ (slash ∷ n)) ++ q) ≡ starts_with_slash (xs ++ (slash ∷ n))
starts-append [] n q = refl
starts-append (x ∷ xs) n q = refl

starts-upward : (ns : List (List ℕ)) (n : List ℕ) → starts_with_slash (upward (n ∷ ns)) ≡ true
starts-upward [] n = refl
starts-upward (m ∷ ns) n = starts-append (upward ns) m (slash ∷ n) ∙ starts-upward ns m

-- A path from a directory, as a path from the root.
abbrev pub from_root : List (List ℕ) → List ℕ → List ℕ
from_root st path = if starts_with_slash path then path else upward st ++ (slash ∷ path)

-- `make_clear_abs_path` in a directory whose path `getcwd` gives returns, if the path from the root has
-- fewer than 512 bytes and its names at most 15: the path of the directory that the names of `path`
-- lead to, from the root if the path starts with a slash, else from that directory; `.` stays and `..`
-- goes one up, and stays at the root. The names are the pieces between slashes that are not empty.
pub make_clear_abs_path-resolve :
    (st : List (List ℕ)) (path : List ℕ)
    → AreDirs st
    → AreShort 16 (words slash (from_root st path))
    → length (from_root st path) < 512
    → make_clear_abs_path (some (path_of st)) path
      ≡ some (path_of (resolve (if starts_with_slash path then [] else st) (words slash path)))
unfolding make_clear_abs_path
make_clear_abs_path-resolve st path all short fits = elim (Bool-cases (starts_with_slash path)) [
  | inl absolute ↦
      let own : from_root st path ≡ path = rw absolute refl in
      let room = subst (λ p. length p < 512) own fits in
      rw (absolute, lt→ltb (length path) 512 room)
        (wash_path-resolve path absolute (subst (λ p. AreShort 16 (words slash p)) own short))
  | inr relative ↦
      let own : from_root st path ≡ upward st ++ (slash ∷ path) = rw relative refl in
      rw relative (
        go st all (subst (λ p. AreShort 16 (words slash p)) own short)
          (subst (λ p. length p < 512) own fits))
]
  where
    go :
        (st : List (List ℕ))
        → AreDirs st
        → AreShort 16 (words slash (upward st ++ (slash ∷ path)))
        → length (upward st ++ (slash ∷ path)) < 512
        → (let whole =
              (if str_same (path_of st) (slash ∷ []) then path_of st else path_of st ++ slash ∷ [])
              ++ path in
            if ltb (length whole) 512 then wash_path whole else none)
          ≡ some (path_of (resolve st (words slash path)))
    go [] all short fits = rw (lt→ltb (length (slash ∷ path)) 512 fits) (
        wash_path-resolve (slash ∷ path) refl short
        ∙ ap (λ x. some (path_of x)) (resolve-upward [] path all))
    go (n ∷ ns) all short fits =
        let whole = append_assoc (upward (n ∷ ns)) (slash ∷ []) path in
        let start = starts-append (upward ns) n (slash ∷ path) ∙ starts-upward ns n in
        rw
          (
            not_root (upward ns) n all.0.1,
            whole,
            lt→ltb (length (upward (n ∷ ns) ++ (slash ∷ path))) 512 fits,
          )
          (wash_path-resolve (upward (n ∷ ns) ++ (slash ∷ path)) start short
            ∙ ap (λ x. some (path_of x)) (resolve-upward (n ∷ ns) path all))
