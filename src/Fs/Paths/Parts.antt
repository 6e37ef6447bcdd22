-- ===== src/Fs/Paths/Parts.antt =====
-- `path_depth_cnt` of fs/fs.c against the number of names in a path.
use jack_os.Base.{
  ℕ, zero, suc, ◌+◌, ◌<◌, ◌≤◌, ◌≡◌, refl, ◌∙◌, Bool, true, false, not, ◌||◌, List, [], ◌∷◌, Option,
  none, some, arith, ◌==◌, if◌then◌else◌, length, inl, inr, ap, subst, le→leb,
}
use jack_os.Fs.Paths.{slash, skip_slashes, take_name, path_parse, depth_loop, path_depth_cnt}
use jack_os.Fs.Paths.Words.{AreShort, words, left_words, parse-cases, no_name-no_rest}

length-skip : (p : List ℕ) → length (skip_slashes p) ≤ length p
unfolding skip_slashes
length-skip [] = omega arith
length-skip (c ∷ cs) = ground (arith, length-skip cs)

length-take_name : (p : List ℕ) → length (take_name p).0 + length (take_name p).1 ≡ length p
unfolding take_name
length-take_name [] = refl
length-take_name (c ∷ cs) = ground (arith, length-take_name cs)

-- The length of what is left to parse.
abbrev pub left_length : Option (List ℕ) → ℕ
left_length none = 0
left_length (some p) = length p

rest_lem : (r : List ℕ) → left_length (elim r [ [] ↦ none | c ∷ cs ↦ some (c ∷ cs) ]) ≡ length r
rest_lem [] = refl
rest_lem (c ∷ cs) = refl

-- A parse leaves the path without the name.
pub parse_lem : (p : List ℕ) → left_length (path_parse p).1 + length (path_parse p).0 ≤ length p
unfolding path_parse
parse_lem p =
    let q = skip_slashes p in
    omega (arith, rest_lem (take_name q).1, length-take_name q, length-skip p)

some_name : (c : ℕ) (cs : List ℕ) → (length (c ∷ cs) == 0) ≡ false
some_name c cs = ground arith

depth_loop_lem :
    (fuel : ℕ) (present : Bool) (p : Option (List ℕ)) (depth : ℕ)
    → AreShort 17 (left_words p)
    → (if present then left_length p + 1 else 0) < fuel
    → depth_loop fuel present p depth
      ≡ some (if present then depth + 1 + length (left_words p) else depth)
unfolding depth_loop
depth_loop_lem zero present p depth short h = absurd (omega arith)
depth_loop_lem (suc fuel) false p depth short h = refl
depth_loop_lem (suc fuel) true none depth short h =
    depth_loop_lem fuel false none (depth + 1) tt (omega arith) ∙ ap some (omega arith)
depth_loop_lem (suc fuel) true (some p) depth short h = elim (parse-cases p) [
  | inl (e, w) ↦
      let next = depth_loop_lem fuel false none (depth + 1) tt (omega arith) in
      let over = no_name-no_rest p e in rw (e, over, next, w) (ap some (omega arith))
  | inr (c, cs, p', e, w) ↦
      let len = subst (λ x. left_length x.1 + length x.0 ≤ length p) e (parse_lem p) in
      let (fits, later) = subst (AreShort 17) w short in
      let next = depth_loop_lem fuel true p' (depth + 1) later (omega arith) in
      rw (e, w, le→leb (length (c ∷ cs)) 16 (omega arith), some_name c cs, next)
        (ap some (omega arith))
]

-- `path_depth_cnt` of a path whose names have at most 16 bytes returns: the number of its names, the
-- pieces between slashes that are not empty, if there is one. Without a name it is 0, or 1 if the byte
-- that stood in the array was not 0.
pub path_depth_cnt-names :
    (garbage : ℕ) (pathname : List ℕ)
    → AreShort 17 (words slash pathname)
    → path_depth_cnt garbage pathname
      ≡ some (
          if length (words slash pathname) == 0
          then (if garbage == 0 then 0 else 1)
          else length (words slash pathname))
unfolding path_depth_cnt
path_depth_cnt-names garbage pathname short = elim (parse-cases pathname) [
  | inl (e, w) ↦
      let over = no_name-no_rest pathname e in
      let go : (present : Bool) → _ =
        λ present. depth_loop_lem (length pathname + 2) present none 0 tt (ground arith) in
      rw (e, over, w, go (false || not (garbage == 0))) (empty garbage)
  | inr (c, cs, p', e, w) ↦
      let len =
        subst (λ x. left_length x.1 + length x.0 ≤ length pathname) e (parse_lem pathname) in
      let (fits, later) = subst (AreShort 17) w short in
      let next = depth_loop_lem (length pathname + 2) true p' 0 later (omega arith) in
      rw (e, w, le→leb (length (c ∷ cs)) 16 (omega arith), some_name c cs, next)
        (ap some (ground arith))
]
  where
    empty :
        (g : ℕ)
        → some (if false || not (g == 0) then 0 + 1 + 0 else 0) ≡ some (if g == 0 then 0 else 1)
    empty g = ground arith
