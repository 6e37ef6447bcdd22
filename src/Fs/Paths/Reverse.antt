-- ===== src/Fs/Paths/Reverse.antt =====
-- The last loop of `sys_getcwd` of fs/fs.c, which turns round a path that was found from the bottom up.
use jack_os.Base.{
  ℕ, zero, suc, ◌+◌, ◌<◌, ◌≤◌, ◌≡◌, refl, ap, List, [], ◌∷◌, ◌++◌, none, some, arith, append_assoc,
  append-nil, length, length-append, ◌∉◌,
}
use jack_os.Fs.Paths.{slash, last_slash, turn_path}

-- The names from the root down as a path, and as the string that was collected from the bottom up.
abbrev pub downward : List (List ℕ) → List ℕ
downward [] = []
downward (name ∷ ns) = (slash ∷ name) ++ downward ns

abbrev pub upward : List (List ℕ) → List ℕ
upward [] = []
upward (name ∷ ns) = upward ns ++ (slash ∷ name)

-- No name has a slash in it.
abbrev pub AreNames : List (List ℕ) → Type 0
AreNames [] = Unit
AreNames (name ∷ ns) = (slash ∉ name) × AreNames ns

no_slash : (name : List ℕ) → slash ∉ name → last_slash name ≡ none
unfolding last_slash
no_slash [] h = refl
no_slash (c ∷ cs) h = rw (no_slash cs h.1) (ground arith)

pub last_slash-append :
    (xs name : List ℕ) → slash ∉ name → last_slash (xs ++ (slash ∷ name)) ≡ some (xs, slash ∷ name)
unfolding last_slash
last_slash-append [] name h = rw (no_slash name h) refl
last_slash-append (x ∷ xs) name h = rw (last_slash-append xs name h) refl

turn_lem :
    (ns : List (List ℕ)) (fuel : ℕ) (buf : List ℕ)
    → AreNames ns
    → length ns < fuel
    → turn_path fuel (upward ns) buf ≡ some (buf ++ downward ns)
unfolding turn_path
turn_lem ns zero buf v h = absurd (omega arith)
turn_lem [] (suc fuel) buf v h = rw (turn_path, no_slash [] tt, append-nil) refl
turn_lem (name ∷ ns) (suc fuel) buf v h =
    rw
      (
        turn_path,
        last_slash-append (upward ns) name v.0,
        turn_lem ns fuel (buf ++ (slash ∷ name)) v.1 (omega arith),
      )
      (ap some (append_assoc buf (slash ∷ name) (downward ns)))

length-upward : (ns : List (List ℕ)) → length ns ≤ length (upward ns)
length-upward [] = omega arith
length-upward (name ∷ ns) =
    omega (arith, length-upward ns, length-append (upward ns) (slash ∷ name))

-- The loop ends, whatever names were collected, if none has a slash in it; then `buf` holds the path
-- from the root down.
turn_path-downward :
    (ns : List (List ℕ))
    → AreNames ns
    → turn_path (length (upward ns) + 1) (upward ns) [] ≡ some (downward ns)
turn_path-downward ns v =
    turn_lem ns (length (upward ns) + 1) [] v (omega (arith, length-upward ns))
