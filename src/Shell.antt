-- ===== src/Shell.antt =====
-- shell/builtin_cmd.c: the cleaning of a path. A string is the list of its bytes before the 0. `none` is
-- an `assert` that failed, a write through NULL, or a string that its array has no room for: `name` has
-- 16 bytes, `abs_path` 512, and so has the array of the caller for the result.
pub mod Wash
mod Tests
use jack_os.Base.{
  ℕ, zero, suc, ◌+◌, Bool, true, false, not, ◌&&◌, List, [], ◌∷◌, ◌++◌, Option, none, some, ltb,
  ◌==◌, if◌then◌else◌, assert, ◌>>=◌, ◌>>◌, length,
}
use jack_os.Fs.Paths.{slash, max_file_name_len, path_parse, parse_next, last_slash}
use jack_os.Fs.Dirs.{dot, dot_dot}

abbrev pub max_path_len : ℕ
max_path_len = 512

-- `!strcmp(a, b)`
abbrev pub str_same : List ℕ → List ℕ → Bool
str_same [] [] = true
str_same [] (y ∷ ys) = false
str_same (x ∷ xs) [] = false
str_same (x ∷ xs) (y ∷ ys) = (x == y) && str_same xs ys

abbrev pub no_chars : List ℕ → Bool
no_chars [] = true
no_chars (c ∷ cs) = false

-- One round: what `name` does to `new_abs_path`.
unfoldable pub wash_name : List ℕ → List ℕ → Option (List ℕ)
wash_name name new_abs_path =
    if str_same dot_dot name
    then elim (last_slash new_abs_path) [
      | none ↦ none
      | some (front, back) ↦ some (if no_chars front then slash ∷ [] else front)
    ]
    else if not (str_same dot name)
    then some (
        (if not (str_same new_abs_path (slash ∷ []))
          then new_abs_path ++ slash ∷ []
          else new_abs_path)
        ++ name)
    else some new_abs_path

-- The loop, on fuel.
unfoldable pub wash_loop : ℕ → List ℕ → Option (List ℕ) → List ℕ → Option (List ℕ)
wash_loop zero name sub_path new_abs_path = none
wash_loop (suc fuel) name sub_path new_abs_path = if no_chars name then some new_abs_path else (do
  assert (ltb (length name) max_file_name_len)
  new_abs_path ← wash_name name new_abs_path
  wash_loop fuel (parse_next sub_path).0 (parse_next sub_path).1 new_abs_path)

abbrev pub starts_with_slash : List ℕ → Bool
starts_with_slash [] = false
starts_with_slash (c ∷ cs) = c == slash

unfoldable pub wash_path : List ℕ → Option (List ℕ)
wash_path old_abs_path = do
  assert (starts_with_slash old_abs_path)
  let (name, sub_path) = path_parse old_abs_path
  if no_chars name
      then some (slash ∷ [])
      else wash_loop (length old_abs_path + 1) name sub_path (slash ∷ [])

-- `cwd` is what `getcwd` stored, or NULL.
unfoldable pub make_clear_abs_path : Option (List ℕ) → List ℕ → Option (List ℕ)
make_clear_abs_path cwd path =
    let abs_path =
      if not (starts_with_slash path)
      then elim cwd [
        | none ↦ []
        | some dir ↦ if str_same dir (slash ∷ []) then dir else dir ++ slash ∷ []
      ]
      else [] in
    if ltb (length (abs_path ++ path)) max_path_len then wash_path (abs_path ++ path) else none
