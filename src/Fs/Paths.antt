-- ===== src/Fs/Paths.antt =====
-- Paths of fs/fs.c: `path_parse`, `path_depth_cnt`, and the order of names in `sys_getcwd`. A string is
-- the list of its bytes before the 0. `none` is also a name that the array of its
-- caller, of 16 bytes, has no room for.
pub mod Words
pub mod Parts
pub mod Reverse
mod Tests
use jack_os.Base.{
  ℕ, zero, suc, ◌+◌, Bool, true, false, not, ◌||◌, List, [], ◌∷◌, ◌++◌, Option, none, some, leb,
  ◌==◌, if◌then◌else◌, ◌>>=◌, length,
}

-- `'/'`
abbrev pub slash : ℕ
slash = 47

abbrev pub max_file_name_len : ℕ
max_file_name_len = 16

unfoldable pub skip_slashes : List ℕ → List ℕ
skip_slashes [] = []
skip_slashes (c ∷ cs) = let rest = skip_slashes cs in if c == slash then rest else c ∷ cs

-- The bytes before the next slash, and those from it on.
unfoldable pub take_name : List ℕ → List ℕ × List ℕ
take_name [] = ([], [])
take_name (c ∷ cs) =
    let (name, rest) = take_name cs in if c == slash then ([], c ∷ cs) else (c ∷ name, rest)

-- What goes to `name_store`, whose room the callers look at, and what is returned; NULL is `none`.
unfoldable pub path_parse : List ℕ → List ℕ × Option (List ℕ)
path_parse pathname =
    let (name, rest) = take_name (skip_slashes pathname) in
    (name, elim rest [ [] ↦ none | c ∷ cs ↦ some (c ∷ cs) ])

-- `name` was cleared before: the parse of what is left, if anything is.
abbrev pub parse_next : Option (List ℕ) → List ℕ × Option (List ℕ)
parse_next none = ([], none)
parse_next (some p) = path_parse p

-- The loop, on fuel; `present` is whether `name[0]` is not 0.
unfoldable pub depth_loop : ℕ → Bool → Option (List ℕ) → ℕ → Option ℕ
depth_loop zero present p depth = none
depth_loop (suc fuel) present p depth =
    let (name, p') = parse_next p in
    let rest = depth_loop fuel (not (length name == 0)) p' (depth + 1) in
    if present then (if leb (length name) max_file_name_len then rest else none) else some depth

-- `name` is not set before the first parse: `garbage` is its first byte then.
unfoldable pub path_depth_cnt : ℕ → List ℕ → Option ℕ
path_depth_cnt garbage pathname =
    let (name, p) = path_parse pathname in
    if leb (length name) max_file_name_len
    then depth_loop (length pathname + 2) (not (length name == 0) || not (garbage == 0)) p 0
    else none

-- The string from its last slash on, and what stands before it: `strrchr(s, '/')`.
unfoldable pub last_slash : List ℕ → Option (List ℕ × List ℕ)
last_slash [] = none
last_slash (c ∷ cs) = elim (last_slash cs) [
  | some (front, back) ↦ some (c ∷ front, back)
  | none ↦ if c == slash then some ([], c ∷ cs) else none
]

-- `strrchr(pathname, '/') + 1`; without a slash that is no string.
unfoldable pub base_name : List ℕ → Option (List ℕ)
base_name pathname = do
  (front, back) ← last_slash pathname
  elim back [ [] ↦ none | c ∷ cs ↦ some cs ]

-- The last loop of `sys_getcwd`, on fuel: each part from a last slash on is moved to the end of `buf`.
unfoldable pub turn_path : ℕ → List ℕ → List ℕ → Option (List ℕ)
turn_path zero full_path_reverse buf = none
turn_path (suc fuel) full_path_reverse buf = elim (last_slash full_path_reverse) [
  | none ↦ some buf
  | some (front, back) ↦ turn_path fuel front (buf ++ back)
]
