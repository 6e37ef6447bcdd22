-- ===== src/Shell/Tests.antt =====
-- The functions of the shell at small inputs, and their theorems there.
use jack_os.Base.{ℕ, ◌≡◌, refl, some, List, [], ◌∷◌, arith, if◌then◌else◌}
use jack_os.Fs.Paths.{slash, path_parse, skip_slashes, take_name, last_slash}
use jack_os.Shell.{wash_path, wash_loop, wash_name, make_clear_abs_path, starts_with_slash}
use jack_os.Fs.Paths.Words.{AreShort, split, words}
use jack_os.Shell.Wash.{from_root, resolve, path_of, AreDirs, make_clear_abs_path-resolve}

-- `../c//./d` in `/a/b`
abbrev dir : List (List ℕ)
dir = (98 ∷ []) ∷ (97 ∷ []) ∷ []

abbrev relative : List ℕ
relative = 46 ∷ 46 ∷ 47 ∷ 99 ∷ 47 ∷ 47 ∷ 46 ∷ 47 ∷ 100 ∷ []

goes_up :
    make_clear_abs_path (some (path_of dir)) relative ≡ some (47 ∷ 97 ∷ 47 ∷ 99 ∷ 47 ∷ 100 ∷ [])
unfolding make_clear_abs_path wash_path wash_loop wash_name path_parse skip_slashes take_name
    last_slash
goes_up = refl

dir-AreDirs : AreDirs dir
dir-AreDirs = (
  ((λ e. omega arith, tt), λ e. cc e, refl, refl),
  (((λ e. omega arith, tt), λ e. cc e, refl, refl), tt),
)

-- The names of `/a/b/../c//./d`.
short : AreShort 16 (words slash (from_root dir relative))
unfolding split
short = (omega arith, (omega arith, (omega arith, (omega arith, (omega arith, (omega arith, tt))))))

make_clear_abs_path-resolve_example :
    make_clear_abs_path (some (path_of dir)) relative
    ≡ some
        (path_of (resolve (if starts_with_slash relative then [] else dir) (words slash relative)))
make_clear_abs_path-resolve_example =
    make_clear_abs_path-resolve dir relative dir-AreDirs short (omega arith)
