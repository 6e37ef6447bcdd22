-- ===== src/Fs/Paths/Tests.antt =====
-- The theorems about paths for `/ab/c`.
use jack_os.Base.{ℕ, ◌≡◌, arith, length, List, [], ◌∷◌, some, ◌==◌, if◌then◌else◌}
use jack_os.Fs.Paths.{path_depth_cnt}
use jack_os.Fs.Paths.Words.{AreShort, split, words}
use jack_os.Fs.Paths.Parts.{path_depth_cnt-names}

abbrev path : List ℕ
path = 47 ∷ 97 ∷ 98 ∷ 47 ∷ 99 ∷ []

path-AreShort : AreShort 17 (words 47 path)
unfolding split
path-AreShort = (omega arith, (omega arith, tt))

path_depth_cnt-names_example :
    path_depth_cnt 7 path
    ≡ some
        (if length (words 47 path) == 0 then (if 7 == 0 then 0 else 1) else length (words 47 path))
path_depth_cnt-names_example = path_depth_cnt-names 7 path path-AreShort
