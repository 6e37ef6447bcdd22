-- ===== src/Fs/Dirs/Tests.antt =====
-- The theorems about the entries of a directory, for a sector at 900 and the name `ab`.
use jack_os.Base.{ℕ, ◌+◌, ◌*◌, ◌<◌, ◌≡◌, ◌⊎◌, true, ◌↔◌, List, [], ◌∷◌, none, some, arith}
use jack_os.CString.{Memory}
use jack_os.Fs.{blit}
use jack_os.Fs.Dirs.{
  DirEntry, entry_at, entry_byte, matches, create_dir_entry, cleared_entry, search_sector,
  ft_directory,
}
use jack_os.Fs.Dirs.Search.{IsNameAt, IsText, search_sector_lem, create_dir_entry-matches}

abbrev name : List ℕ
name = 97 ∷ 98 ∷ []

abbrev sector : Memory
sector a = 46

search_sector_lem_example :
    ((search_sector sector 900 name 21 ≡ none)
      × ((i : ℕ) → i < 21 → ¬ IsNameAt sector (900 + i * 24) name))
    ⊎ ((i : ℕ) × (i < 21)
        × (search_sector sector 900 name 21 ≡ some (900 + i * 24))
        × IsNameAt sector (900 + i * 24) name
        × ((j : ℕ) → j < i → ¬ IsNameAt sector (900 + j * 24) name))
search_sector_lem_example = search_sector_lem sector 900 name 21

create_dir_entry-matches_example :
    (de : DirEntry) × (create_dir_entry name 5 ft_directory cleared_entry ≡ some de)
    × (((other : List ℕ)
          → IsText other
          → (matches (blit sector 924 24 (entry_byte de)) 924 other ≡ true) ↔ (other ≡ name))
        × ((entry_at (blit sector 924 24 (entry_byte de)) 924).i_no ≡ 5)
        × ((entry_at (blit sector 924 24 (entry_byte de)) 924).f_type ≡ 2))
create_dir_entry-matches_example =
    create_dir_entry-matches sector 924 name 5 ft_directory
      (λ e. omega arith, (λ e. omega arith, tt)) (omega arith) (omega arith) (omega arith)
