-- ===== src/CString/Tests.antt =====
-- The functions of lib/string.c at a small memory, and their theorems there.
use jack_os.Base.{ℕ, ◌+◌, ◌≡◌, refl, ◌↔◌, some, List, [], ◌∷◌, arith, update}
use jack_os.CString.{Memory, Ptr, same, negative, memcmp, strlen, strcmp, strchr, strrchr, strchrs}
use jack_os.CString.Text.{IsString}
use jack_os.CString.Compare.{order, strcmp-order}

abbrev bytes_at : Ptr → List ℕ → Memory → Memory
bytes_at p [] m = m
bytes_at p (c ∷ s) m = bytes_at (p + 1) s (update m p c)

-- "ab" at 100, "aba" at 200, and a byte 200 in a text at 300.
abbrev memory : Memory
memory =
    bytes_at 100 (97 ∷ 98 ∷ [])
      (bytes_at 200 (97 ∷ 98 ∷ 97 ∷ []) (bytes_at 300 (200 ∷ []) (λ _. 0)))

ab-IsString : IsString memory 100 (97 ∷ 98 ∷ [])
ab-IsString = omega arith

aba-IsString : IsString memory 200 (97 ∷ 98 ∷ 97 ∷ [])
aba-IsString = omega arith

runs :
    (strlen 9 memory 200 ≡ some 3)
    × (strcmp 9 memory 100 200 ≡ some negative)
    × (strchr 9 memory 200 98 ≡ some 201)
    × (strrchr 9 memory 200 97 ≡ some 202)
    × (strchrs 9 memory 200 97 ≡ some 2)
    × (memcmp memory 100 200 2 ≡ some same)
unfolding strlen strcmp strchr strrchr strchrs memcmp
runs = (refl, refl, refl, refl, refl, refl)

strcmp-order_example :
    (strcmp 9 memory 100 200 ≡ some (order (97 ∷ 98 ∷ []) (97 ∷ 98 ∷ 97 ∷ [])))
    × ((order (97 ∷ 98 ∷ []) (97 ∷ 98 ∷ 97 ∷ []) ≡ same)
        ↔ (◌≡◌ {A = List ℕ} (97 ∷ 98 ∷ []) (97 ∷ 98 ∷ 97 ∷ [])))
strcmp-order_example =
    strcmp-order 9 memory 100 200 (97 ∷ 98 ∷ []) (97 ∷ 98 ∷ 97 ∷ []) (omega arith) (omega arith)
      ab-IsString aba-IsString (omega arith) (omega arith) (omega arith)
