-- ===== src/Base/Family.antt =====
-- Families indexed by an address or a thread, and their update at one index.
use Prim.Native.Nat.{ℕ}
use mathlib.Core.Path.{◌≡◌}
use mathlib.Core.Logic.{◌≢◌}
use native.Mathlib.Omega.{arith}
use jack_os.Base.Tests.{◌==◌, if◌then◌else◌, eq→==, ne→==}

-- `f` with the value `v` at `k`.
abbrev pub update {ℓ} : {V : Type ℓ} (f : ℕ → V) (k : ℕ) (v : V) → ℕ → V
update f k v n = if k == n then v else f n

module _ {ℓ} {A : Type ℓ} where
  pub update_self : (f : ℕ → A) (i : ℕ) (a : A) → update f i a i ≡ a
  update_self f i a = rw (eq→== i i (omega arith))

  pub update_ne : (f : ℕ → A) (i j : ℕ) (a : A) → i ≢ j → update f i a j ≡ f j
  update_ne f i j a h = rw (ne→== i j h)
