-- ===== src/Base/Family.antt =====
-- Families indexed by task: an update at one index.
use Prim.Native.Nat.{ℕ}
use fast_dav_rs.Base.Tests.{◌==◌, if◌then◌else◌}

abbrev pub update {ℓ} : {A : Type ℓ} → (ℕ → A) → ℕ → A → ℕ → A
update f i a j = if i == j then a else f j
