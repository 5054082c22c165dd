-- ===== src/Uploads/Equality.antt =====
-- Dataclass equality of manifests.
use native.Mathlib.Decide.{ℕ_discrete}
use immich_on_demand.Prelude.{Bool, true, false, ◌≡◌, ◌↔◌, refl}
use immich_on_demand.Uploads.Manifest.{Manifest}

Manifest-discrete : Discrete Manifest
Manifest-discrete = hlevel ℕ_discrete

holds : {m n : Manifest} → Dec (m ≡ n) → Bool
holds (yes _) = true
holds (no _) = false

-- `manifest == other`
pub same_manifest : Manifest → Manifest → Bool
same_manifest m n = holds (Manifest-discrete m n)

holds_iff : {m n : Manifest} (d : Dec (m ≡ n)) → (holds d ≡ true) ↔ (m ≡ n)
unfolding holds
holds_iff (yes e) = (λ _. e, λ _. refl)
holds_iff (no ne) = (λ p. cc, λ e. absurd (ne e))

pub same_manifest_iff : (m n : Manifest) → (same_manifest m n ≡ true) ↔ (m ≡ n)
unfolding same_manifest
same_manifest_iff m n = holds_iff (Manifest-discrete m n)
