-- ===== src/Utils/Cached.antt =====
-- Code that reads and writes the cache of names (`userGroupCache` of
-- sensor/internal/utils/osuserswrapper.go), in sequence.
pub mod Transparent
use host_scanner.Prelude.{List, [], ◌∷◌, Option, none, some}
use host_scanner.Utils.Users.{M}

infixl 5 ◌>>=◌ ◌>>◌
abbrev pub ◌>>=◌ : {A B : Type 0} → M A → (A → M B) → M B
◌>>=◌ m f cache = let (a, cache') = m cache in f a cache'

abbrev pub ◌>>◌ : {A B : Type 0} → M A → M B → M B
m >> k = m >>= λ _. k

abbrev pub pure : {A : Type 0} → A → M A
pure a cache = (a, cache)

-- A loop over a list that changes a state.
unfoldable pub fold : {A S : Type 0} → (A → S → M S) → List A → S → M S
fold f [] s = pure s
fold f (x ∷ xs) s = f x s >>= fold f xs

-- The first answer along a list; the answers behind it are not asked for.
unfoldable pub first_some : {A B : Type 0} → (A → M (Option B)) → List A → M (Option B)
first_some f [] = pure none
first_some f (x ∷ xs) = f x >>= λ o. elim o [ some b ↦ pure (some b) | none ↦ first_some f xs ]
