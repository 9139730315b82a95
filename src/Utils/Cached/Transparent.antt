-- ===== src/Utils/Cached/Transparent.antt =====
-- Code whose result does not depend on what the cache holds, as long as that is right.
use host_scanner.Prelude.{◌≡◌, refl, sym, ap, ◌∙◌, List, [], ◌∷◌, Option, none, some}
use host_scanner.Host.{Host}
use host_scanner.Utils.Users.{M, Cache}
use host_scanner.Utils.Users.Caching.{IsRight, nil-IsRight}
use host_scanner.Utils.Cached.{◌>>=◌, pure, fold, first_some}

module _ (host : Host) where
  -- From any right cache the result is that from the empty one, and the cache stays right.
  abbrev pub IsTransparent : {A : Type 0} → M A → Type 0
  IsTransparent m =
      (cache : Cache) → IsRight host cache → ((m cache).0 ≡ (m []).0) × IsRight host (m cache).1

  pub pure-IsTransparent : {A : Type 0} (a : A) → IsTransparent (pure a)
  pure-IsTransparent a cache r = (refl, r)

  -- A run that gives a value which does not depend on the cache.
  pub at_value-IsTransparent :
      {A : Type 0} (m : M A) (a : A)
      → ((cache : Cache) → IsRight host cache → ((m cache).0 ≡ a) × IsRight host (m cache).1)
      → IsTransparent m
  at_value-IsTransparent m a h cache r =
      ((h cache r).0 ∙ sym (h [] (nil-IsRight host)).0, (h cache r).1)

  pub >>=-IsTransparent :
      {A B : Type 0} (m : M A) (f : A → M B)
      → IsTransparent m
      → ((a : A) → IsTransparent (f a))
      → IsTransparent (m >>= f)
  >>=-IsTransparent m f hm hf = at_value-IsTransparent (m >>= f) (f (m []).0 []).0 λ cache r.
      let (e, r') = hm cache r in
      let (e', r'') = hf (m cache).0 (m cache).1 r' in (e' ∙ ap (λ a. (f a []).0) e, r'')

  pub fold-IsTransparent :
      {A S : Type 0} (f : A → S → M S) (xs : List A) (s : S)
      → ((x : A) (s : S) → IsTransparent (f x s))
      → IsTransparent (fold f xs s)
  unfolding fold
  fold-IsTransparent f [] s h = pure-IsTransparent s
  fold-IsTransparent f (x ∷ xs) s h =
      >>=-IsTransparent (f x s) (fold f xs) (h x s) (λ s'. fold-IsTransparent f xs s' h)

  pub first_some-IsTransparent :
      {A B : Type 0} (f : A → M (Option B)) (xs : List A)
      → ((x : A) → IsTransparent (f x))
      → IsTransparent (first_some f xs)
  unfolding first_some
  first_some-IsTransparent f [] h = pure-IsTransparent none
  first_some-IsTransparent {B} f (x ∷ xs) h =
      >>=-IsTransparent (f x) _ (h x) (of_answer (first_some-IsTransparent f xs h))
    where
      of_answer :
          IsTransparent (first_some f xs)
          → (o : Option B)
          → IsTransparent (elim o [ some b ↦ pure (some b) | none ↦ first_some f xs ])
      of_answer h (some b) = pure-IsTransparent (some b)
      of_answer h none = h
