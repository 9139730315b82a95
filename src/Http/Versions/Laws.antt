-- ===== src/Http/Versions/Laws.antt =====
-- Overlapping requests for the version.
use host_scanner.Prelude.{
  ℕ, ◌≡◌, ◌≢◌, ◌⊎◌, refl, sym, ◌∙◌, subst, inl, inr, Option, none, some, [], ◌∷◌,
}
use host_scanner.Prelude.Bytes.{Bytes}
use host_scanner.Prelude.Update.{update, update_self, update-each}
use host_scanner.GoError.{GoError}
use host_scanner.Http.Versions.{
  unknown, empty_version, Place, at_test, at_assign, at_read, answered, Move, test_empty,
  test_given, assign, read, System, Step, pick, Reach, here, later,
}

-- The version that is told when the program has one or none.
abbrev pub told : Bytes → Bytes
told [] = unknown
told (c ∷ version) = c ∷ version

-- A call that fails, or has done so.
abbrev pub IsFailing : Place → Type 0
IsFailing (at_read (some e)) = Unit
IsFailing (answered version (some e)) = Unit
IsFailing p = ⊥

told_some : (v : Bytes) → told v ≢ []
told_some [] e = absurd (cc)
told_some (c ∷ v) e = absurd (cc)

told_given : (v : Bytes) → v ≢ [] → told v ≡ v
told_given [] n = absurd (n refl)
told_given (c ∷ v) n = refl

-- An error is only told where there is no version.
abbrev IsErrorOf : Bytes → Option GoError → Type 0
IsErrorOf v e = (e ≡ none) ⊎ (v ≡ [])

module _ (v : Bytes) where
  -- What a call has found out, with the variable as it is.
  abbrev Knows : Bytes → Place → Type 0
  Knows now at_test = Unit
  Knows now at_assign = v ≡ []
  Knows now (at_read e) = (now ≡ told v) × IsErrorOf v e
  Knows now (answered version e) = (version ≡ told v) × (now ≡ told v) × IsErrorOf v e

  -- The variable is as at the start, or a call has assigned it.
  abbrev IsShared : System → Type 0
  IsShared s =
      (s.build_version ≡ v) ⊎ ((s.build_version ≡ told v) × (i : ℕ) × IsFailing (s.place i))

  -- What a call has found out stays when the variable is assigned.
  Knows-assign : (now : Bytes) (p : Place) → v ≡ [] → Knows now p → Knows unknown p
  Knows-assign now at_test e k = tt
  Knows-assign now at_assign e k = k
  Knows-assign now (at_read o) e k = (rw e refl, k.1)
  Knows-assign now (answered version o) e k = (k.0, rw e refl, k.2)

  Move-Others :
      {now next : Bytes} {p q : Place}
      → Move now p next q
      → Knows now p
      → (r : Place) → Knows now r
      → Knows next r
  Move-Others (test_empty e) k r kr = kr
  Move-Others (test_given n) k r kr = kr
  Move-Others {now} assign k r kr = Knows-assign now r k kr
  Move-Others read k r kr = kr

  Move-IsFailing : {now next : Bytes} {p q : Place} → Move now p next q → IsFailing p → IsFailing q
  Move-IsFailing (test_empty e) f = absurd f
  Move-IsFailing (test_given n) f = absurd f
  Move-IsFailing assign f = absurd f
  Move-IsFailing (read {e = none}) f = absurd f
  Move-IsFailing (read {e = some e}) f = f

  Move-told :
      {now next : Bytes} {p q : Place}
      → Move now p next q
      → Knows now p
      → now ≡ told v
      → next ≡ told v
  Move-told (test_empty e) k b = b
  Move-told (test_given n) k b = b
  Move-told assign k b = rw k refl
  Move-told read k b = b

  Move-Knows :
      {now next : Bytes} {p q : Place}
      → Move now p next q
      → Knows now p
      → (now ≡ v) ⊎ (now ≡ told v)
      → Knows next q
  Move-Knows (test_empty e) k (inl b) = sym b ∙ e
  Move-Knows (test_empty e) k (inr b) = absurd (told_some v (sym b ∙ e))
  Move-Knows (test_given n) k (inl b) = (b ∙ sym (told_given v (λ q. n (b ∙ q))), inl refl)
  Move-Knows (test_given n) k (inr b) = (b, inl refl)
  Move-Knows assign k h = (rw k refl, inr k)
  Move-Knows read k h = (k.0, k.0, k.1)

  -- A call that fails goes on to do so, whichever call moves.
  IsFailing-stays :
      (s : System) (i : ℕ) {now : Bytes} {p : Place}
      → Move s.build_version (s.place i) now p
      → (k : ℕ) → IsFailing (s.place k)
      → IsFailing (update s.place i p k)
  IsFailing-stays s i {p} m =
      update-each (λ j q. IsFailing (s.place j) → IsFailing q) s.place i p (Move-IsFailing m)
        (λ j f. f)

  Move-IsShared :
      (place : ℕ → Place) (i : ℕ) {now next : Bytes} {p q : Place}
      → Move now p next q
      → Knows now p
      → ((k : ℕ) → IsFailing (place k) → IsFailing (update place i q k))
      → IsShared (record { build_version = now; place = place })
      → IsShared (record { build_version = next; place = update place i q })
  Move-IsShared place i m k stays (inr (b, j, f)) = inr (Move-told m k b, j, stays j f)
  Move-IsShared place i (test_empty e) k stays (inl b) = inl b
  Move-IsShared place i (test_given n) k stays (inl b) = inl b
  Move-IsShared place i {q} assign k stays (inl b) =
      inr (
        rw k refl,
        i,
        subst IsFailing (sym (update_self place i (at_read (some empty_version)))) tt,
      )
  Move-IsShared place i read k stays (inl b) = inl b

  record Inv (s : System) : Type 0 where
    pub shared : IsShared s
    pub knows : (i : ℕ) → Knows s.build_version (s.place i)

  abbrev one_of : (s : System) → IsShared s → (s.build_version ≡ v) ⊎ (s.build_version ≡ told v)
  one_of s (inl b) = inl b
  one_of s (inr (b, j, f)) = inr b

  Step-Inv : {s t : System} → Step s t → Inv s → Inv t
  Step-Inv {s} (pick i {v = next} {p} m) inv = record {
    shared = Move-IsShared s.place i m (inv.knows i) (IsFailing-stays s i m) inv.shared;
    knows =
        update-each (λ j. Knows next) s.place i p (Move-Knows m (inv.knows i) (one_of s inv.shared))
          (λ j. Move-Others m (inv.knows i) (s.place j) (inv.knows j));
  }

  Reach-Inv : {s : System} → Reach v s → Inv s
  Reach-Inv here = record { shared = inl refl; knows = λ i. tt }
  Reach-Inv (later r m) = Step-Inv m (Reach-Inv r)

-- Behind the assignment some call fails, unless there was nothing to assign.
IsFailing-some :
    (v : Bytes) (s : System)
    → IsShared v s
    → s.build_version ≡ told v
    → (v ≢ []) ⊎ ((k : ℕ) × IsFailing (s.place k))
IsFailing-some v s (inl b) e = inl (λ q. told_some v (sym e ∙ (b ∙ q)))
IsFailing-some v s (inr (b, j, f)) e = inr (j, f)

-- However requests for the version overlap, each that is answered tells the build version, or
-- `unknown` if there is none, which the variable then holds for all that follow; an error is told
-- only if there is no build version, and then some request tells it or is about to.
pub Reach-answered :
    (v : Bytes) (s : System) (i : ℕ) (version : Bytes) (e : Option GoError)
    → Reach v s
    → s.place i ≡ answered version e
    → (version ≡ told v)
      × (s.build_version ≡ told v)
      × ((e ≡ none) ⊎ (v ≡ []))
      × ((v ≢ []) ⊎ ((k : ℕ) × IsFailing (s.place k)))
Reach-answered v s i version e r a =
    let inv = Reach-Inv v r in
    let (t, b, o) : Knows v s.build_version (answered version e) =
      subst (Knows v s.build_version) a (inv.knows i) in
    (t, b, o, IsFailing-some v s inv.shared b)
