-- ===== src/Utils/HttpClient/Invariant.antt =====
-- What holds in every state that calls of `GetHttpClient` come to.
use host_scanner.Prelude.{
  ℕ, suc, ◌==◌, ◌≡◌, ◌≢◌, ◌⊎◌, inl, inr, refl, sym, ap, ◌∙◌, Bool, true, false, Option, none, some,
  ==_iff, some_inv, subst, Bool-cases,
}
use host_scanner.Utils.HttpClient.{
  Globals, Pc, first_test, at_lock, second_test, at_assign, at_return_locked, at_return, at_unlock,
  returned, Move, see_nil, see_client, lock, still_nil, no_more_nil, assign, return_locked, unlock,
  return_, System, Step, pick, Reach, here, later,
}

-- What a call may rely on where it stands.
abbrev pub Relies : Globals → ℕ → Pc → Type 0
Relies g i first_test = Unit
Relies g i at_lock = Unit
Relies g i second_test = g.holder ≡ some i
Relies g i at_assign = (g.holder ≡ some i) × (g.http_client ≡ none)
Relies g i at_return_locked = (g.holder ≡ some i) × (g.http_client ≡ some 0)
Relies g i at_return = g.http_client ≡ some 0
Relies g i (at_unlock r) = (g.holder ≡ some i) × (g.http_client ≡ some 0) × (r ≡ some 0)
Relies g i (returned r) = (g.http_client ≡ some 0) × (r ≡ some 0)

-- No client and none made, or the first client and one made.
abbrev pub IsSingle : Globals → Type 0
IsSingle g = ((g.http_client ≡ none) × (g.made ≡ 0)) ⊎ ((g.http_client ≡ some 0) × (g.made ≡ 1))

-- Whether the call has the lock.
abbrev pub is_inside : Pc → Bool
is_inside first_test = false
is_inside at_lock = false
is_inside second_test = true
is_inside at_assign = true
is_inside at_return_locked = true
is_inside at_return = false
is_inside (at_unlock r) = true
is_inside (returned r) = false

pub record Inv (s : System) : Type 0 where
  pub single : IsSingle s.globals
  pub relies : (i : ℕ) → Relies s.globals i (s.pc i)
  pub held : (i : ℕ) → s.globals.holder ≡ some i → is_inside (s.pc i) ≡ true

-- The first client, if there is one.
client_zero : (g : Globals) (c : ℕ) → IsSingle g → g.http_client ≡ some c → g.http_client ≡ some 0
client_zero g c (inl (n, m)) e = absurd (cc)
client_zero g c (inr (n, m)) e = n

Move-IsSingle :
    {i : ℕ} {g g' : Globals} {p p' : Pc}
    → Move i g p g' p'
    → Relies g i p
    → IsSingle g
    → IsSingle g'
Move-IsSingle (see_nil e) r s = s
Move-IsSingle (see_client e) r s = s
Move-IsSingle (lock e) r s = s
Move-IsSingle (still_nil e) r s = s
Move-IsSingle (no_more_nil e) r s = s
Move-IsSingle assign r (inl (n, m)) = inr (ap some m, ap suc m)
Move-IsSingle assign r (inr (n, m)) = absurd (let t = r.1 in cc)
Move-IsSingle return_locked r s = s
Move-IsSingle unlock r s = s
Move-IsSingle return_ r s = s

Move-Relies :
    {i : ℕ} {g g' : Globals} {p p' : Pc}
    → Move i g p g' p'
    → Relies g i p
    → IsSingle g
    → Relies g' i p'
Move-Relies (see_nil e) r s = tt
Move-Relies {g} (see_client {c} e) r s = client_zero g c s e
Move-Relies (lock e) r s = refl
Move-Relies (still_nil e) r s = (r, e)
Move-Relies {g} (no_more_nil {c} e) r s = (r, client_zero g c s e)
Move-Relies assign r (inl (n, m)) = (r.0, ap some m)
Move-Relies assign r (inr (n, m)) = absurd (let t = r.1 in cc)
Move-Relies return_locked r s = (r.0, r.1, r.1)
Move-Relies unlock r s = (r.1, r.2)
Move-Relies return_ r s = (r, r)

-- What another call relies on is kept by a change of the lock that it does not hold.
other_holder :
    (g : Globals) (j : ℕ) (q : Pc)
    → g.holder ≢ some j
    → (h : Option ℕ) → Relies g j q
    → Relies (record g { holder = h }) j q
other_holder g j first_test n h r = tt
other_holder g j at_lock n h r = tt
other_holder g j second_test n h r = absurd (n r)
other_holder g j at_assign n h r = absurd (n r.0)
other_holder g j at_return_locked n h r = absurd (n r.0)
other_holder g j at_return n h r = r
other_holder g j (at_unlock x) n h r = absurd (n r.0)
other_holder g j (returned x) n h r = r

-- The same for the first assignment.
other_client :
    (g : Globals) (j : ℕ) (q : Pc)
    → g.holder ≢ some j
    → g.http_client ≡ none
    → (c : Option ℕ) (m : ℕ) → Relies g j q
    → Relies (record g { http_client = c; made = m }) j q
other_client g j first_test n e c m r = tt
other_client g j at_lock n e c m r = tt
other_client g j second_test n e c m r = r
other_client g j at_assign n e c m r = absurd (n r.0)
other_client g j at_return_locked n e c m r = absurd (n r.0)
other_client g j at_return n e c m r = absurd (cc)
other_client g j (at_unlock x) n e c m r = absurd (n r.0)
other_client g j (returned x) n e c m r = absurd (let t = r.0 in cc)

not_holder : (g : Globals) {i j : ℕ} → i ≢ j → g.holder ≡ some i → g.holder ≢ some j
not_holder g n e f = n (some_inv (sym e ∙ f))

Move-other :
    {i : ℕ} {g g' : Globals} {p p' : Pc}
    → Move i g p g' p'
    → Relies g i p
    → (j : ℕ) → i ≢ j
    → (q : Pc) → Relies g j q
    → Relies g' j q
Move-other (see_nil e) r j n q k = k
Move-other (see_client e) r j n q k = k
Move-other {i} {g} (lock e) r j n q k = other_holder g j q (λ f. cc) (some i) k
Move-other (still_nil e) r j n q k = k
Move-other (no_more_nil e) r j n q k = k
Move-other {g} assign r j n q k =
    other_client g j q (not_holder g n r.0) r.1 (some g.made) (suc g.made) k
Move-other return_locked r j n q k = k
Move-other {g} unlock r j n q k = other_holder g j q (not_holder g n r.0) none k
Move-other return_ r j n q k = k

Move-held :
    {i : ℕ} {g g' : Globals} {p p' : Pc}
    → Move i g p g' p'
    → (g.holder ≡ some i → is_inside p ≡ true)
    → g'.holder ≡ some i
    → is_inside p' ≡ true
Move-held (see_nil e) h f = h f
Move-held (see_client e) h f = h f
Move-held (lock e) h f = refl
Move-held (still_nil e) h f = refl
Move-held (no_more_nil e) h f = refl
Move-held assign h f = refl
Move-held return_locked h f = refl
Move-held unlock h f = absurd (cc)
Move-held return_ h f = h f

-- No other call gets the lock.
Move-holder :
    {i : ℕ} {g g' : Globals} {p p' : Pc}
    → Move i g p g' p'
    → (j : ℕ) → i ≢ j
    → g'.holder ≡ some j
    → g.holder ≡ some j
Move-holder (see_nil e) j n f = f
Move-holder (see_client e) j n f = f
Move-holder (lock e) j n f = absurd (n (some_inv f))
Move-holder (still_nil e) j n f = f
Move-holder (no_more_nil e) j n f = f
Move-holder assign j n f = f
Move-holder return_locked j n f = f
Move-holder unlock j n f = absurd (cc)
Move-holder return_ j n f = f

pub Step-Inv : {s t : System} → Step s t → Inv s → Inv t
Step-Inv {s} (pick i {g} {p} m) v = record {
  single = Move-IsSingle m (v.relies i) v.single;
  relies = λ j. elim (Bool-cases (j == i)) [
    | inl e ↦
        rw e
          (subst (λ k. Relies g k p) (sym ((==_iff j i).0 e)) (Move-Relies m (v.relies i) v.single))
    | inr e ↦ rw e (Move-other m (v.relies i) j (not_eq e) (s.pc j) (v.relies j))
  ];
  held = λ j f. elim (Bool-cases (j == i)) [
    | inl e ↦ rw e (Move-held m (v.held i) (f ∙ ap some ((==_iff j i).0 e)))
    | inr e ↦ rw e (v.held j (Move-holder m j (not_eq e) f))
  ];
}
  where
    not_eq : {j : ℕ} → (j == i) ≡ false → i ≢ j
    not_eq {j} e q = absurd (let t = (==_iff j i).1 (sym q) in cc)

pub Reach-Inv : {s : System} → Reach s → Inv s
Reach-Inv here = record { single = inl (refl, refl); relies = λ i. tt; held = λ i f. absurd (cc) }
Reach-Inv (later r m) = Step-Inv m (Reach-Inv r)
