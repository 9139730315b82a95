-- ===== src/Utils/HttpClient/Progress.antt =====
-- Every call of `GetHttpClient` can be brought to its end.
use host_scanner.Prelude.{
  ℕ, zero, suc, ◌≡◌, ◌≤◌, ◌<◌, ◌⊎◌, inl, inr, refl, sym, ap, true, none, some, subst, Option-cases,
  arith,
}
use host_scanner.Prelude.Update.{update, update_self}
use host_scanner.Utils.HttpClient.{
  Globals, Pc, first_test, at_lock, second_test, at_assign, at_return_locked, at_return, at_unlock,
  returned, Move, see_nil, see_client, lock, still_nil, no_more_nil, assign, return_locked, unlock,
  return_, System, pick, Reach,
}
use host_scanner.Utils.HttpClient.Invariant.{Relies, IsSingle, is_inside, Inv, Step-Inv, Reach-Inv}

-- Steps of one call that lead from a state to another.
pub data StepsOf (i : ℕ) : System → System → Type 0 where
  done : {s : System} → StepsOf i s s
  more :
      {s u : System} {g : Globals} {p : Pc}
      → Move i s.globals (s.pc i) g p
      → StepsOf i (record { globals = g; pc = update s.pc i p }) u
      → StepsOf i s u

-- The steps that a call has left at most.
abbrev left : Pc → ℕ
left first_test = 7
left at_lock = 6
left second_test = 5
left at_assign = 4
left at_return_locked = 3
left (at_unlock r) = 2
left at_return = 1
left (returned r) = 0

-- No other call has the lock.
abbrev IsFree : Globals → ℕ → Type 0
IsFree g i = (g.holder ≡ none) ⊎ (g.holder ≡ some i)

-- A call at its end, or a step that brings it nearer.
abbrev Next : ℕ → Globals → Pc → Type 0
Next i g p =
    (p ≡ returned (some 0))
    ⊎ ((g' : Globals) × (p' : Pc) × Move i g p g' p' × (left p' < left p) × IsFree g' i)

Next-move :
    (i : ℕ) (g : Globals) (p : Pc)
    → Relies g i p
    → IsSingle g
    → (g.holder ≡ some i → is_inside p ≡ true)
    → IsFree g i
    → Next i g p
Next-move i g first_test r (inl (n, m)) h f = inr (g, at_lock, see_nil n, omega arith, f)
Next-move i g first_test r (inr (n, m)) h f = inr (g, at_return, see_client n, omega arith, f)
Next-move i g at_lock r s h (inl f) = inr (_, _, lock f, omega arith, inr refl)
Next-move i g at_lock r s h (inr f) = absurd (let t = h f in cc)
Next-move i g second_test r (inl (n, m)) h f = inr (g, _, still_nil n, omega arith, f)
Next-move i g second_test r (inr (n, m)) h f = inr (g, _, no_more_nil n, omega arith, f)
Next-move i g at_assign r s h f = inr (_, _, assign, omega arith, f)
Next-move i g at_return_locked r s h f = inr (_, _, return_locked, omega arith, f)
Next-move i g at_return r s h f = inr (_, _, return_, omega arith, f)
Next-move i g (at_unlock x) r s h f = inr (_, _, unlock, omega arith, inl refl)
Next-move i g (returned x) r s h f = inl (ap returned r.1)

-- An end of the call, from which no call has the lock.
abbrev EndsAt : ℕ → System → Type 0
EndsAt i s =
    (t : System) × StepsOf i s t × Inv t × (t.pc i ≡ returned (some 0)) × (t.globals.holder ≡ none)

-- A call at its end does not have the lock.
at_end : (i : ℕ) (s : System) → Inv s → IsFree s.globals i → s.pc i ≡ returned (some 0) → EndsAt i s
at_end i s v (inl f) e = (s, done, v, e, f)
at_end i s v (inr f) e = absurd (let t = v.held i f in let u = ap is_inside e in cc)

-- A call that runs alone, from a state where no other has the lock, comes to its end.
run_alone : (n i : ℕ) (s : System) → left (s.pc i) ≤ n → Inv s → IsFree s.globals i → EndsAt i s
run_alone zero i s l v f =
    elim (Next-move i s.globals (s.pc i) (v.relies i) v.single (v.held i) f) [
      | inl e ↦ at_end i s v f e
      | inr (g, p, m, lt, f') ↦ absurd (omega (arith, l, lt))
    ]
run_alone (suc n) i s l v f =
    elim (Next-move i s.globals (s.pc i) (v.relies i) v.single (v.held i) f) [
      | inl e ↦ at_end i s v f e
      | inr (g, p, m, lt, f') ↦
          let step = pick i m in
          let (t, steps, w, e, h) =
            run_alone n i _
              (subst (λ q. left q ≤ n) (sym (update_self s.pc i p)) (omega (arith, l, lt)))
              (Step-Inv step v) f' in
          (t, more m steps, w, e, h)
    ]

-- Steps that bring a call to its end: its own, with none or with those of the call that has the
-- lock before them.
pub data Finishes (i : ℕ) (s t : System) : Type 0 where
  alone : s.globals.holder ≡ none → StepsOf i s t → Finishes i s t
  behind :
      {j : ℕ} {m : System}
      → s.globals.holder ≡ some j
      → StepsOf j s m
      → StepsOf i m t
      → Finishes i s t

-- From every state that calls come to, any call can be brought to its end, with the shared client
-- and the lock free, by its own steps if the lock is free, and else by steps of the call that has
-- the lock and then its own.
pub returned_eventually :
    {s : System}
    → Reach s
    → (i : ℕ)
    → (t : System) × Finishes i s t × (t.pc i ≡ returned (some 0)) × (t.globals.holder ≡ none)
returned_eventually {s} h i = elim (Option-cases s.globals.holder) [
  | inl f ↦
      let (t, steps, v, e, g) = run_alone (left (s.pc i)) i s (omega arith) (Reach-Inv h) (inl f) in
      (t, alone f steps, e, g)
  | inr (j, f) ↦
      let (t, steps, v, e, g) = run_alone (left (s.pc j)) j s (omega arith) (Reach-Inv h) (inr f) in
      let (u, steps', v', e', g') = run_alone (left (t.pc i)) i t (omega arith) v (inl g) in
      (u, behind f steps steps', e', g')
]
