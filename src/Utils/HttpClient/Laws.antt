-- ===== src/Utils/HttpClient/Laws.antt =====
-- The calls of `GetHttpClient`: one client, no two calls inside the lock, and an end for each.
use host_scanner.Prelude.{
  ℕ, ◌≡◌, ◌≢◌, ◌≤◌, inl, inr, sym, ◌∙◌, true, Option, none, some, some_inv, subst, arith,
}
use host_scanner.Utils.HttpClient.{
  Globals, Pc, first_test, at_lock, second_test, at_assign, at_return_locked, at_return, at_unlock,
  returned, System, Reach,
}
use host_scanner.Utils.HttpClient.Invariant.{Relies, is_inside, Reach-Inv}

-- However calls interleave, those that have returned gave the same client, which is not nil and is
-- still the shared one.
pub returned_same :
    {s : System}
    → Reach s
    → (i j : ℕ) (r r' : Option ℕ) → s.pc i ≡ returned r
    → s.pc j ≡ returned r'
    → (r ≡ r') × (r ≡ s.globals.http_client) × (r ≢ none)
returned_same {s} h i j r r' e f =
    let a = subst (Relies s.globals i) e ((Reach-Inv h).relies i) in
    let b = subst (Relies s.globals j) f ((Reach-Inv h).relies j) in
    (a.1 ∙ sym b.1, a.1 ∙ sym a.0, λ n. absurd (let t = a.1 in cc))

-- However calls interleave, at most one client is made.
pub made_bound : {s : System} → Reach s → s.globals.made ≤ 1
made_bound {s} h = elim (Reach-Inv h).single [
  | inl (n, m) ↦ omega (arith, m)
  | inr (n, m) ↦ omega (arith, m)
]

inside_holder :
    (g : Globals) (i : ℕ) (p : Pc) → Relies g i p → is_inside p ≡ true → g.holder ≡ some i
inside_holder g i first_test r e = absurd (cc)
inside_holder g i at_lock r e = absurd (cc)
inside_holder g i second_test r e = r
inside_holder g i at_assign r e = r.0
inside_holder g i at_return_locked r e = r.0
inside_holder g i at_return r e = absurd (cc)
inside_holder g i (at_unlock x) r e = r.0
inside_holder g i (returned x) r e = absurd (cc)

-- Two calls are never between `Lock` and `Unlock` at once.
pub mutual_exclusion :
    {s : System}
    → Reach s
    → (i j : ℕ) → is_inside (s.pc i) ≡ true
    → is_inside (s.pc j) ≡ true
    → i ≡ j
mutual_exclusion {s} h i j e f =
    let relies = (Reach-Inv h).relies in
    some_inv (
      sym (inside_holder s.globals i (s.pc i) (relies i) e)
      ∙ inside_holder s.globals j (s.pc j) (relies j) f)
