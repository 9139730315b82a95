-- ===== src/Utils/Users/Concurrent/Laws.antt =====
-- Overlapping calls for names, and what they leave in the cache.
use host_scanner.Prelude.{ℕ, ◌≡◌, ◌≢◌, refl, sym, ◌∙◌, subst, inl, inr, some, Bool-cases}
use host_scanner.Prelude.Update.{update-each}
use host_scanner.Prelude.Bytes.{Bytes, bytes_eq}
use host_scanner.Prelude.Bytes.Laws.{bytes_eq_iff}
use host_scanner.Prelude.Dict.{lookup, insert, lookup-insert}
use host_scanner.GoError.{Result, ok}
use host_scanner.Host.{Host}
use host_scanner.Utils.Users.{empty_item}
use host_scanner.Utils.Users.Concurrent.{
  Call, root_of, put_name, find_name, Items, Memory, Place, at_fetch, at_read, at_lookup, at_test,
  at_make, at_fetch_map, at_store, returned, panicked, Move, fetch, fetch_none, hit, miss,
  not_found, found, has_item, no_item, make, fetch_map, nil_map, store, System, Step, pick, Reach,
  here, later,
}
use host_scanner.Utils.Users.Concurrent.Items.{
  set_item-each, IsRightItem, empty-IsRightItem, read_item-found, put_name-IsRightItem,
}

module _ (host : Host) where
  abbrev HasItem : Memory → Bytes → Type 0
  HasItem m root = (n : ℕ) × (lookup root m.current ≡ some n)

  -- What a call has found out.
  abbrev Knows : Call → Memory → Place → Type 0
  Knows c m at_fetch = Unit
  Knows c m (at_read n) = Unit
  Knows c m at_lookup = Unit
  Knows c m (at_test name) = find_name host c ≡ ok name
  Knows c m (at_make name) = find_name host c ≡ ok name
  Knows c m (at_fetch_map name) = (find_name host c ≡ ok name) × HasItem m (root_of c)
  Knows c m (at_store name n) = find_name host c ≡ ok name
  Knows c m (returned r) = find_name host c ≡ r
  Knows c m panicked = ⊥

  abbrev pub AreRight : Items → Type 0
  AreRight items = (root : Bytes) (n : ℕ) → IsRightItem host root (items root n)

  Move-AreRight :
      {c : Call} {m m' : Memory} {p p' : Place}
      → Move host c m p m' p'
      → Knows c m p
      → AreRight m.items
      → AreRight m'.items
  Move-AreRight (fetch e) k r = r
  Move-AreRight (fetch_none e) k r = r
  Move-AreRight (hit e) k r = r
  Move-AreRight (miss e) k r = r
  Move-AreRight (not_found e) k r = r
  Move-AreRight (found e) k r = r
  Move-AreRight (has_item e) k r = r
  Move-AreRight (no_item e) k r = r
  Move-AreRight {c} {m} make k r =
      set_item-each (IsRightItem host) (root_of c) m.made empty_item m.items
        (empty-IsRightItem host (root_of c)) r
  Move-AreRight (fetch_map e) k r = r
  Move-AreRight (nil_map e) k r = r
  Move-AreRight {c} {m} (store {name} {n}) k r =
      set_item-each (IsRightItem host) (root_of c) n (put_name c name (m.items (root_of c) n))
        m.items (put_name-IsRightItem host c name _ k (r (root_of c) n)) r

  -- No root directory loses its item.
  HasItem-insert :
      (m : Memory) (root root' : Bytes) (n : ℕ)
      → HasItem m root'
      → (k : ℕ) × (lookup root' (insert root n m.current) ≡ some k)
  HasItem-insert m root root' n (k, h) = elim (Bool-cases (bytes_eq root root')) [
    | inl e ↦ (n, rw (lookup-insert root root' n m.current, e) refl)
    | inr e ↦ (k, rw (lookup-insert root root' n m.current, e) h)
  ]

  insert-HasItem :
      (m : Memory) (root : Bytes) (n : ℕ)
      → (k : ℕ) × (lookup root (insert root n m.current) ≡ some k)
  insert-HasItem m root n =
      (n, rw (lookup-insert root root n m.current, (bytes_eq_iff root root).1 refl) refl)

  Move-Others :
      {c : Call} {m m' : Memory} {p p' : Place}
      → Move host c m p m' p'
      → (d : Call) (q : Place) → Knows d m q
      → Knows d m' q
  Move-Others (fetch e) d q k = k
  Move-Others (fetch_none e) d q k = k
  Move-Others (hit e) d q k = k
  Move-Others (miss e) d q k = k
  Move-Others (not_found e) d q k = k
  Move-Others (found e) d q k = k
  Move-Others (has_item e) d q k = k
  Move-Others (no_item e) d q k = k
  Move-Others make d at_fetch k = k
  Move-Others make d (at_read n) k = k
  Move-Others make d at_lookup k = k
  Move-Others make d (at_test name) k = k
  Move-Others make d (at_make name) k = k
  Move-Others {c} {m} make d (at_fetch_map name) (f, (n, h)) =
      (f, HasItem-insert m (root_of c) (root_of d) m.made (n, h))
  Move-Others make d (at_store name n) k = k
  Move-Others make d (returned r) k = k
  Move-Others make d panicked k = k
  Move-Others (fetch_map e) d q k = k
  Move-Others (nil_map e) d q k = k
  Move-Others store d at_fetch k = k
  Move-Others store d (at_read n) k = k
  Move-Others store d at_lookup k = k
  Move-Others store d (at_test name) k = k
  Move-Others store d (at_make name) k = k
  Move-Others store d (at_fetch_map name) k = k
  Move-Others store d (at_store name n) k = k
  Move-Others store d (returned r) k = k
  Move-Others store d panicked k = k

  Move-Knows :
      {c : Call} {m m' : Memory} {p p' : Place}
      → Move host c m p m' p'
      → Knows c m p
      → AreRight m.items
      → Knows c m' p'
  Move-Knows (fetch e) k r = tt
  Move-Knows (fetch_none e) k r = tt
  Move-Knows {c} (hit {n} {name} e) k r = read_item-found host c _ name (r (root_of c) n) e
  Move-Knows (miss e) k r = tt
  Move-Knows (not_found e) k r = e
  Move-Knows (found e) k r = e
  Move-Knows (has_item {n = n} e) k r = (k, (n, e))
  Move-Knows (no_item e) k r = k
  Move-Knows {c} {m} make k r = (k, insert-HasItem m (root_of c) m.made)
  Move-Knows (fetch_map e) k r = k.0
  Move-Knows (nil_map e) (f, (n, h)) r = absurd (cc (sym e ∙ h))
  Move-Knows store k r = k

  module _ (calls : ℕ → Call) where
    record Inv (s : System) : Type 0 where
      pub right : AreRight s.memory.items
      pub knows : (i : ℕ) → Knows (calls i) s.memory (s.place i)

    Step-Inv : {s t : System} → Step host calls s t → Inv s → Inv t
    Step-Inv {s} (pick i {m = m'} {p} m) v = record {
      right = Move-AreRight m (v.knows i) v.right;
      knows =
          update-each (λ j. Knows (calls j) m') s.place i p (Move-Knows m (v.knows i) v.right)
            (λ j. Move-Others m (calls j) (s.place j) (v.knows j));
    }

    Reach-Inv : {s : System} → Reach host calls s → Inv s
    Reach-Inv here = record { right = λ root n. empty-IsRightItem host root; knows = λ i. tt }
    Reach-Inv (later r m) = Step-Inv m (Reach-Inv r)

    -- As long as the files of the host stay, however calls for names of users and groups interleave,
    -- also where an item is replaced that another call has made, reads or writes to: each call that
    -- has returned gave the same name or error as the lookup in the file, all items hold what the
    -- files give, and no call writes to a nil map.
    pub returned-find_name :
        (s : System)
        → Reach host calls s
        → (i : ℕ) (r : Result Bytes) → s.place i ≡ returned r
        → (r ≡ find_name host (calls i))
          × AreRight s.memory.items
          × ((k : ℕ) → s.place k ≢ panicked)
    returned-find_name s h i r e =
        let v = Reach-Inv h in
        (
          sym (subst (Knows (calls i) s.memory) e (v.knows i)),
          v.right,
          λ k q. subst (Knows (calls k) s.memory) q (v.knows k),
        )
