-- ===== src/Prelude/FilePath/Laws.antt =====
-- Where a path leads: components without `..` never leave the directory they start from.
use mathlib.Core.List.{reverse, reverse-append, reverse-cons}
use host_scanner.Prelude.Tests.{Bool-cases}
use host_scanner.Prelude.Lists.{All, All-append}
use mathlib.Core.Path.{◌≡◌, refl, sym, ap, ◌∙◌}
use mathlib.Core.Logic.{◌≢◌, inl, inr}
use mathlib.Core.Bool.{Bool, true, false, ◌||◌}
use mathlib.Core.List.{List, [], ◌∷◌, ◌++◌, append_assoc, append-nil}
use native.Mathlib.Omega.{arith}
use Prim.Native.Nat.{ℕ}
use host_scanner.Prelude.Bytes.{Bytes, bytes_eq, split, join, push}
use host_scanner.Prelude.Bytes.Cuts.{split-ne-nil}
use host_scanner.Prelude.Bytes.Laws.{bytes_eq_iff, bytes_eq_sound}
use host_scanner.Prelude.FilePath.{slash, dot_dot, back, enter, walk, clean, path_join}

push-append : (c : ℕ) (ps qs : List Bytes) → ps ≢ [] → push c (ps ++ qs) ≡ push c ps ++ qs
push-append c [] qs h = absurd (h refl)
push-append c (p ∷ ps) qs h = refl

-- The components of two paths with a separator between them.
pub split-append : (sep : ℕ) (a b : Bytes) → split sep (a ++ (sep ∷ b)) ≡ split sep a ++ split sep b
unfolding split
split-append sep [] b = ground arith
split-append sep (c ∷ a) b =
    ground
      (arith, split-append sep a b, push-append c (split sep a) (split sep b) (split-ne-nil sep a))

pub walk-append :
    (rooted : Bool) (stack xs ys : List Bytes)
    → walk rooted stack (xs ++ ys) ≡ walk rooted (walk rooted stack xs) ys
unfolding walk
walk-append rooted stack [] ys = refl
walk-append rooted stack (x ∷ xs) ys = walk-append rooted (enter rooted stack x) xs ys

-- A component that is kept as it is.
abbrev pub IsPlain : Bytes → Type 0
IsPlain c = (c ≢ []) × (c ≢ b'.' ∷ []) × (c ≢ dot_dot)

-- Components without `..` only put plain components onto the stack.
pub walk_up :
    (rooted : Bool) (stack cs : List Bytes)
    → All (λ c. c ≢ dot_dot) cs
    → (kept : List Bytes) × (walk rooted stack cs ≡ kept ++ stack) × All IsPlain kept
unfolding walk
walk_up rooted stack [] h = ([], refl, tt)
walk_up rooted stack (c ∷ cs) h = elim (Bool-cases (bytes_eq c [] || bytes_eq c (b'.' ∷ []))) [
  | inl e ↦
      let (kept, w, p) = walk_up rooted stack cs h.1 in
      (kept, ap (λ s. walk rooted s cs) (unfold enter in rw e) ∙ w, p)
  | inr e ↦
      let (kept, w, p) = walk_up rooted (c ∷ stack) cs h.1 in
      (
        kept ++ (c ∷ []),
        ap (λ s. walk rooted s cs) (unfold enter in ground (arith, bytes_eq_sound c dot_dot))
            ∙ w
            ∙ sym (append_assoc kept (c ∷ []) stack),
        All-append IsPlain kept (c ∷ []) p (
          (ground (arith, bytes_eq_iff c []), ground (arith, bytes_eq_iff c (b'.' ∷ [])), h.0),
          tt,
        ),
      )
]

-- Components behind a slash each.
abbrev pub below : List Bytes → Bytes
below [] = []
below (c ∷ cs) = slash ∷ (c ++ below cs)

join-below : (c : Bytes) (cs : List Bytes) → join (c ∷ cs) (slash ∷ []) ≡ c ++ below cs
unfolding join
join-below c [] = sym (append-nil c)
join-below c (d ∷ cs) = ap (λ s. c ++ (slash ∷ s)) (join-below d cs)

below-append : (xs ys : List Bytes) → below (xs ++ ys) ≡ below xs ++ below ys
below-append [] ys = refl
below-append (x ∷ xs) ys =
    ap (λ s. slash ∷ (x ++ s)) (below-append xs ys)
    ∙ ap (λ s. slash ∷ s) (sym (append_assoc x (below xs) (below ys)))

slash-join : (cs : List Bytes) → cs ≢ [] → slash ∷ join cs (slash ∷ []) ≡ below cs
slash-join [] h = absurd (h refl)
slash-join (c ∷ cs) h = ap (λ s. slash ∷ s) (join-below c cs)

-- The components that a rooted path keeps, in order.
abbrev pub kept_of : Bytes → List Bytes
kept_of s = reverse (walk true [] (split slash s))

pub path_join_rooted :
    (r p : Bytes)
    → path_join ((slash ∷ r) ∷ p ∷ []) ≡ slash ∷ join (kept_of (r ++ (slash ∷ p))) (slash ∷ [])
unfolding path_join join
path_join_rooted r p = refl

append-ne-nil : (xs ys : List Bytes) → xs ≢ [] → xs ++ ys ≢ []
append-ne-nil [] ys h = absurd (h refl)
append-ne-nil (x ∷ xs) ys h = λ e. cc e

pub clean_rooted : (r : Bytes) → kept_of r ≢ [] → clean (slash ∷ r) ≡ below (kept_of r)
unfolding clean
clean_rooted r h = slash-join (kept_of r) h

All-reverse : (xs : List Bytes) → All IsPlain xs → All IsPlain (reverse xs)
All-reverse [] h = tt
All-reverse (x ∷ xs) h =
    rw (reverse-cons x xs) (All-append IsPlain (reverse xs) (x ∷ []) (All-reverse xs h.1) (h.0, tt))

-- A path whose components are not `..`, joined to a rooted directory other than the root, stays
-- under that directory.
pub path_join_under :
    (r p : Bytes)
    → kept_of r ≢ []
    → All (λ c. c ≢ dot_dot) (split slash p)
    → (cs : List Bytes) × (path_join ((slash ∷ r) ∷ p ∷ []) ≡ clean (slash ∷ r) ++ below cs)
      × All IsPlain cs
path_join_under r p h a =
    let (kept, w, plain) = walk_up true (walk true [] (split slash r)) (split slash p) a in
    let e : kept_of (r ++ (slash ∷ p)) ≡ kept_of r ++ reverse kept =
      ap (λ s. reverse (walk true [] s)) (split-append slash r p)
      ∙ ap reverse (walk-append true [] (split slash r) (split slash p) ∙ w)
      ∙ reverse-append kept (walk true [] (split slash r)) in
    (
      reverse kept,
      path_join_rooted r p
          ∙ ap (λ s. slash ∷ join s (slash ∷ [])) e
          ∙ slash-join (kept_of r ++ reverse kept) (append-ne-nil (kept_of r) (reverse kept) h)
          ∙ below-append (kept_of r) (reverse kept)
          ∙ ap (λ s. s ++ below (reverse kept)) (sym (clean_rooted r h)),
      All-reverse kept plain,
    )

enter_parent :
    (c : Bytes) (stack : List Bytes)
    → bytes_eq c dot_dot ≡ false
    → enter true (c ∷ stack) dot_dot ≡ stack
unfolding enter back
enter_parent c stack h = unfold bytes_eq in ground arith

-- From a directory right below the root, `..` leads to the root.
pub path_join_parent :
    (r c p : Bytes)
    → walk true [] (split slash r) ≡ c ∷ []
    → bytes_eq c dot_dot ≡ false
    → path_join ((slash ∷ r) ∷ (dot_dot ++ (slash ∷ p)) ∷ []) ≡ path_join ((slash ∷ []) ∷ p ∷ [])
path_join_parent r c p w h =
    let e : walk true [] (split slash (r ++ (slash ∷ (dot_dot ++ (slash ∷ p)))))
        ≡ walk true (c ∷ []) (split slash (dot_dot ++ (slash ∷ p))) =
      ap (walk true []) (split-append slash r _)
      ∙ walk-append true [] (split slash r) _
      ∙ ap (λ s. walk true s (split slash (dot_dot ++ (slash ∷ p)))) w in
    let up : walk true (c ∷ []) (split slash (dot_dot ++ (slash ∷ p)))
        ≡ walk true [] (split slash p) =
      ap (walk true (c ∷ [])) (split-append slash dot_dot p)
      ∙ (unfold split walk in ap (λ s. walk true s (split slash p)) (enter_parent c [] h)) in
    path_join_rooted r (dot_dot ++ (slash ∷ p))
    ∙ ap (λ s. slash ∷ join (reverse s) (slash ∷ [])) (e ∙ up)
    ∙ unfold path_join join clean split walk enter bytes_eq in refl
