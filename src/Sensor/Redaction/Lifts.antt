-- ===== src/Sensor/Redaction/Lifts.antt =====
-- Changes at the places that fit a pattern, and what they leave along a path.
use host_scanner.Prelude.{
  ◌≡◌, refl, sym, ap, ◌∙◌, inl, inr, true, false, some, List, [], ◌∷◌, ◌++◌, Bool-cases,
  Option-cases, some_inv, subst, &&_iff,
}
use host_scanner.Prelude.Bytes.{Bytes}
use host_scanner.Prelude.Bytes.Laws.{bytes_eq_sound}
use host_scanner.Sensor.Redaction.{
  Value, scalar, items, object, Fields, if_items, if_object, at_key, every_value,
}
use host_scanner.Sensor.Redaction.Paths.{
  Place, index, key, Pattern, any_index, any_key, this_key, fits, matches, begins, get, child,
  follow, on_some, nth-on_items, get-every_value, get-at_key, get_other-at_key,
}

-- The change `g` makes `f` of what stands at the places that fit `p`, and leaves all else.
pub record Lifts (p : Pattern) (f g : Value → Value) : Type 0 where
  pub inside : (x : Place) (v : Value) → fits p x ≡ true → child x (g v) ≡ on_some f (child x v)
  pub outside : (x : Place) (v : Value) → fits p x ≡ false → child x (g v) ≡ child x v
  pub kept : (s : Bytes) → g (scalar s) ≡ scalar s

pub if_items-Lifts : (f : Value → Value) → Lifts any_index f (if_items f)
unfolding child fits
if_items-Lifts f = record { inside = ins; outside = out; kept = λ s. refl }
  where
    ins :
        (x : Place) (v : Value)
        → fits any_index x ≡ true
        → child x (if_items f v) ≡ on_some f (child x v)
    ins (index n) (items vs) h = nth-on_items f n vs
    ins (index n) (scalar s) h = refl
    ins (index n) (object fs) h = refl
    ins (key k) v h = absurd (cc)

    out : (x : Place) (v : Value) → fits any_index x ≡ false → child x (if_items f v) ≡ child x v
    out (index n) v h = absurd (cc)
    out (key k) (items vs) h = refl
    out (key k) (scalar s) h = refl
    out (key k) (object fs) h = refl

pub every_value-Lifts : (f : Value → Value) → Lifts any_key f (if_object (every_value f))
unfolding child fits
every_value-Lifts f = record { inside = ins; outside = out; kept = λ s. refl }
  where
    ins :
        (x : Place) (v : Value)
        → fits any_key x ≡ true
        → child x (if_object (every_value f) v) ≡ on_some f (child x v)
    ins (key k) (object fs) h = get-every_value f k fs
    ins (key k) (scalar s) h = refl
    ins (key k) (items vs) h = refl
    ins (index n) v h = absurd (cc)

    out :
        (x : Place) (v : Value)
        → fits any_key x ≡ false
        → child x (if_object (every_value f) v) ≡ child x v
    out (key k) v h = absurd (cc)
    out (index n) (items vs) h = refl
    out (index n) (scalar s) h = refl
    out (index n) (object fs) h = refl

pub at_key-Lifts : (k : Bytes) (f : Value → Value) → Lifts (this_key k) f (if_object (at_key k f))
unfolding child fits
at_key-Lifts k f = record { inside = ins; outside = out; kept = λ s. refl }
  where
    ins :
        (x : Place) (v : Value)
        → fits (this_key k) x ≡ true
        → child x (if_object (at_key k f) v) ≡ on_some f (child x v)
    ins (key k') (object fs) h =
        subst (λ c. get c (at_key k f fs) ≡ on_some f (get c fs)) (bytes_eq_sound k k' h)
          (get-at_key f k fs)
    ins (key k') (scalar s) h = refl
    ins (key k') (items vs) h = refl
    ins (index n) v h = absurd (cc)

    out :
        (x : Place) (v : Value)
        → fits (this_key k) x ≡ false
        → child x (if_object (at_key k f) v) ≡ child x v
    out (key k') (object fs) h = get_other-at_key f k k' fs h
    out (key k') (scalar s) h = refl
    out (key k') (items vs) h = refl
    out (index n) (items vs) h = refl
    out (index n) (scalar s) h = refl
    out (index n) (object fs) h = refl

-- Texts stay, but at and below the paths that match.
abbrev pub Keeps : (Value → Value) → List Pattern → Type 0
Keeps f ps =
    (path : List Place) (v : Value) (s : Bytes)
    → begins ps path ≡ false
    → follow path v ≡ some (scalar s)
    → follow path (f v) ≡ some (scalar s)

pub Lifts-Keeps :
    (p : Pattern) (ps : List Pattern) (f g : Value → Value)
    → Lifts p f g
    → Keeps f ps
    → Keeps g (p ∷ ps)
unfolding follow begins
Lifts-Keeps p ps f g l k [] v s m h = ap some (ap g (some_inv h) ∙ l.kept s)
Lifts-Keeps p ps f g l k (x ∷ path) v s m h = elim (Bool-cases (fits p x)) [
  | inr e ↦ rw (l.outside x v e, follow) h
  | inl e ↦ elim (Option-cases (child x v)) [
    | inl n ↦ absurd (cc (sym (rw (n, follow) at h)))
    | inr (w, n) ↦
        rw (l.inside x v e, n, follow) (k path w s (rw (e, begins) at m) (rw (n, follow) at h))
  ]
]

-- What stands below an object at a path that matches.
abbrev pub Sets : (Value → Value) → List Pattern → Bytes → Value → Type 0
Sets f ps k new =
    (path : List Place) (v : Value) (fs : Fields)
    → matches ps path ≡ true
    → follow path v ≡ some (object fs)
    → follow (path ++ (key k ∷ [])) (f v) ≡ some new

pub Lifts-Sets :
    (p : Pattern) (ps : List Pattern) (k : Bytes) (new : Value) (f g : Value → Value)
    → Lifts p f g
    → Sets f ps k new
    → Sets g (p ∷ ps) k new
unfolding follow matches
Lifts-Sets p ps k new f g l i [] v fs m h = absurd (cc)
Lifts-Sets p ps k new f g l i (x ∷ path) v fs m h =
    let (e, m') = (&&_iff (fits p x) (matches ps path)).0 m in
    elim (Option-cases (child x v)) [
      | inl n ↦ absurd (cc (sym (rw (n, follow) at h)))
      | inr (w, n) ↦ rw (l.inside x v e, n, follow) (i path w fs m' (rw (n, follow) at h))
    ]
