-- ===== src/Utils/Process/GetArg.antt =====
-- What `GetArg` finds on a command line.
use host_scanner.Prelude.{
  ◌≡◌, ◌≢◌, ◌↔◌, refl, sym, ap, subst, ◌∙◌, inl, inr, true, false, List, [], ◌∷◌, ◌++◌, append-nil,
  length, drop, drop-length-append, All, arith, Bool-cases, ==_iff,
}
use host_scanner.Prelude.Bytes.{Bytes, has_prefix}
use host_scanner.Prelude.Bytes.Laws.{has_prefix-append, has_prefix_sound}
use host_scanner.Utils.Process.{
  ProcessDetails, ArgKind, other, bare, with_value, kind_of_rest, arg_kind, find_arg, get_arg,
  next_arg,
}

-- An argument that says nothing of a flag: neither the flag itself nor the flag with `=` and a value.
abbrev pub IsOther : Bytes → Bytes → Type 0
IsOther name arg = (arg ≢ name) × ((val : Bytes) → arg ≢ name ++ (b'=' ∷ val))

arg_kind-append : (name rest : Bytes) → arg_kind name (name ++ rest) ≡ kind_of_rest rest
unfolding arg_kind
arg_kind-append name rest = rw (has_prefix-append name rest, drop-length-append name rest)

arg_kind_bare : (name : Bytes) → arg_kind name name ≡ bare
arg_kind_bare name = subst (λ a. arg_kind name a ≡ bare) (append-nil name) (arg_kind-append name [])

kind_of_rest_bare : (r : Bytes) → kind_of_rest r ≡ bare → r ≡ []
kind_of_rest_bare [] h = refl
kind_of_rest_bare (c ∷ r) h = absurd (ground arith)

kind_of_rest_value : (r v : Bytes) → kind_of_rest r ≡ with_value v → r ≡ b'=' ∷ v
kind_of_rest_value [] v h = cc
kind_of_rest_value (c ∷ r) v h = ground (arith, ==_iff c b'=')

-- An argument of a kind but `other` begins with the flag.
arg_kind_sound :
    (name arg : Bytes)
    → arg_kind name arg ≢ other
    → (arg ≡ name ++ drop (length name) arg)
      × (arg_kind name arg ≡ kind_of_rest (drop (length name) arg))
unfolding arg_kind
arg_kind_sound name arg h = elim (Bool-cases (has_prefix arg name)) [
  | inl e ↦ (has_prefix_sound arg name e, rw e)
  | inr e ↦ absurd (h (rw e))
]

-- Every argument is of one of the three kinds.
data View (name arg : Bytes) : Type 0 where
  is_other : IsOther name arg → arg_kind name arg ≡ other → View name arg
  is_bare : arg ≡ name → View name arg
  is_value : (val : Bytes) → arg ≡ name ++ (b'=' ∷ val) → View name arg

pub arg_kind-IsOther : (name arg : Bytes) → arg_kind name arg ≡ other → IsOther name arg
arg_kind-IsOther name arg e = (
  λ h. cc (sym e ∙ ap (arg_kind name) h ∙ arg_kind_bare name),
  λ val h. cc (sym e ∙ ap (arg_kind name) h ∙ arg_kind-append name (b'=' ∷ val)),
)

view : (name arg : Bytes) → View name arg
view name arg = of_kind (arg_kind name arg) refl
  where
    of_kind : (k : ArgKind) → arg_kind name arg ≡ k → View name arg
    of_kind other e = is_other (arg_kind-IsOther name arg e) e
    of_kind bare e =
        let (a, k) = arg_kind_sound name arg (λ h. cc (sym e ∙ h)) in
        is_bare (a ∙ ap (λ r. name ++ r) (kind_of_rest_bare _ (sym k ∙ e)) ∙ append-nil name)
    of_kind (with_value v) e =
        let (a, k) = arg_kind_sound name arg (λ h. cc (sym e ∙ h)) in
        is_value v (a ∙ ap (λ r. name ++ r) (kind_of_rest_value _ v (sym k ∙ e)))

IsOther-arg_kind : (name arg : Bytes) → IsOther name arg → arg_kind name arg ≡ other
IsOther-arg_kind name arg h = of_view (view name arg)
  where
    of_view : View name arg → arg_kind name arg ≡ other
    of_view (is_other _ e) = e
    of_view (is_bare e) = absurd (h.0 e)
    of_view (is_value v e) = absurd (h.1 v e)

-- Arguments that say nothing of the flag are passed over.
find_arg-append :
    (name : Bytes) (pre args : List Bytes)
    → All (IsOther name) pre
    → find_arg (pre ++ args) name ≡ find_arg args name
unfolding find_arg
find_arg-append name [] args h = refl
find_arg-append name (a ∷ pre) args h =
    rw (IsOther-arg_kind name a h.0, find_arg) (find_arg-append name pre args h.1)

module _ (p : ProcessDetails) (name : Bytes) where
  -- If the first argument that is the flag or the flag with a value is of the form `flag=value`,
  -- that value and true are given.
  pub get_arg_value :
      (pre args : List Bytes) (val : Bytes)
      → p.cmd_line ≡ pre ++ ((name ++ (b'=' ∷ val)) ∷ args)
      → All (IsOther name) pre
      → get_arg p name ≡ (val, true)
  unfolding get_arg
  get_arg_value pre args val e h =
      rw (e, find_arg-append name pre _ h)
        (unfold find_arg in rw (arg_kind-append name (b'=' ∷ val), find_arg))

  -- If the first argument that is the flag or the flag with a value is the bare flag, the argument
  -- behind it, the empty text at the end of the line, and true are given.
  pub get_arg_bare :
      (pre args : List Bytes)
      → p.cmd_line ≡ pre ++ (name ∷ args)
      → All (IsOther name) pre
      → get_arg p name ≡ (next_arg args, true)
  unfolding get_arg
  get_arg_bare pre args e h =
      rw (e, find_arg-append name pre _ h) (unfold find_arg in rw (arg_kind_bare name, find_arg))

find_arg_absent :
    (name : Bytes) (args : List Bytes)
    → (find_arg args name ≡ ([], false)) ↔ All (IsOther name) args
unfolding find_arg
find_arg_absent name [] = (λ h. tt, λ h. refl)
find_arg_absent name (a ∷ args) = of_view (view name a) (find_arg_absent name args)
  where
    of_view :
        View name a
        → (find_arg args name ≡ ([], false)) ↔ All (IsOther name) args
        → (find_arg (a ∷ args) name ≡ ([], false)) ↔ All (IsOther name) (a ∷ args)
    of_view (is_other o e) ih =
        (λ h. (o, ih.0 (rw (e, find_arg) at h)), λ h. rw (e, find_arg) (ih.1 h.1))
    of_view (is_bare e) ih =
        (λ h. absurd (cc (rw (arg_kind_bare name, find_arg) at (rw e at h))), λ h. absurd (h.0.0 e))
    of_view (is_value v e) ih = (
      λ h. absurd (cc (rw (arg_kind-append name (b'=' ∷ v), find_arg) at (rw e at h))),
      λ h. absurd (h.0.1 v e),
    )

-- The value is empty and `ok` is false exactly when no argument is the flag or the flag with an
-- equals sign and a value.
pub get_arg_absent :
    (p : ProcessDetails) (name : Bytes)
    → (get_arg p name ≡ ([], false)) ↔ All (IsOther name) p.cmd_line
unfolding get_arg
get_arg_absent p name = find_arg_absent name p.cmd_line
