-- ===== src/Sensor/Redaction/Paths.antt =====
-- Places in a document, and what a change leaves at them.
use host_scanner.Prelude.{
  ℕ, zero, suc, ◌≡◌, refl, sym, ap, ◌∙◌, inl, inr, Bool, true, false, ◌&&◌, Option, none, some,
  List, [], ◌∷◌, if◌then◌else◌, Bool-cases, arith,
}
use host_scanner.Prelude.Bytes.{Bytes, bytes_eq}
use host_scanner.Prelude.Bytes.Laws.{bytes_eq_sound, bytes_eq_self}
use host_scanner.Sensor.Redaction.{
  Value, items, object, Items, no_items, item, Fields, no_fields, field, on_items, at_key,
  every_value, set_key,
}

pub data Place : Type 0 where
  index : ℕ → Place
  key : Bytes → Place

-- What a place of a path may be.
pub data Pattern : Type 0 where
  any_index any_key : Pattern
  this_key : Bytes → Pattern

unfoldable pub fits : Pattern → Place → Bool
fits any_index (index n) = true
fits any_index (key k) = false
fits any_key (index n) = false
fits any_key (key k) = true
fits (this_key k) (index n) = false
fits (this_key k) (key k') = bytes_eq k k'

unfoldable pub matches : List Pattern → List Place → Bool
matches [] [] = true
matches [] (x ∷ xs) = false
matches (p ∷ ps) [] = false
matches (p ∷ ps) (x ∷ xs) = fits p x && matches ps xs

-- A path that begins with one that matches.
unfoldable pub begins : List Pattern → List Place → Bool
begins [] xs = true
begins (p ∷ ps) [] = false
begins (p ∷ ps) (x ∷ xs) = fits p x && begins ps xs

unfoldable pub nth : ℕ → Items → Option Value
nth n no_items = none
nth zero (item v vs) = some v
nth (suc n) (item v vs) = nth n vs

unfoldable pub get : Bytes → Fields → Option Value
get k no_fields = none
get k (field k' v fs) = let rest = get k fs in if bytes_eq k k' then some v else rest

unfoldable pub child : Place → Value → Option Value
unfolding nth get
child (index n) (items vs) = nth n vs
child (key k) (object fs) = get k fs
child p v = none

unfoldable pub follow : List Place → Value → Option Value
unfolding child
follow [] v = some v
follow (p ∷ ps) v = elim (child p v) [ none ↦ none | some w ↦ follow ps w ]

abbrev pub on_some : (Value → Value) → Option Value → Option Value
on_some f none = none
on_some f (some v) = some (f v)

pub nth-on_items :
    (f : Value → Value) (n : ℕ) (vs : Items) → nth n (on_items f vs) ≡ on_some f (nth n vs)
unfolding nth on_items
nth-on_items f n no_items = refl
nth-on_items f zero (item v vs) = refl
nth-on_items f (suc n) (item v vs) = nth-on_items f n vs

pub get-every_value :
    (f : Value → Value) (k : Bytes) (fs : Fields) → get k (every_value f fs) ≡ on_some f (get k fs)
unfolding get every_value
get-every_value f k no_fields = refl
get-every_value f k (field k' v fs) = ground (arith, get-every_value f k fs)

pub get-at_key :
    (f : Value → Value) (k : Bytes) (fs : Fields) → get k (at_key k f fs) ≡ on_some f (get k fs)
unfolding get at_key
get-at_key f k no_fields = refl
get-at_key f k (field k' v fs) = ground (arith, get-at_key f k fs)

-- Two keys that differ are not both the third.
not_both : (k k' c : Bytes) → bytes_eq k k' ≡ false → bytes_eq k c ≡ true → bytes_eq k' c ≡ false
not_both k k' c h e = elim (Bool-cases (bytes_eq k' c)) [
  | inr n ↦ n
  | inl e' ↦
      let q = bytes_eq_sound k c e ∙ sym (bytes_eq_sound k' c e') in
      absurd (cc (sym (bytes_eq_self k) ∙ (ap (λ x. bytes_eq k x) q ∙ h)))
]

pub get_other-at_key :
    (f : Value → Value) (k k' : Bytes) (fs : Fields)
    → bytes_eq k k' ≡ false
    → get k' (at_key k f fs) ≡ get k' fs
unfolding get at_key
get_other-at_key f k k' no_fields h = refl
get_other-at_key f k k' (field c v fs) h = elim (Bool-cases (bytes_eq k c)) [
  | inl e ↦ rw (e, not_both k k' c h e) refl
  | inr e ↦ ground (arith, get_other-at_key f k k' fs h)
]

pub get-set_key : (k : Bytes) (v : Value) (fs : Fields) → get k (set_key k v fs) ≡ some v
unfolding get set_key
get-set_key k v no_fields = rw (bytes_eq_self k) refl
get-set_key k v (field c w fs) = ground (arith, get-set_key k v fs)

pub get_other-set_key :
    (k k' : Bytes) (v : Value) (fs : Fields)
    → bytes_eq k k' ≡ false
    → get k' (set_key k v fs) ≡ get k' fs
unfolding get set_key
get_other-set_key k k' v no_fields h = elim (Bool-cases (bytes_eq k' k)) [
  | inr e ↦ rw e refl
  | inl e ↦ absurd (cc (sym h ∙ (ap (λ x. bytes_eq k x) (bytes_eq_sound k' k e) ∙ bytes_eq_self k)))
]
get_other-set_key k k' v (field c w fs) h = elim (Bool-cases (bytes_eq k c)) [
  | inl e ↦ rw (e, not_both k k' c h e) refl
  | inr e ↦ ground (arith, get_other-set_key k k' v fs h)
]
