-- ===== src/Js/Spread.antt =====
-- Objects that are spread into others, and loops that fill a map: `{ ...m, ...entries }`.
use quiteline.Base.{
  ◌≡◌, refl, List, [], ◌∷◌, Option, none, some, Str, str_eq, str_eq_iff, if◌then◌else◌, arith,
}
use quiteline.Js.OrderedMap.{get, set, get-set, IsDistinct, set-IsDistinct, Lacks}

module _ {ℓ} {V : Type ℓ} where
  unfoldable pub set_all : List (Str × V) → List (Str × V) → List (Str × V)
  unfolding set
  set_all [] m = m
  set_all ((k, v) ∷ es) m = set_all es (set k v m)

  abbrev pub or_value : Option V → Option V → Option V
  or_value none o = o
  or_value (some v) o = some v

  -- The value of the last entry with the key.
  abbrev pub last_entry : Str → List (Str × V) → Option V
  last_entry k [] = none
  last_entry k ((j, v) ∷ es) = or_value (last_entry k es) (if str_eq j k then some v else none)

  or_value_assoc : (a b c : Option V) → or_value (or_value a b) c ≡ or_value a (or_value b c)
  or_value_assoc none b c = refl
  or_value_assoc (some v) b c = refl

  pub get-set_all :
      (k : Str) (es m : List (Str × V))
      → get k (set_all es m) ≡ or_value (last_entry k es) (get k m)
  unfolding set_all
  get-set_all k [] m = refl
  get-set_all k ((j, v) ∷ es) m = ground (
    arith,
    get-set_all k es (set j v m),
    get-set j k v m,
    or_value_assoc (last_entry k es) (if str_eq j k then some v else none) (get k m),
  )

  pub set_all-IsDistinct : (es m : List (Str × V)) → IsDistinct m → IsDistinct (set_all es m)
  unfolding set_all
  set_all-IsDistinct [] m h = h
  set_all-IsDistinct ((k, v) ∷ es) m h = set_all-IsDistinct es (set k v m) (set-IsDistinct k v m h)

  last_entry_of_Lacks : (k : Str) (m : List (Str × V)) → Lacks k m → last_entry k m ≡ none
  last_entry_of_Lacks k [] h = refl
  last_entry_of_Lacks k ((j, v) ∷ m) h = ground (arith, last_entry_of_Lacks k m h.1)

  -- In a map the last entry is the only one.
  pub last_entry-get : (k : Str) (m : List (Str × V)) → IsDistinct m → last_entry k m ≡ get k m
  unfolding get
  last_entry-get k [] h = refl
  last_entry-get k ((j, v) ∷ m) h = ground (
    arith,
    str_eq_iff j k,
    last_entry-get k m h.1,
    last_entry_of_Lacks j m h.0,
    last_entry_of_Lacks k m,
  )
