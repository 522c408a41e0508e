-- ===== src/Js/OrderedMap.antt =====
-- JavaScript's `Map` and the objects used as dictionaries, keyed by strings: a list of entries in
-- the order of insertion, in which a key stands once.
use quiteline.Base.{
  ◌≡◌, refl, false, List, [], ◌∷◌, Option, none, some, arith, Str, str_eq, str_eq_iff,
  if◌then◌else◌, All,
}

module _ {ℓ} {V : Type ℓ} where
  -- `m.get(k)`, `m[k]`.
  unfoldable pub get : Str → List (Str × V) → Option V
  get k [] = none
  get k ((j, v) ∷ m) = if str_eq j k then some v else get k m

  -- `m.set(k, v)`, `{ ...m, [k]: v }`: an old key keeps its place.
  unfoldable pub set : Str → V → List (Str × V) → List (Str × V)
  set k v [] = (k, v) ∷ []
  set k v ((j, w) ∷ m) = if str_eq j k then (j, v) ∷ m else (j, w) ∷ set k v m

  -- `delete m[k]`.
  unfoldable pub delete : Str → List (Str × V) → List (Str × V)
  delete k [] = []
  delete k ((j, w) ∷ m) = if str_eq j k then delete k m else (j, w) ∷ delete k m

  -- `[...m.values()]`.
  abbrev pub values : List (Str × V) → List V
  values [] = []
  values ((j, w) ∷ m) = w ∷ values m

  pub get-set :
      (k j : Str) (v : V) (m : List (Str × V))
      → get j (set k v m) ≡ (if str_eq k j then some v else get j m)
  unfolding get set
  get-set k j v [] = refl
  get-set k j v ((i, w) ∷ m) =
      ground (arith, str_eq_iff k j, str_eq_iff i k, str_eq_iff i j, get-set k j v m)

  pub get-delete :
      (k j : Str) (m : List (Str × V)) → get j (delete k m) ≡ (if str_eq k j then none else get j m)
  unfolding get delete
  get-delete k j [] = ground arith
  get-delete k j ((i, w) ∷ m) =
      ground (arith, str_eq_iff k j, str_eq_iff i k, str_eq_iff i j, get-delete k j m)

  -- No entry has the key.
  abbrev pub Lacks : Str → List (Str × V) → Type 0
  Lacks k = All (λ e. str_eq e.0 k ≡ false)

  -- Every key stands once.
  abbrev pub IsDistinct : List (Str × V) → Type 0
  IsDistinct [] = Unit
  IsDistinct (e ∷ m) = Lacks e.0 m × IsDistinct m

  pub Lacks-set :
      (k j : Str) (v : V) (m : List (Str × V))
      → str_eq k j ≡ false
      → Lacks j m
      → Lacks j (set k v m)
  unfolding set
  Lacks-set k j v [] e h = (e, tt)
  Lacks-set k j v ((i, w) ∷ m) e h = ground (arith, Lacks-set k j v m e h.1)

  pub set-IsDistinct :
      (k : Str) (v : V) (m : List (Str × V)) → IsDistinct m → IsDistinct (set k v m)
  unfolding set
  set-IsDistinct k v [] h = (tt, tt)
  set-IsDistinct k v ((i, w) ∷ m) h =
      ground (arith, str_eq_iff k i, str_eq_iff i k, Lacks-set k i v m, set-IsDistinct k v m h.1)

  pub get_of_Lacks : (k : Str) (m : List (Str × V)) → Lacks k m → get k m ≡ none
  unfolding get
  get_of_Lacks k [] h = refl
  get_of_Lacks k ((i, w) ∷ m) h = ground (arith, get_of_Lacks k m h.1)
