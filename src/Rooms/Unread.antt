-- ===== src/Rooms/Unread.antt =====
-- The counts of unread messages. (frontend/src/hooks/useRooms.ts)
use quiteline.Base.{
  ◌≡◌, refl, Bool, ◌∙◌, List, [], ◌∷◌, map, Option, none, some, ℕ, ◌+◌, ◌-◌, ◌≤◌, subst, ℤ, Str,
  str_eq, str_eq_iff, if◌then◌else◌, get_or, arith, All, Bool-cases, inl, inr,
}
use quiteline.Js.Sort.{sort, place, earlier, InOrder, sort-earlier-InOrder}
use quiteline.Js.Number.{IsNum}
use quiteline.Wire.{Room}
use quiteline.Rooms.Activity.{Activity, patch_room, patch_room_activity, active_at}

abbrev pub unread : Room → ℕ
unread r = get_or r.unread_count 0

abbrev pub total_unread : List Room → ℕ
total_unread [] = 0
total_unread (r ∷ rs) = unread r + total_unread rs

-- The unread messages of the room with an id, and whether there is such a room.
abbrev pub unread_of : Str → List Room → ℕ
unread_of k [] = 0
unread_of k (r ∷ rs) = if str_eq r.room_id k then unread r else unread_of k rs

abbrev pub times : Str → List Room → ℕ
times k [] = 0
times k (r ∷ rs) = (if str_eq r.room_id k then 1 else 0) + times k rs

abbrev pub HasDistinctRooms : List Room → Type 0
HasDistinctRooms [] = Unit
HasDistinctRooms (r ∷ rs) = (times r.room_id rs ≡ 0) × HasDistinctRooms rs

abbrev pub rooms_of : Option (List Room) → List Room
rooms_of none = []
rooms_of (some rooms) = rooms

module _ (gt : Room → Room → Bool) where
  total_unread-place :
      (r : Room) (rs : List Room) → total_unread (place gt r rs) ≡ unread r + total_unread rs
  unfolding place
  total_unread-place r [] = refl
  total_unread-place r (q ∷ rs) = elim (Bool-cases (gt r q)) [
    | inl e ↦ rw e (omega (arith, total_unread-place r rs))
    | inr e ↦ rw e refl
  ]

  pub total_unread-sort : (rs : List Room) → total_unread (sort gt rs) ≡ total_unread rs
  unfolding sort
  total_unread-sort [] = refl
  total_unread-sort (r ∷ rs) =
      omega (arith, total_unread-place r (sort gt rs), total_unread-sort rs)

total_unread_absent :
    (k : Str) (o : Activity) (rs : List Room)
    → times k rs ≡ 0
    → total_unread (map (patch_room k o) rs) ≡ total_unread rs
unfolding patch_room
total_unread_absent k o [] t = refl
total_unread_absent k o (r ∷ rs) t = ground (arith, total_unread_absent k o rs)

unread_of-le : (k : Str) (rs : List Room) → unread_of k rs ≤ total_unread rs
unread_of-le k [] = omega arith
unread_of-le k (r ∷ rs) = ground (arith, unread_of-le k rs)

pub total_unread_patched :
    (k : Str) (o : Activity) (rs : List Room)
    → HasDistinctRooms rs
    → total_unread (map (patch_room k o) rs) ≡ (
        if o.clear_unread
        then total_unread rs - unread_of k rs
        else total_unread rs + (if o.increment_unread then times k rs else 0))
unfolding patch_room
total_unread_patched k o [] h = ground arith
total_unread_patched k o (r ∷ rs) h = elim (Bool-cases (str_eq r.room_id k)) [
  | inl e ↦
      let absent : times k rs ≡ 0 =
        subst (λ (j : Str). times j rs ≡ 0) ((str_eq_iff r.room_id k).0 e) h.0 in
      rw e (ground (arith, total_unread_absent k o rs absent))
  | inr e ↦ rw e (ground (arith, total_unread_patched k o rs h.1, unread_of-le k rs))
]

-- A room's activity puts the rooms in order, the latest active first, if every date can be read,
-- and changes the unread messages of all rooms together by the room's own: by one more, or by all
-- of them less.
pub patch_room_activity_unread :
    (parse_date : Str → Option ℤ) (k : Str) (o : Activity) (rooms : List Room)
    → HasDistinctRooms rooms
    → All (λ r. IsNum (active_at parse_date r)) (map (patch_room k o) rooms)
    → InOrder
        (earlier (active_at parse_date))
        (rooms_of (patch_room_activity parse_date k o (some rooms)))
      × (total_unread (rooms_of (patch_room_activity parse_date k o (some rooms))) ≡ (
          if o.clear_unread
          then total_unread rooms - unread_of k rooms
          else total_unread rooms + (if o.increment_unread then times k rooms else 0)))
unfolding patch_room_activity
patch_room_activity_unread parse_date k o rooms h d = (
  sort-earlier-InOrder (active_at parse_date) (map (patch_room k o) rooms) d,
  total_unread-sort (earlier (active_at parse_date)) (map (patch_room k o) rooms)
      ∙ total_unread_patched k o rooms h,
)
