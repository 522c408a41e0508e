-- ===== src/Session/DirectRooms.antt =====
-- The room of two friends is one room. (frontend/src/components/MessengerApp.tsx)
use quiteline.Base.{
  ◌≡◌, refl, ap, ◌∙◌, sym, true, false, [], ◌∷◌, ◌++◌, ℕ, Str, codes, length, inl, inr, arith, ◌⊎◌,
  ◌↔◌,
}
use quiteline.Session.Direct.{str_gt, sort_two, direct_room_id}

str_gt-asym : (a b : Str) → str_gt a b ≡ true → str_gt b a ≡ false
unfolding str_gt
str_gt-asym [] b h = cc
str_gt-asym (c ∷ s) [] h = refl
str_gt-asym (c ∷ s) (d ∷ t) h = ground (arith, str_gt-asym s t)

str_gt-total : (a b : Str) → str_gt a b ≡ false → str_gt b a ≡ false → a ≡ b
unfolding str_gt
str_gt-total [] [] h k = refl
str_gt-total [] (d ∷ t) h k = cc
str_gt-total (c ∷ s) [] h k = cc
str_gt-total (c ∷ s) (d ∷ t) h k = ground (arith, str_gt-total s t)

sort_two_comm : (a b : Str) → sort_two a b ≡ sort_two b a
unfolding sort_two
sort_two_comm a b = ground (arith, str_gt-asym a b, str_gt-total a b)

direct_room_id_comm : (a b : Str) → direct_room_id a b ≡ direct_room_id b a
unfolding direct_room_id
direct_room_id_comm a b =
    ap (λ (p : Str × Str). codes "direct-" ++ (p.0 ++ (codes "-" ++ p.1))) (sort_two_comm a b)

-- Texts of one length that are put before others are equal if the whole is.
append-same : (x y s t : Str) → length x ≡ length y → x ++ s ≡ y ++ t → (x ≡ y) × (s ≡ t)
append-same [] [] s t l e = (refl, e)
append-same [] (d ∷ y) s t l e = absurd (ground (arith, l))
append-same (c ∷ x) [] s t l e = absurd (ground (arith, l))
append-same (c ∷ x) (d ∷ y) s t l e = ground (arith, append-same x y s t)

sort_two-length :
    (a b : Str) (n : ℕ)
    → length a ≡ n
    → length b ≡ n
    → (length (sort_two a b).0 ≡ n) × (length (sort_two a b).1 ≡ n)
unfolding sort_two
sort_two-length a b n h k = ground (arith, h, k)

sort_two-pairs :
    (a b c d : Str)
    → (sort_two a b).0 ≡ (sort_two c d).0
    → (sort_two a b).1 ≡ (sort_two c d).1
    → (a ≡ c) × (b ≡ d) ⊎ (a ≡ d) × (b ≡ c)
unfolding sort_two
sort_two-pairs a b c d h k = ground (arith, h, k)

direct_room_id-pairs :
    (a b c d : Str) (n : ℕ)
    → length a ≡ n
    → length b ≡ n
    → length c ≡ n
    → length d ≡ n
    → direct_room_id a b ≡ direct_room_id c d
    → (a ≡ c) × (b ≡ d) ⊎ (a ≡ d) × (b ≡ c)
unfolding direct_room_id
direct_room_id-pairs a b c d n la lb lc ld e =
    let one = sort_two-length a b n la lb in
    let two = sort_two-length c d n lc ld in
    let rest = append-same (codes "direct-") (codes "direct-") _ _ refl e in
    let (x, r) = append-same (sort_two a b).0 (sort_two c d).0 _ _ (one.0 ∙ sym two.0) rest.1 in
    let (_, y) = append-same (codes "-") (codes "-") (sort_two a b).1 (sort_two c d).1 refl r in
    sort_two-pairs a b c d x y

-- Two users who open a chat with each other mean the same room; and among users whose ids have one
-- length, two pairs mean the same room only if they are the same pair.
pub direct_room_id_iff :
    (a b c d : Str) (n : ℕ)
    → length a ≡ n
    → length b ≡ n
    → length c ≡ n
    → length d ≡ n
    → (direct_room_id a b ≡ direct_room_id c d) ↔ ((a ≡ c) × (b ≡ d) ⊎ (a ≡ d) × (b ≡ c))
direct_room_id_iff a b c d n la lb lc ld = (direct_room_id-pairs a b c d n la lb lc ld, back)
  where
    back : (a ≡ c) × (b ≡ d) ⊎ (a ≡ d) × (b ≡ c) → direct_room_id a b ≡ direct_room_id c d
    back (inl (p, q)) = rw (p, q) refl
    back (inr (p, q)) = rw (p, q) (direct_room_id_comm d c)
