-- ===== src/View/Divided.antt =====
-- Where a room's messages are parted by dates, and by which. (frontend/src/components/chat/ChatView.tsx)
use quiteline.Base.{
  ◌≡◌, ◌≢◌, refl, sym, ap, ◌∙◌, Bool, true, false, not, List, [], ◌∷◌, ◌++◌, map, Option, none,
  some, ℕ, suc, Str, length, if◌then◌else◌, arith, inl, inr, ◌↔◌, Bool-cases,
}
use quiteline.Wire.{DecryptedMessage}
use quiteline.View.Dividers.{
  Day, is_same_day, Divider, today, yesterday, dated, Calendar, divider_of, is_year_of, MessageMeta,
  metas_after, build_message_meta,
}

-- Two dates can be read, and are of one day.
abbrev pub IsOneDay : Option Day → Option Day → Type 0
IsOneDay o p = (d : Day) × (o ≡ some d) × (p ≡ some d)

day_eq : (a b : Day) → a.year ≡ b.year → a.month ≡ b.month → a.date ≡ b.date → a ≡ b
day_eq a b y m d = cc

one_day : (o p : Option Day) → is_same_day o p ≡ true → IsOneDay o p
unfolding is_same_day
one_day none p e = absurd (ground (arith, e))
one_day (some a) none e = absurd (ground (arith, e))
one_day (some a) (some b) e =
    (a, refl, ap some (day_eq b a (ground (arith, e)) (ground (arith, e)) (ground (arith, e))))

same_day : (d : Day) → is_same_day (some d) (some d) ≡ true
unfolding is_same_day
same_day d = ground arith

is_same_day_iff : (o p : Option Day) → (is_same_day o p ≡ true) ↔ IsOneDay o p
is_same_day_iff o p = (
  one_day o p,
  λ w. ap (λ q. is_same_day q p) w.1 ∙ ap (is_same_day (some w.0)) w.2 ∙ same_day w.0,
)

not-IsOneDay : (o p : Option Day) → is_same_day o p ≡ false → ¬ (IsOneDay o p)
not-IsOneDay o p e w = absurd (ground (arith, e, (is_same_day_iff o p).1 w))

-- What a divider says of a date: that it is of this day, or of the day before and not of this one, or
-- else the date itself, without its year just if it can be read and is of this year.
abbrev pub IsLabel : Calendar → Str → Divider → Type 0
IsLabel c at today = c.day_of at ≡ some c.this_day
IsLabel c at yesterday = (c.day_of at ≢ some c.this_day) × (c.day_of at ≡ some c.day_before)
IsLabel c at (dated s has_year) =
    (c.day_of at ≢ some c.this_day)
    × (c.day_of at ≢ some c.day_before)
    × (s ≡ at)
    × ((has_year ≡ false) ↔ ((d : Day) × (c.day_of at ≡ some d) × (d.year ≡ c.this_day.year)))

other_day : (o : Option Day) (d : Day) → is_same_day o (some d) ≡ false → o ≢ some d
other_day o d e q = not-IsOneDay o (some d) e (d, q, refl)

this_day_of : (o : Option Day) (d : Day) → is_same_day o (some d) ≡ true → o ≡ some d
this_day_of o d e = let w = one_day o (some d) e in w.1 ∙ sym w.2

year_shown :
    (o : Option Day) (t : Day)
    → (not (is_year_of o t) ≡ false) ↔ ((d : Day) × (o ≡ some d) × (d.year ≡ t.year))
year_shown none t = (λ e. absurd (ground (arith, e)), λ w. absurd (ground (arith, w.1)))
year_shown (some a) t = (λ e. (a, refl, ground (arith, e)), λ w. ground (arith, w.1, w.2))

divider_of-IsLabel : (c : Calendar) (at : Str) → IsLabel c at (divider_of c at)
unfolding divider_of
divider_of-IsLabel c at = elim (Bool-cases (is_same_day (c.day_of at) (some c.this_day))) [
  | inl e ↦ rw e (this_day_of (c.day_of at) c.this_day e)
  | inr n ↦ elim (Bool-cases (is_same_day (c.day_of at) (some c.day_before))) [
    | inl e ↦
        rw (n, e) (other_day (c.day_of at) c.this_day n, this_day_of (c.day_of at) c.day_before e)
    | inr m ↦
        rw (n, m)
          (
            other_day (c.day_of at) c.this_day n,
            other_day (c.day_of at) c.day_before m,
            refl,
            year_shown (c.day_of at) c.this_day,
          )
  ]
]

-- Between two dates there is no divider just if both can be read and are of one day, and what divides
-- them says the later message's date.
abbrev pub IsDivided : Calendar → Str → Str → Option Divider → Type 0
IsDivided c before at none = IsOneDay (c.day_of before) (c.day_of at)
IsDivided c before at (some l) = (¬ (IsOneDay (c.day_of before) (c.day_of at))) × IsLabel c at l

divider_after :
    (c : Calendar) (before at : Str)
    → IsDivided c before at
        (if is_same_day (c.day_of before) (c.day_of at) then none else some (divider_of c at))
divider_after c before at = elim (Bool-cases (is_same_day (c.day_of before) (c.day_of at))) [
  | inl e ↦ rw e (one_day (c.day_of before) (c.day_of at) e)
  | inr e ↦ rw e (not-IsOneDay (c.day_of before) (c.day_of at) e, divider_of-IsLabel c at)
]

-- A list has, at a place, a message with such a divider between it and the one before.
abbrev pub HasDivided :
    Calendar → ℕ → DecryptedMessage → DecryptedMessage → List MessageMeta → Type 0
HasDivided c n a b metas =
    (pre : List MessageMeta) × (x : Option Divider) × (post : List MessageMeta) × (metas
      ≡ pre ++ record { msg = b; date_divider = x } ∷ post)
    × (length pre ≡ n)
    × IsDivided c a.created_at b.created_at x

HasDivided-cons :
    (c : Calendar) (n : ℕ) (a b : DecryptedMessage) (x : MessageMeta) (xs : List MessageMeta)
    → HasDivided c n a b xs
    → HasDivided c (suc n) a b (x ∷ xs)
HasDivided-cons c n a b x xs (pre, y, post, e, l, d) =
    (x ∷ pre, y, post, ap (λ (z : List MessageMeta). x ∷ z) e, ap suc l, d)

metas_after-HasDivided :
    (c : Calendar) (before : Str) (front : List DecryptedMessage) (a b : DecryptedMessage)
    → (rest : List DecryptedMessage)
    → HasDivided c (suc (length front)) a b (metas_after c before (front ++ a ∷ b ∷ rest))
unfolding metas_after
metas_after-HasDivided c before [] a b rest = (
  _ ∷ [],
  _,
  metas_after c b.created_at rest,
  refl,
  refl,
  divider_after c a.created_at b.created_at,
)
metas_after-HasDivided c before (m ∷ front) a b rest =
    HasDivided-cons c (suc (length front)) a b _ _
      (metas_after-HasDivided c m.created_at front a b rest)

map-metas_after :
    (c : Calendar) (before : Str) (ms : List DecryptedMessage)
    → map (λ x. x.msg) (metas_after c before ms) ≡ ms
unfolding metas_after
map-metas_after c before [] = refl
map-metas_after c before (m ∷ ms) =
    ap (λ (z : List DecryptedMessage). m ∷ z) (map-metas_after c m.created_at ms)

-- The messages are shown as they are, in their order. Wherever two of them stand behind one another,
-- the second has no divider just if both dates can be read and are of one day, and otherwise one that
-- says its own date: that it is today, or yesterday, or the date, without its year just if that is
-- this year's. The first message has none if there is more before it, and otherwise one that says its
-- date.
pub build_message_meta-HasDivided :
    (c : Calendar) (has_more : Bool) (front : List DecryptedMessage) (a b first : DecryptedMessage)
    → (rest more : List DecryptedMessage)
    → (map (λ x. x.msg) (build_message_meta c has_more more) ≡ more)
      × HasDivided c
          (suc (length front))
          a
          b
          (build_message_meta c has_more (front ++ a ∷ b ∷ rest))
      × ((x : Divider) × (metas : List MessageMeta) × IsLabel c first.created_at x
          × (build_message_meta c has_more (first ∷ more)
              ≡ record { msg = first; date_divider = if has_more then none else some x } ∷ metas))
unfolding build_message_meta metas_after
build_message_meta-HasDivided c has_more front a b first rest more = (
  all more,
  divided front,
  (
    divider_of c first.created_at,
    metas_after c first.created_at more,
    divider_of-IsLabel c first.created_at,
    refl,
  ),
)
  where
    all : (ms : List DecryptedMessage) → map (λ x. x.msg) (build_message_meta c has_more ms) ≡ ms
    all [] = refl
    all (m ∷ ms) = ap (λ (z : List DecryptedMessage). m ∷ z) (map-metas_after c m.created_at ms)

    divided :
        (front : List DecryptedMessage)
        → HasDivided c
            (suc (length front))
            a
            b
            (build_message_meta c has_more (front ++ a ∷ b ∷ rest))
    divided [] = (
      _ ∷ [],
      _,
      metas_after c b.created_at rest,
      refl,
      refl,
      divider_after c a.created_at b.created_at,
    )
    divided (m ∷ front) =
        HasDivided-cons c (suc (length front)) a b _ _
          (metas_after-HasDivided c m.created_at front a b rest)
