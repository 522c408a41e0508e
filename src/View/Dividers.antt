-- ===== src/View/Dividers.antt =====
-- The dates that part a room's messages. (frontend/src/components/chat/ChatView.tsx)
use quiteline.Base.{
  Bool, false, not, ◌&&◌, List, [], ◌∷◌, Option, none, some, ℕ, Str, ◌==◌, if◌then◌else◌,
}
use quiteline.Wire.{DecryptedMessage}

-- A day in the browser's time zone: `getFullYear`, `getMonth` and `getDate`.
pub record Day : Type 0 where
  pub year : ℕ
  pub month : ℕ
  pub date : ℕ

-- `isSameDay`: the parts of an invalid date are NaN, which is not equal to itself.
unfoldable pub is_same_day : Option Day → Option Day → Bool
is_same_day none b = false
is_same_day (some a) none = false
is_same_day (some a) (some b) = (a.year == b.year) && (a.month == b.month) && (a.date == b.date)

-- What a divider says: that it is today, or yesterday, or else a date, with or without its year.
pub data Divider : Type 0 where
  today yesterday : Divider
  dated : Str → Bool → Divider

abbrev pub is_year_of : Option Day → Day → Bool
is_year_of none b = false
is_year_of (some a) b = a.year == b.year

-- The time of the browser, in days.
pub record Calendar : Type 0 where
  -- `new Date(s)`.
  pub day_of : Str → Option Day
  pub this_day : Day
  pub day_before : Day

unfoldable pub divider_of : Calendar → Str → Divider
unfolding is_same_day
divider_of c at =
    let day = c.day_of at in
    if is_same_day day (some c.this_day)
    then today
    else if is_same_day day (some c.day_before)
    then yesterday
    else dated at (not (is_year_of day c.this_day))

pub record MessageMeta : Type 0 where
  pub msg : DecryptedMessage
  pub date_divider : Option Divider

-- The messages behind one that was created at a time.
unfoldable pub metas_after : Calendar → Str → List DecryptedMessage → List MessageMeta
unfolding is_same_day divider_of
metas_after c before [] = []
metas_after c before (m ∷ ms) =
    record {
      msg = m;
      date_divider =
          if is_same_day (c.day_of before) (c.day_of m.created_at)
          then none
          else some (divider_of c m.created_at);
    }
    ∷ metas_after c m.created_at ms

-- `buildMessageMeta`.
unfoldable pub build_message_meta : Calendar → Bool → List DecryptedMessage → List MessageMeta
unfolding metas_after divider_of
build_message_meta c has_more [] = []
build_message_meta c has_more (m ∷ ms) =
    record { msg = m; date_divider = if has_more then none else some (divider_of c m.created_at) }
    ∷ metas_after c m.created_at ms
