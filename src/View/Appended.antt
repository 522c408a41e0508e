-- ===== src/View/Appended.antt =====
-- Which messages count as unread, and which are animated.
-- (frontend/src/components/chat/ChatView.tsx)
use quiteline.Base.{
  ◌≡◌, refl, ap, ◌∙◌, Bool, true, false, List, [], ◌∷◌, ◌++◌, Option, none, some, ◌+◌, ◌==◌, Str,
  str_eq, str_eq_iff, str_eq_refl, truthy, length, if◌then◌else◌, arith, All,
}
use quiteline.Wire.{DecryptedMessage}
use quiteline.View.Scroll.{
  Scroll, Shown, last_of, ids, scroll_messages_to_bottom, incoming_count, messages_appended,
  after_id, is_last, messages_compared, messages_changed,
}

abbrev pub LacksId : Str → List DecryptedMessage → Type 0
LacksId k = All (λ m. str_eq m.id k ≡ false)

after_id-append :
    (older : List DecryptedMessage) (m : DecryptedMessage) (appended : List DecryptedMessage)
    → LacksId m.id older
    → after_id m.id (older ++ m ∷ appended) ≡ some appended
unfolding after_id
after_id-append [] m appended h = rw (str_eq_refl m.id) refl
after_id-append (x ∷ older) m appended h = rw h.0 (after_id-append older m appended h.1)

-- The last id of a list that ends in messages without an id is not this id.
last_id :
    (k : Str) (m : DecryptedMessage) (ms : List DecryptedMessage)
    → LacksId k (m ∷ ms)
    → is_last k (ids (m ∷ ms)) ≡ false
last_id k m [] h = ground (arith, str_eq_iff m.id k, str_eq_iff k m.id)
last_id k m (n ∷ ms) h = last_id k n ms h.1

last_of-append :
    (older : List DecryptedMessage) (m : DecryptedMessage) (ms : List DecryptedMessage)
    → last_of (ids (older ++ m ∷ ms)) ≡ last_of (ids (m ∷ ms))
last_of-append [] m ms = refl
last_of-append (x ∷ []) m ms = refl
last_of-append (x ∷ y ∷ older) m ms = last_of-append (y ∷ older) m ms

messages_appended-unread :
    (v : Shown) (ms : List DecryptedMessage) (s : Scroll)
    → (messages_appended v ms s).unread_count
      ≡ (if s.is_near_bottom then s.unread_count else s.unread_count + incoming_count v.me ms)
unfolding messages_appended scroll_messages_to_bottom
messages_appended-unread v ms s = ground arith

is_last-same : (k : Str) (xs ys : List Str) → last_of xs ≡ last_of ys → is_last k xs ≡ is_last k ys
is_last-same k xs ys e =
    ap (λ (o : Option Str). elim o as (λ _. Bool) [ none ↦ false | some x ↦ str_eq k x ]) e

-- Whether nothing stands behind the message.
is_last-end :
    (m : DecryptedMessage) (appended : List DecryptedMessage)
    → LacksId m.id appended
    → is_last m.id (ids (m ∷ appended)) ≡ (length appended == 0)
is_last-end m [] h = str_eq_refl m.id
is_last-end m (n ∷ ms) h = last_id m.id n ms h ∙ ground arith

messages_compared-unread :
    (v : Shown) (m : DecryptedMessage) (appended : List DecryptedMessage) (s : Scroll)
    → truthy m.id ≡ true
    → last_of s.previous_message_ids ≡ some m.id
    → after_id m.id v.visible ≡ some appended
    → is_last m.id (ids v.visible) ≡ (length appended == 0)
    → ((messages_compared v s).unread_count ≡ (
        if s.is_near_bottom then s.unread_count else s.unread_count + incoming_count v.me appended))
      × ((messages_compared v s).previous_message_ids ≡ ids v.visible)
unfolding messages_compared incoming_count
messages_compared-unread v m [] s g p f l = ground (arith, g, p, f, l)
messages_compared-unread v m (n ∷ ms) s g p f l = ground (
  arith,
  g,
  p,
  f,
  l,
  messages_appended-unread v (n ∷ ms) (record s { previous_message_ids = ids v.visible }),
)

length-append_cons :
    (xs : List DecryptedMessage) (m : DecryptedMessage) (ys : List DecryptedMessage)
    → (length (xs ++ m ∷ ys) == 0) ≡ false
length-append_cons [] m ys = ground arith
length-append_cons (x ∷ xs) m ys = ground arith

-- In a room whose list has been shown, while the last message of before stays: messages that are put
-- before it do not count as unread, and those behind it count if they are others' and no system
-- messages, and if the list is not near its bottom. The present messages are the next "before".
pub messages_changed-unread :
    (v : Shown) (older : List DecryptedMessage) (m : DecryptedMessage)
    (appended : List DecryptedMessage) (s : Scroll)
    → v.visible ≡ older ++ m ∷ appended
    → str_eq s.initialized_room v.active_room ≡ true
    → truthy m.id ≡ true
    → last_of s.previous_message_ids ≡ some m.id
    → LacksId m.id older
    → LacksId m.id appended
    → ((messages_changed v s).unread_count ≡ (
        if s.is_near_bottom then s.unread_count else s.unread_count + incoming_count v.me appended))
      × ((messages_changed v s).previous_message_ids ≡ ids v.visible)
unfolding messages_changed
messages_changed-unread v older m appended s w r g p h k =
    let found = ap (after_id m.id) w ∙ after_id-append older m appended h in
    let at_end =
      is_last-same m.id (ids v.visible) (ids (m ∷ appended))
        (ap (λ (ms : List DecryptedMessage). last_of (ids ms)) w ∙ last_of-append older m appended)
      ∙ is_last-end m appended k in
    let compared = messages_compared-unread v m appended s g p found at_end in
    let some_visible : (length v.visible == 0) ≡ false =
      rw w (length-append_cons older m appended) in
    ground (arith, compared, some_visible, r)
