-- ===== src/Examples/View.antt =====
-- The chat view.
use quiteline.Base.{
  ◌≡◌, refl, codes, List, [], ◌∷◌, ◌++◌, some, none, Str, true, false, str_eq, All, arith, pos, ℕ,
  map, if◌then◌else◌, Bool, ltb,
}
use quiteline.Wire.{DecryptedMessage, PlainMessage}
use quiteline.Messages.Display.{sent_at}
use quiteline.View.Markdown.{Node, link, text, strong, br, parse_inline_markdown}
use quiteline.View.Lossless.{parse_inline_markdown-sources, sources}
use quiteline.View.Links.{IsSafe, parse_inline_markdown-IsSafe}
use quiteline.View.Scroll.{Viewport, Scroll, Shown, incoming_count, messages_changed}
use quiteline.View.History.{ViewEvent, scrolled, loaded, laid_out, handle_load_more_messages, run}
use quiteline.View.Loads.{IsSpaced, run-IsSpaced}
use quiteline.View.Place.{handle_load_more_messages-run}
use quiteline.View.Appended.{messages_changed-unread}
use quiteline.View.Jump.{Jump, try_scroll, IsFirst, try_scroll-ends}
use quiteline.View.Dividers.{Calendar, Divider, MessageMeta, build_message_meta}
use quiteline.View.Divided.{IsLabel, HasDivided, build_message_meta-HasDivided}
use quiteline.Examples.Data.{room}

-- A link, bold text and a line end.
abbrev note : Str
note = codes "see https://a.b/c and **this**" ++ 10 ∷ codes "now"

parse_inline_markdown-sources_example :
    (nodes : List Node) × (parse_inline_markdown note ≡ some nodes) × (sources nodes ≡ note)
parse_inline_markdown-sources_example = parse_inline_markdown-sources note

abbrev note_nodes : List Node
note_nodes =
    text (codes "see ")
    ∷ link (codes "https://a.b/c")
    ∷ text (codes " and ")
    ∷ strong (codes "this")
    ∷ text []
    ∷ br
    ∷ text (codes "now")
    ∷ []

parse_inline_markdown-IsSafe_example : All IsSafe note_nodes
unfolding parse_inline_markdown
parse_inline_markdown-IsSafe_example = parse_inline_markdown-IsSafe note note_nodes refl

abbrev body : Str → PlainMessage
body at = record {
  text = codes "hi";
  sender_name = codes "Bob";
  sender_avatar_url = none;
  sent_at = at;
  reply_to = none;
  system = none;
  attachment = none;
}

abbrev message : Str → Str → DecryptedMessage
message id at = record {
  id = id;
  room_id = room;
  sender_id = codes "bob";
  body = some (body at);
  created_at = at;
  edited_at = none;
  deleted_at = none;
  read_by = none;
  read_receipts = none;
  read = none;
  reactions = none;
  status = none;
  has_failed = none;
}

abbrev list : List DecryptedMessage → Shown
list ms = record {
  active_room = room;
  highlighted = [];
  me = codes "alice";
  visible = ms;
  has_more = true;
  is_loading_more = false;
}

-- A list that shows one message, and has been scrolled up.
abbrev resting : Scroll
resting = record {
  unread_count = 0;
  show_scroll_btn = true;
  new_message_ids = [];
  is_near_bottom = false;
  previous_message_ids = codes "m1" ∷ [];
  initialized_room = room;
  loading_history = false;
  history_pagination_enabled = true;
  snapshot = none;
  pagination_armed = true;
  last_scroll_top = pos 300;
  suppress_pagination_until = 0;
  last_history_load_at = 0;
  animated_sent_ats = [];
  bottom_timers = [];
  new_msg_timers = [];
  loads = [];
}

abbrev element : Viewport
element = record { scroll_height = 2000; scroll_top = pos 100; client_height = 500 }

abbrev one : Shown
one = list (message (codes "m1") (codes "t1") ∷ [])

-- Two scrolls to the top, a failed load between them.
abbrev happening : List (Shown × ViewEvent)
happening =
    (one, scrolled 1000 (pos 100) element)
    ∷ (one, loaded)
    ∷ (one, laid_out 1200 (some element))
    ∷ (one, scrolled 3000 (pos 300) element)
    ∷ (one, scrolled 3100 (pos 50) element)
    ∷ []

run-IsSpaced_example : IsSpaced (run happening resting).loads
run-IsSpaced_example = run-IsSpaced happening resting refl

handle_load_more_messages-run_example :
    (run happening (handle_load_more_messages one 1000 (some element) resting)).loads ≡ 1000 ∷ []
handle_load_more_messages-run_example =
    handle_load_more_messages-run one 1000 element resting happening refl refl refl (omega arith) (
      (omega arith, refl),
      (
        (omega arith, refl),
        ((omega arith, refl), ((omega arith, refl), ((omega arith, refl), tt))),
      ),
    )

abbrev three : Shown
three = list (
    message (codes "m0") (codes "t0")
    ∷ message (codes "m1") (codes "t1")
    ∷ message (codes "m2") (codes "t2")
    ∷ [])

messages_changed-unread_example :
    ((messages_changed three resting).unread_count ≡ 1)
    × ((messages_changed three resting).previous_message_ids
        ≡ codes "m0" ∷ codes "m1" ∷ codes "m2" ∷ [])
unfolding incoming_count str_eq
messages_changed-unread_example =
    messages_changed-unread three (message (codes "m0") (codes "t0") ∷ [])
      (message (codes "m1") (codes "t1")) (message (codes "m2") (codes "t2") ∷ []) resting refl refl
      refl refl (refl, tt) (refl, tt)

abbrev there_at_third : ℕ → Bool
there_at_third n = if ltb n 2 then false else true

try_scroll-ends_example :
    (e : Jump) × (try_scroll 21 there_at_third 0 ≡ some e) × IsFirst there_at_third 0 e
try_scroll-ends_example = try_scroll-ends there_at_third

-- A calendar on which a date's first code unit is its day.
abbrev calendar : Calendar
calendar = record {
  day_of = λ s. elim s [ [] ↦ none | c ∷ cs ↦ some (record { year = 2026; month = 1; date = c }) ];
  this_day = record { year = 2026; month = 1; date = 9 };
  day_before = record { year = 2026; month = 1; date = 8 };
}

build_message_meta-HasDivided_example :
    let m0 = message (codes "m0") (codes "t0") in
    let m1 = message (codes "m1") (codes "t1") in
    let m2 = message (codes "m2") (codes "t2") in
    (map (λ x. x.msg) (build_message_meta calendar true three.visible) ≡ three.visible)
    × HasDivided calendar 2 m1 m2 (build_message_meta calendar true (m0 ∷ m1 ∷ m2 ∷ []))
    × ((x : Divider) × (metas : List MessageMeta) × IsLabel calendar m0.created_at x
        × (build_message_meta calendar true (m0 ∷ three.visible)
            ≡ record { msg = m0; date_divider = none } ∷ metas))
build_message_meta-HasDivided_example =
    build_message_meta-HasDivided calendar true (message (codes "m0") (codes "t0") ∷ [])
      (message (codes "m1") (codes "t1")) (message (codes "m2") (codes "t2"))
      (message (codes "m0") (codes "t0")) [] three.visible
