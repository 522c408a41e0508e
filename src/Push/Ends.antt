-- ===== src/Push/Ends.antt =====
-- How turning notifications on ends. (frontend/src/components/layout/Sidebar.tsx)
use quiteline.Base.{
  ◌≡◌, ◌≢◌, refl, ◌∙◌, Bool, true, false, not, ◌&&◌, ◌||◌, List, [], ◌∷◌, ◌++◌, Option, none, some,
  ℕ, ◌+◌, ◌≤◌, Str, truthy, ◌==◌, if◌then◌else◌, Option-cases, inl, inr, arith, ◌⊎◌, length, suc,
  codes,
}
use quiteline.Api.Devices.{PushPreferences}
use quiteline.Push.State.{
  PushSubscription, BrowserSubscription, Feedback, enabled_now, PushFailure, PushDeed, invalid_key,
  browser_error, denied, ask_permission, register_worker, unsubscribe, subscribe, wait_900, save,
  delete, update, Push, Result, done, raised, World, url_base64_to_uint8_array, do_push,
  no_push_manager, not_configured, unsupported, only_from_home_screen,
}
use quiteline.Push.Enable.{
  Act, after, perform, look, ensure, unsubscribe_if, decoded_key, try_again, first_error,
  after_first, subscribe_to_push_with_retry, enable_steps, enabled_with, enable_push_notifications,
}

-- How often the browser has been asked to subscribe.
abbrev pub subscribes : List PushDeed → ℕ
subscribes [] = 0
subscribes (subscribe ∷ ds) = suc (subscribes ds)
subscribes (ask_permission ∷ ds) = subscribes ds
subscribes (register_worker ∷ ds) = subscribes ds
subscribes (unsubscribe ∷ ds) = subscribes ds
subscribes (wait_900 ∷ ds) = subscribes ds
subscribes (save b p ∷ ds) = subscribes ds
subscribes (delete i ∷ ds) = subscribes ds
subscribes (update i ∷ ds) = subscribes ds

subscribes-append : (xs ys : List PushDeed) → subscribes (xs ++ ys) ≡ subscribes xs + subscribes ys
subscribes-append [] ys = omega arith
subscribes-append (subscribe ∷ xs) ys = omega (arith, subscribes-append xs ys)
subscribes-append (ask_permission ∷ xs) ys = subscribes-append xs ys
subscribes-append (register_worker ∷ xs) ys = subscribes-append xs ys
subscribes-append (unsubscribe ∷ xs) ys = subscribes-append xs ys
subscribes-append (wait_900 ∷ xs) ys = subscribes-append xs ys
subscribes-append (save b p ∷ xs) ys = subscribes-append xs ys
subscribes-append (delete i ∷ xs) ys = subscribes-append xs ys
subscribes-append (update i ∷ xs) ys = subscribes-append xs ys

-- A step keeps everything but what is done, and asks to subscribe so often at most.
record Keeps {A : Type 0} (n : ℕ) (p : Push) (r : Result A × Push) : Type 0 where
  same_subscriptions : r.1.subscriptions ≡ p.subscriptions
  same_prefs : r.1.prefs ≡ p.prefs
  at_most : subscribes r.1.deeds ≤ subscribes p.deeds + n

module _ {A B : Type 0} where
  after-Keeps :
      (n k : ℕ) (p : Push) (r : Result A × Push) (f : A → Act B)
      → Keeps n p r
      → ((a : A) (q : Push) → Keeps k q (f a q))
      → Keeps (n + k) p (after r.0 f r.1)
  after-Keeps n k p (done a, q) f h g =
      let m = g a q in
      record {
        same_subscriptions = m.same_subscriptions ∙ h.same_subscriptions;
        same_prefs = m.same_prefs ∙ h.same_prefs;
        at_most = omega (arith, m.at_most, h.at_most);
      }
  after-Keeps n k p (raised e, q) f h g = record {
    same_subscriptions = h.same_subscriptions;
    same_prefs = h.same_prefs;
    at_most = omega (arith, h.at_most);
  }

pure_Keeps : {A : Type 0} (r : Result A) (p : Push) → Keeps {A = A} 0 p (r, p)
pure_Keeps r p = record { same_subscriptions = refl; same_prefs = refl; at_most = omega arith }

perform-Keeps :
    {A : Type 0} (d : PushDeed) (r : Result A) (p : Push)
    → Keeps {A = A} (subscribes (d ∷ [])) p (perform d r p)
perform-Keeps d r p = record {
  same_subscriptions = refl;
  same_prefs = refl;
  at_most = omega (arith, subscribes-append p.deeds (d ∷ []));
}

ensure-Keeps : (b : Bool) (e : PushFailure) (p : Push) → Keeps 0 p (ensure b e p)
ensure-Keeps true e p = pure_Keeps (done tt) p
ensure-Keeps false e p = pure_Keeps (raised e) p

unsubscribe_if-Keeps : (b : Bool) (r : Result Unit) (p : Push) → Keeps 0 p (unsubscribe_if b r p)
unsubscribe_if-Keeps true r p = perform-Keeps unsubscribe r p
unsubscribe_if-Keeps false r p = pure_Keeps (done tt) p

decoded_key-Keeps : (m : Str) (o : Option (List ℕ)) (p : Push) → Keeps 0 p (decoded_key m o p)
decoded_key-Keeps m none p = pure_Keeps (raised (browser_error (codes "InvalidCharacterError") m)) p
decoded_key-Keeps m (some key) p = pure_Keeps (done key) p

try_again-Keeps : (w : World) (p : Push) → Keeps 1 p (try_again w p)
unfolding try_again
try_again-Keeps w p =
    after-Keeps 0 1 p (look w.existing_again p) _ (pure_Keeps w.existing_again p) (λ had q.
      after-Keeps 0 1 q (unsubscribe_if had w.unsubscribed_again q) _
        (unsubscribe_if-Keeps had w.unsubscribed_again q)
        (λ gone s. perform-Keeps subscribe w.second_subscribe s))

first_error-Keeps :
    {A : Type 0} (n : ℕ) (e : PushFailure) (p : Push) (r : Result A × Push)
    → Keeps n p r
    → Keeps n p (first_error e r)
first_error-Keeps n e p (done a, q) h = h
first_error-Keeps n e p (raised f, q) h = record {
  same_subscriptions = h.same_subscriptions;
  same_prefs = h.same_prefs;
  at_most = h.at_most;
}

after_first-Keeps :
    (w : World) (r : Result BrowserSubscription) (p : Push) → Keeps 1 p (after_first w r p)
unfolding after_first
after_first-Keeps w (done b) p = record {
  same_subscriptions = refl;
  same_prefs = refl;
  at_most = omega arith;
}
after_first-Keeps w (raised e) p =
    let waited = do_push wait_900 p in
    let again = try_again-Keeps w waited in
    first_error-Keeps 1 e p (try_again w waited) (record {
      same_subscriptions = again.same_subscriptions;
      same_prefs = again.same_prefs;
      at_most = omega (arith, again.at_most, subscribes-append p.deeds (wait_900 ∷ []));
    })

subscribe_to_push_with_retry-Keeps :
    (w : World) (p : Push) → Keeps 2 p (subscribe_to_push_with_retry w p)
unfolding subscribe_to_push_with_retry
subscribe_to_push_with_retry-Keeps w p =
    let rest = after_first-Keeps w w.first_subscribe (do_push subscribe p) in
    record {
      same_subscriptions = rest.same_subscriptions;
      same_prefs = rest.same_prefs;
      at_most = omega (arith, rest.at_most, subscribes-append p.deeds (subscribe ∷ []));
    }

enable_steps-Keeps :
    (w : World) (key : Str) (prefs : PushPreferences) (p : Push)
    → Keeps 2 p (enable_steps w key prefs p)
unfolding enable_steps
enable_steps-Keeps w key prefs p =
    after-Keeps 0 2 p _ _ (perform-Keeps ask_permission w.permission p) (λ granted a.
      after-Keeps 0 2 a _ _ (ensure-Keeps granted denied a) (λ _ b.
        after-Keeps 0 2 b _ _ (perform-Keeps register_worker w.registered b) (λ _ c.
          after-Keeps 0 2 c _ _ (ensure-Keeps w.has_push_manager no_push_manager c) (λ _ d.
            after-Keeps 0 2 d _ _
              (decoded_key-Keeps w.atob_message (url_base64_to_uint8_array key) d)
              (λ bytes e.
                after-Keeps 0 2 e _ _ (ensure-Keeps (length bytes == 65) invalid_key e) (λ _ f.
                  after-Keeps 0 2 f _ _ (pure_Keeps w.existing f) (λ had g.
                    after-Keeps 0 2 g _ _ (unsubscribe_if-Keeps had w.unsubscribed g) (λ _ h.
                      after-Keeps 2 0 h _ _ (subscribe_to_push_with_retry-Keeps w h)
                        (λ sub i. perform-Keeps (save sub prefs) w.saved i)))))))))

-- How the settings stand after notifications have been turned on, or have not.
abbrev pub Ended : Push → Push → Type 0
Ended p q =
    (q.loading ≡ false)
    × (q.feedback ≢ none)
    × (subscribes q.deeds ≤ subscribes p.deeds + 2)
    × ((q.feedback ≡ some enabled_now) ⊎ (q.subscriptions ≡ p.subscriptions) × (q.prefs ≡ p.prefs))

enabled_with-Ended :
    (p : Push) (r : Result PushSubscription × Push) → Keeps 2 p r → Ended p (enabled_with r)
unfolding enabled_with
enabled_with-Ended p (done s, q) h = (refl, (λ e. cc), h.at_most, inl refl)
enabled_with-Ended p (raised e, q) h =
    (refl, (λ e. cc), h.at_most, inr (h.same_subscriptions, h.same_prefs))

-- A text that tells why nothing is done.
Ended-refused :
    (p : Push) (f : Feedback) → p.loading ≡ false → Ended p (record p { feedback = some f })
Ended-refused p f l = (l, (λ e. cc), omega arith, inr (refl, refl))

Ended-guarded :
    (p q : Push) (a b c : Bool)
    → p.loading ≡ false
    → Ended p q
    → Ended p (
        if a
        then record p { feedback = some not_configured }
        else if b
        then record p { feedback = some unsupported }
        else if c
        then record p { feedback = some only_from_home_screen }
        else q)
Ended-guarded p q true b c l h = Ended-refused p not_configured l
Ended-guarded p q false true c l h = Ended-refused p unsupported l
Ended-guarded p q false false true l h = Ended-refused p only_from_home_screen l
Ended-guarded p q false false false l h = h

-- Turning notifications on ends, whatever the browser and the server answer: nothing loads any more,
-- a text is shown, the browser has been asked to subscribe twice at most, and if the text is not that
-- they are on then the subscriptions and the preferences are as before.
pub enable_push_notifications-Ended :
    (w : World) (p : Push) → p.loading ≡ false → Ended p (enable_push_notifications w p)
unfolding enable_push_notifications
enable_push_notifications-Ended w p l = elim (Option-cases p.info) [
  | inl n ↦ rw (n, enable_push_notifications) (Ended-refused p not_configured l)
  | inr (info, n) ↦
      let start = record p { loading = true } in
      let steps = enable_steps-Keeps w info.public_key p.prefs start in
      let ended = enabled_with-Ended p (enable_steps w info.public_key p.prefs start) (record {
        same_subscriptions = steps.same_subscriptions;
        same_prefs = steps.same_prefs;
        at_most = steps.at_most;
      }) in
      rw (n, enable_push_notifications)
        (Ended-guarded p (enabled_with (enable_steps w info.public_key p.prefs start))
          (not info.enabled || not (truthy info.public_key))
          (not w.has_service_worker || not w.has_notification)
          (w.looks_like_ios && not w.is_ios_standalone) l ended)
]
