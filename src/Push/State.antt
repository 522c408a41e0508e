-- ===== src/Push/State.antt =====
-- The state of the settings for notifications, and the browser that they are for.
-- (frontend/src/components/layout/Sidebar.tsx)
use quiteline.Base.{Bool, List, [], ◌∷◌, ◌++◌, Option, ℕ, ◌-◌, ◌%◌, Str, length, replicate}
use quiteline.Codec.Base64.{atob, replace_all}
use quiteline.Api.Devices.{PushPreferences}

pub record PushInfo : Type 0 where
  pub enabled : Bool
  pub public_key : Str

pub record PushSubscription : Type 0 where
  pub id : Str
  pub preferences : PushPreferences

-- What a browser's subscription is for the server: its endpoint and its two keys.
pub record BrowserSubscription : Type 0 where
  pub endpoint : Option Str
  pub p256dh : Option Str
  pub auth : Option Str

-- The texts that are shown; an error's text is the error's.
pub data Feedback : Type 0 where
  not_configured unsupported only_from_home_screen enabled_now disabled_now : Feedback
  browser_cannot_register push_service_rejects : Feedback
  failed : Str → Feedback

-- The texts of the errors that the code throws, and what it makes of an error of the browser's push
-- service.
pub data PushFailure : Type 0 where
  denied no_push_manager invalid_key : PushFailure
  -- An error of the browser: its name and its message.
  browser_error : Str → Str → PushFailure

pub data PushDeed : Type 0 where
  ask_permission register_worker unsubscribe subscribe wait_900 : PushDeed
  save : BrowserSubscription → PushPreferences → PushDeed
  delete update : Str → PushDeed

pub record Push : Type 0 where
  pub info : Option PushInfo
  pub subscriptions : List PushSubscription
  pub prefs : PushPreferences
  pub loading : Bool
  pub feedback : Option Feedback
  pub deeds : List PushDeed

pub data Result (A : Type 0) : Type 0 where
  done : A → Result A
  raised : PushFailure → Result A

-- What the browser and the server answer, in the order in which they may be asked.
pub record World : Type 0 where
  pub has_service_worker : Bool
  pub has_notification : Bool
  pub looks_like_ios : Bool
  pub is_ios_standalone : Bool
  -- Whether the permission is granted, or what asking for it throws.
  pub permission : Result Bool
  pub registered : Result Unit
  pub has_push_manager : Bool
  -- Whether there is a subscription before the first attempt, and before the second.
  pub existing : Result Bool
  pub unsubscribed : Result Unit
  pub first_subscribe : Result BrowserSubscription
  pub existing_again : Result Bool
  pub unsubscribed_again : Result Unit
  pub second_subscribe : Result BrowserSubscription
  pub saved : Result PushSubscription
  -- The message of the error that `atob` throws.
  pub atob_message : Str

-- `urlBase64ToUint8Array`: none is the error that `atob` throws.
unfoldable pub url_base64_to_uint8_array : Str → Option (List ℕ)
unfolding atob replace_all
url_base64_to_uint8_array value =
    let padding = replicate ((4 - length value % 4) % 4) b'=' in
    atob (replace_all b'_' b'/' (replace_all b'-' b'+' (value ++ padding)))

abbrev pub do_push : PushDeed → Push → Push
do_push d p = record p { deeds = p.deeds ++ d ∷ [] }
