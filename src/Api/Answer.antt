-- ===== src/Api/Answer.antt =====
-- What the client makes of an answer. (frontend/src/lib/api.ts)
use quiteline.Base.{
  Bool, false, ◌&&◌, List, [], Option, none, some, ℕ, Str, leb, ◌==◌, if◌then◌else◌, codes, get_or,
  String,
}
use quiteline.Wire.{EncryptedMessage, Page, Reply, ok, auth_error, error}

-- The answer to `fetch`. Of an answer that is not ok, `res.json()` is none if it is rejected, and
-- else an object with or without an error text; of one that is ok, it is a value of the type that
-- the caller names, or a rejection with its message.
pub record Response {ℓ} (A : Type ℓ) : Type ℓ where
  pub status : ℕ
  pub problem : Option (Option Str)
  pub value : Reply A

-- `res.ok`.
abbrev pub is_ok : ℕ → Bool
is_ok status = leb 200 status && leb status 299

abbrev pub problem_text : String → Option (Option Str) → Str
problem_text fallback none = codes "unknown_error"
problem_text fallback (some e) = get_or e (codes fallback)

-- What the functions throw of an answer that is not ok.
abbrev pub thrown {ℓ} : {A : Type ℓ} → String → ℕ → Option (Option Str) → Reply A
thrown fallback status problem =
    if status == 401 then auth_error else error (problem_text fallback problem)

unfoldable pub read_json {ℓ} : {A : Type ℓ} → Response A → Reply A
read_json res =
    if is_ok res.status then res.value else thrown "request_failed" res.status res.problem

-- The functions that return nothing differ in the text they fall back to.
unfoldable pub expect_ok {ℓ} : {A : Type ℓ} → String → Response A → Reply {0} Unit
expect_ok fallback res = if is_ok res.status then ok tt else thrown fallback res.status res.problem

-- A page as the server sends it.
pub record RawPage : Type 0 where
  pub messages : Option (List EncryptedMessage)
  pub has_more : Option Bool

abbrev pub page_of : Reply RawPage → Reply Page
page_of (ok p) = ok (record { messages = get_or p.messages []; has_more = get_or p.has_more false })
page_of auth_error = auth_error
page_of (error e) = error e

-- What `fetchMessages` and `fetchMessageContext` make of the answer.
unfoldable pub read_page : Response RawPage → Reply Page
unfolding read_json
read_page res = page_of (read_json res)
