-- ===== src/Push/Key.antt =====
-- The server's key, as the browser wants it. (frontend/src/components/layout/Sidebar.tsx,
-- frontend/src/lib/crypto.ts)
use quiteline.Base.{
  ◌≡◌, refl, ap, ◌∙◌, false, [], ◌∷◌, ◌++◌, ℕ, zero, suc, ◌-◌, ◌%◌, Str, ◌==◌, length, replicate,
  arith,
}
use quiteline.Codec.Base64.{base64_url_to_bytes, atob, replace_all, replaced, missing}
use quiteline.Push.State.{url_base64_to_uint8_array}

padding-missing : (n : ℕ) → (4 - n % 4) % 4 ≡ missing n
unfolding missing
padding-missing n = omega arith

replace_all-pads :
    (a b : ℕ) (s : Str) (n : ℕ)
    → (b'=' == a) ≡ false
    → replace_all a b (s ++ replicate n b'=') ≡ replace_all a b s ++ replicate n b'='
unfolding replace_all
replace_all-pads a b [] zero e = refl
replace_all-pads a b [] (suc n) e = rw e (ap (λ (t : Str). b'=' ∷ t) (replace_all-pads a b [] n e))
replace_all-pads a b (c ∷ s) n e = ap (λ (t : Str). replaced a b c ∷ t) (replace_all-pads a b s n e)

-- The two readers of such texts, the one for keys and the one for ciphertexts, read the same.
pub url_base64_to_uint8_array-base64_url_to_bytes :
    (s : Str) → url_base64_to_uint8_array s ≡ base64_url_to_bytes s
unfolding url_base64_to_uint8_array base64_url_to_bytes
url_base64_to_uint8_array-base64_url_to_bytes s =
    let n = missing (length s) in
    rw (padding-missing (length s)) (
      ap (λ (t : Str). atob (replace_all b'_' b'/' t)) (replace_all-pads b'-' b'+' s n refl)
      ∙ ap atob (replace_all-pads b'_' b'/' (replace_all b'-' b'+' s) n refl))
