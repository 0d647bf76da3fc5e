-- ===== src/Requests/Urls.antt =====
-- The segments of the addresses of the calls.
use tstlan_web.Base.{
  ℕ, ◌<◌, ◌≡◌, refl, ap, ◌∙◌, false, List, [], ◌∷◌, ◌++◌, append-nil, append_assoc, some, arith,
  ◌==◌, if◌then◌else◌, All,
}
use tstlan_web.Base.Text.{Str, codes}
use tstlan_web.Base.Number.Decimal.{
  decimal, is_digit, decimal_lem, IsDigits, IsDigits-of_all_digits,
}
use tstlan_web.Base.Uri.{is_unreserved, encode_uri_component}
use tstlan_web.Base.Uri.Decoding.{decode_uri_component, decode-encode}
use tstlan_web.Base.Uri.Encoded.{IsSegment, encode-IsSegment, IsPaired, encode-some}
use tstlan_web.Requests.{HttpRequest, http_request}
use tstlan_web.Requests.Calls.{
  Body, Call, around, device_path, config_path, value_path, path_of, init_of, request_of,
  write_value, unshare_config,
}

abbrev onto_first : ℕ → List Str → List Str
onto_first c [] = (c ∷ []) ∷ []
onto_first c (x ∷ xs) = (c ∷ x) ∷ xs

-- The segments of a path, which slashes part.
unfoldable pub segments : Str → List Str
segments [] = [] ∷ []
segments (c ∷ s) = if c == 47 then [] ∷ segments s else onto_first c (segments s)

segments-last : (x : Str) → All (λ c. (c == 47) ≡ false) x → segments x ≡ x ∷ []
unfolding segments
segments-last [] h = refl
segments-last (c ∷ x) (plain, h) = rw (plain, segments-last x h) refl

segments-slash :
    (x s : Str) → All (λ c. (c == 47) ≡ false) x → segments (x ++ 47 ∷ s) ≡ x ∷ segments s
unfolding segments
segments-slash [] s h = refl
segments-slash (c ∷ x) s (plain, h) = rw (plain, segments-slash x s h) refl

plain_segment : (x : Str) → IsSegment x → All (λ c. (c == 47) ≡ false) x
unfolding is_unreserved
plain_segment [] h = tt
plain_segment (c ∷ x) (u, h) = (ground arith, plain_segment x h)

-- Between its ends `around` puts the encoding of a text of UTF-16.
around-encoded :
    (before s end : Str)
    → All (λ c. c < 0x10000) s
    → IsPaired s
    → (x : Str) × (around before (encode_uri_component s) end ≡ some (before ++ x ++ end))
      × (decode_uri_component x ≡ s)
      × All (λ c. (c == 47) ≡ false) x
around-encoded before s end a h =
    let (x, e) = encode-some s h in
    (x, rw e refl, decode-encode s a e, plain_segment x (encode-IsSegment s a e))

write_url-segments :
    (x y : Str)
    → All (λ c. (c == 47) ≡ false) x
    → All (λ c. (c == 47) ≡ false) y
    → segments (codes "/api" ++ (codes "/devices/" ++ x ++ codes "/values/") ++ y ++ [])
      ≡ [] ∷ codes "api" ∷ codes "devices" ∷ x ∷ codes "values" ∷ y ∷ []
unfolding segments
write_url-segments x y a b =
    ap (λ s. [] ∷ codes "api" ∷ codes "devices" ∷ segments s)
      (append-nil ((x ++ codes "/values/") ++ y) ∙ append_assoc x (codes "/values/") y)
    ∙ ap (λ s. [] ∷ codes "api" ∷ codes "devices" ∷ s)
        (segments-slash x (codes "values/" ++ y) a
          ∙ ap (λ s. x ∷ codes "values" ∷ s) (segments-last y b))

share_url-segments :
    (n x : Str)
    → All (λ c. (c == 47) ≡ false) n
    → All (λ c. (c == 47) ≡ false) x
    → segments (codes "/api" ++ (codes "/configs/" ++ n ++ codes "/shares/") ++ x ++ [])
      ≡ [] ∷ codes "api" ∷ codes "configs" ∷ n ∷ codes "shares" ∷ x ∷ []
unfolding segments
share_url-segments n x a b =
    ap (λ s. [] ∷ codes "api" ∷ codes "configs" ∷ segments s)
      (append-nil ((n ++ codes "/shares/") ++ x) ∙ append_assoc n (codes "/shares/") x)
    ∙ ap (λ s. [] ∷ codes "api" ∷ codes "configs" ∷ s)
        (segments-slash n (codes "shares/" ++ x) a
          ∙ ap (λ s. n ∷ codes "shares" ∷ s) (segments-last x b))

digits_plain : (s : Str) → IsDigits s → All (λ c. (c == 47) ≡ false) s
unfolding is_digit
digits_plain [] h = tt
digits_plain (c ∷ s) (d, h) = (ground arith, digits_plain s h)

module _ {V : Type 0} (stringify : Body V → Str) where
  -- A call with an address is a request to it.
  url_of :
      (call : Call V) (path : Str)
      → path_of call ≡ some path
      → (req : HttpRequest) × (request_of stringify call ≡ some req)
        × (req.url ≡ codes "/api" ++ path)
  unfolding request_of http_request
  url_of call path e = (http_request path (init_of stringify call), rw e refl, refl)

  -- A write to a device and a variable whose ids are UTF-16 without lone surrogates is sent. Slashes
  -- part its address into the device and the variable, encoded, and the words around them, and both
  -- are decoded again.
  pub write_value-segments :
      (device_id name : Str) (v : V) (csrf_token : Str)
      → All (λ c. c < 0x10000) device_id
      → All (λ c. c < 0x10000) name
      → IsPaired device_id
      → IsPaired name
      → (req : HttpRequest) × (x : Str) × (y : Str) × (request_of stringify
            (write_value device_id name v csrf_token)
          ≡ some req)
        × (segments req.url ≡ [] ∷ codes "api" ∷ codes "devices" ∷ x ∷ codes "values" ∷ y ∷ [])
        × (decode_uri_component x ≡ device_id)
        × (decode_uri_component y ≡ name)
  unfolding path_of device_path
  write_value-segments device_id name v csrf_token a b h k =
      let (x, same_x, back_x, plain_x) =
        around-encoded (codes "/devices/") device_id (codes "/values/") a h in
      let before = codes "/devices/" ++ x ++ codes "/values/" in
      let (y, same_y, back_y, plain_y) = around-encoded before name [] b k in
      let path : path_of (write_value device_id name v csrf_token) ≡ some (before ++ y ++ []) =
        ap (λ o. value_path o name) same_x ∙ same_y in
      let (req, built, url) =
        url_of (write_value device_id name v csrf_token) (before ++ y ++ []) path in
      (req, x, y, built, ap segments url ∙ write_url-segments x y plain_x plain_y, back_x, back_y)

  -- The request that ends a share of a user whose login is UTF-16 without lone surrogates is sent, and
  -- its address has the login as its last segment, encoded, from which it is decoded again.
  pub unshare_config-segments :
      (id : ℕ) (user_login csrf_token : Str)
      → All (λ c. c < 0x10000) user_login
      → IsPaired user_login
      → (req : HttpRequest) × (x : Str) × (request_of stringify
            (unshare_config id user_login csrf_token)
          ≡ some req)
        × (segments req.url
            ≡ [] ∷ codes "api" ∷ codes "configs" ∷ decimal id ∷ codes "shares" ∷ x ∷ [])
        × (decode_uri_component x ≡ user_login)
  unfolding path_of config_path
  unshare_config-segments id user_login csrf_token a h =
      let (x, same, back, plain) =
        around-encoded (config_path id (codes "/shares/")) user_login [] a h in
      let (req, built, url) =
        url_of (unshare_config id user_login csrf_token)
          (config_path id (codes "/shares/") ++ x ++ []) same in
      (
        req,
        x,
        built,
        ap segments url
            ∙ share_url-segments (decimal id) x
                (digits_plain (decimal id) (IsDigits-of_all_digits (decimal id) (decimal_lem id).0))
                plain,
        back,
      )
