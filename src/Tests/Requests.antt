-- ===== src/Tests/Requests.antt =====
-- The theorems on requests, at concrete inputs.
use tstlan_web.Base.{ℕ, ◌<◌, ◌⊎◌, ◌≡◌, refl, ◌↔◌, [], ◌∷◌, ◌++◌, Option, none, some, arith, or_else}
use tstlan_web.Base.Text.{Str, codes}
use tstlan_web.Base.Number.Decimal.{decimal}
use tstlan_web.Api.{api_error, failure}
use tstlan_web.Base.Uri.{encode_uri_component}
use tstlan_web.Base.Uri.Decoding.{decode_uri_component}
use tstlan_web.Requests.{Method, Response, Fetched, answered, request, request_void, HttpRequest}
use tstlan_web.Requests.Calls.{Body, credentials, written_value, Call, write_value, request_of}
use tstlan_web.Requests.Answers.{HasDetail, request-api_error_iff}
use tstlan_web.Requests.Urls.{segments, write_value-segments}
use tstlan_web.Requests.Tokens.{IsSigned, request_of-IsSigned}

-- A print of the bodies that are sent.
stringify : Body ℕ → Str
stringify (credentials user_login password) = user_login ++ password
stringify (written_value n) = decimal n
stringify _ = []

-- The detail of a body that is a text.
detail_of : Str → Option Str
detail_of [] = none
detail_of (c ∷ s) = some (c ∷ s)

abbrev refused : Fetched Str
refused = answered (record { status = 403; json = some (codes "no") })

abbrev fine : Fetched Str
fine = answered (record { status = 200; json = some (codes "yes") })

request-api_error_iff_example :
    ((request detail_of refused ≡ failure (api_error 403 (some (codes "no")))) ↔ (
      (r : Response Str) × (refused ≡ answered r)
      × ((r.status < 200) ⊎ (299 < r.status))
      × (r.status ≡ 403)
      × HasDetail detail_of r (some (codes "no"))))
    × ((request_void detail_of refused ≡ failure (api_error 403 (some (codes "no"))))
        ↔ (request detail_of refused ≡ failure (api_error 403 (some (codes "no")))))
request-api_error_iff_example = request-api_error_iff detail_of refused 403 (some (codes "no"))

-- A write to a device and a variable whose names are not plain.
abbrev write_call : Call ℕ
write_call = write_value (codes "a/b") (codes "вес") 7 (codes "token")

abbrev write_request : HttpRequest
write_request =
    or_else (request_of stringify write_call)
      (record { url = []; init = record { method = Method.get; headers = []; body = none } })

write_is_built : request_of stringify write_call ≡ some write_request
unfolding request_of encode_uri_component
write_is_built = refl

write_value-segments_example :
    (req : HttpRequest) × (x : Str) × (y : Str) × (request_of stringify write_call ≡ some req)
    × (segments req.url ≡ [] ∷ codes "api" ∷ codes "devices" ∷ x ∷ codes "values" ∷ y ∷ [])
    × (decode_uri_component x ≡ codes "a/b")
    × (decode_uri_component y ≡ codes "вес")
write_value-segments_example =
    write_value-segments stringify (codes "a/b") (codes "вес") 7 (codes "token")
      (omega arith, (omega arith, (omega arith, tt)))
      (omega arith, (omega arith, (omega arith, tt))) refl refl

request_of-IsSigned_example : IsSigned write_call write_request
request_of-IsSigned_example = request_of-IsSigned stringify write_call write_request write_is_built
