-- ===== src/Requests/Answers.antt =====
-- How a request ends, by the response.
use tstlan_web.Base.{
  ℕ, ◌≤◌, ◌<◌, ◌≡◌, ◌⊎◌, ltb, ltb→lt, some_eq, refl, ap, sym, ◌∙◌, ◌↔◌, inl, inr, true, false,
  Option, none, some, arith, Bool-cases, Option-cases,
}
use tstlan_web.Base.Text.{Str}
use tstlan_web.Api.{Cause, api_error, other, Result, success, failure}
use tstlan_web.Requests.{
  Response, Fetched, broken, answered, is_ok, read_detail, body_or_throw, request, request_void,
}

response_or : {J : Type 0} → Response J → Fetched J → Response J
response_or d broken = d
response_or d (answered r) = r

answered_eq : {J : Type 0} (r x : Response J) → answered r ≡ answered x → r ≡ x
unfolding response_or
answered_eq r x h = ap (response_or r) h

failure_eq : {A : Type 0} (c d : Cause) → ◌≡◌ {A = Result A} (failure c) (failure d) → c ≡ d
failure_eq c d h = cc

status_of : Cause → ℕ
status_of (api_error status detail) = status
status_of other = 0

detail_in : Cause → Option Str
detail_in (api_error status detail) = detail
detail_in other = none

module _ {J : Type 0} (detail_of : J → Option Str) where
  -- A request ends with a body exactly if there is a response with a status from 200 to 299 and that
  -- body in JSON.
  pub request-success_iff :
      (fetched : Fetched J) (body : J)
      → (request detail_of fetched ≡ success body) ↔ (
          (r : Response J) × (fetched ≡ answered r)
          × (200 ≤ r.status)
          × (r.status ≤ 299)
          × (r.json ≡ some body))
  unfolding request
  request-success_iff broken body = (λ h. absurd (cc), λ h. absurd (cc))
  request-success_iff (answered r) body = (
    λ h. elim (Bool-cases (is_ok r.status)) [
      | inl e ↦ elim (Option-cases r.json) [
        | inl n ↦
            let bad : ◌≡◌ {A = Result J} (failure other) (success body) = rw (e, n) at h in
            absurd (cc)
        | inr (found, j) ↦
            let same : ◌≡◌ {A = Result J} (success found) (success body) = rw (e, j) at h in
            (r, refl, ground arith, ground arith, j ∙ (cc))
      ]
      | inr e ↦
          let bad : ◌≡◌ {A = Result J} (failure (api_error r.status (read_detail detail_of r)))
              (success body) =
            rw e at h in
          absurd (cc)
    ],
    λ h.
        let (x, same, low, high, j) = h in
        let here = answered_eq r x same in
        let fine : is_ok x.status ≡ true = ground arith in rw (here, fine, j) refl,
  )

  -- The detail that a response tells: that of its body, or none if it has no body in JSON.
  abbrev pub HasDetail : Response J → Option Str → Type 0
  HasDetail r detail =
      ((r.json ≡ none) × (detail ≡ none))
      ⊎ ((body : J) × (r.json ≡ some body) × (detail ≡ detail_of body))

  read_detail_iff :
      (r : Response J) (detail : Option Str)
      → (read_detail detail_of r ≡ detail) ↔ HasDetail r detail
  unfolding read_detail
  read_detail_iff r detail = elim (Option-cases r.json) [
    | inl e ↦ rw e (
      λ h. inl (refl, sym h),
      λ h. elim h [ inl (_, d) ↦ sym d | inr (body, f, d) ↦ absurd (cc) ],
    )
    | inr (found, e) ↦ rw e (
      λ h. inr (found, refl, sym h),
      λ h. elim h [
        | inl (f, d) ↦ absurd (cc)
        | inr (body, f, d) ↦ ap detail_of (some_eq f) ∙ sym d
      ],
    )
  ]

  -- A request, with an answer or without one, throws an `ApiError` exactly if there is a response with
  -- a status outside of 200 to 299. The error has the status of the response, and the detail of its
  -- body if that is JSON, else none.
  pub request-api_error_iff :
      (fetched : Fetched J) (status : ℕ) (detail : Option Str)
      → ((request detail_of fetched ≡ failure (api_error status detail)) ↔ (
          (r : Response J) × (fetched ≡ answered r)
          × ((r.status < 200) ⊎ (299 < r.status))
          × (r.status ≡ status)
          × HasDetail r detail))
        × ((request_void detail_of fetched ≡ failure (api_error status detail))
            ↔ (request detail_of fetched ≡ failure (api_error status detail)))
  unfolding request request_void status_of detail_in
  request-api_error_iff broken status detail =
      ((λ h. absurd (cc), λ h. absurd (cc)), (λ h. absurd (cc), λ h. absurd (cc)))
  request-api_error_iff (answered r) status detail = elim (Bool-cases (is_ok r.status)) [
    | inl e ↦ rw e (
      (
        λ h. absurd (never r.json h),
        λ h.
            absurd
              (let (x, same, bad, n, d) = h in off (answered_eq r x same) e (refused x.status bad)),
      ),
      (λ h. absurd (cc), λ h. absurd (never r.json h)),
    )
    | inr e ↦ rw e (
      (
        λ h.
            let same = failure_eq _ _ h in
            (
              r,
              refl,
              outside r.status e,
              ap status_of same,
              (read_detail_iff r detail).0 (ap detail_in same),
            ),
        λ h.
            let (x, same, off_range, n, d) = h in
            let here = answered_eq r x same in
            ap failure (λ i.
              api_error ((ap (λ (q : Response J). q.status) here ∙ n) i)
                ((ap (read_detail detail_of) here ∙ (read_detail_iff x detail).1 d) i)),
      ),
      (λ h. ap failure (failure_eq _ _ h), λ h. ap failure (failure_eq _ _ h)),
    )
  ]
    where
      outside : (n : ℕ) → is_ok n ≡ false → (n < 200) ⊎ (299 < n)
      outside n h = elim (Bool-cases (ltb n 200)) [
        | inl e ↦ inl (ltb→lt n 200 e)
        | inr e ↦ inr (ground arith)
      ]

      refused : (n : ℕ) → (n < 200) ⊎ (299 < n) → is_ok n ≡ false
      refused n (inl h) = ground arith
      refused n (inr h) = ground arith

      off : {p q : Response J} → p ≡ q → is_ok p.status ≡ true → is_ok q.status ≡ false → ⊥
      off same a b =
          let bad : true ≡ false = sym a ∙ ap (λ (q : Response J). is_ok q.status) same ∙ b in cc

      never : (o : Option J) → body_or_throw detail_of o ≡ failure (api_error status detail) → ⊥
      never none h = cc
      never (some b) h = cc
