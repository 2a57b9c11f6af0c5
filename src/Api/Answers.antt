-- ===== src/Api/Answers.antt =====
-- When a method of the client gives a result.
use open_agent_lock.Api.{
  Arrival, Endpoint, Request, Response, arrived, invoke, read_arrival, rejected, request, result_of,
}
use open_agent_lock.Common.{
  Bool, Bool-cases, Json, Option, Result, Text, arith, err, false, inl, inr, null, ok, refl, subst,
  true, ◌≡◌, ◌↔◌, ◌⊎◌,
}

-- The answer comes with a status that the method takes, and its body is the result; a method that
-- has none gives `undefined`, here `null`, whatever the body.
abbrev pub Reads : Endpoint → Json → Response → Type 0
Reads e v r = ((e.has_result ≡ true) × (r.json ≡ ok v)) ⊎ ((e.has_result ≡ false) × (v ≡ null))

abbrev pub Gives : Endpoint → Arrival → Json → Type 0
Gives e a v = (r : Response) × (a ≡ arrived r) × (e.accepts r.status ≡ true) × Reads e v r

result_of_iff :
    (b : Bool) (body : Result Text Json) (v : Json)
    → (result_of b body ≡ ok v) ↔ (((b ≡ true) × (body ≡ ok v)) ⊎ ((b ≡ false) × (v ≡ null)))
result_of_iff false body v = ground arith
result_of_iff true (ok w) v = ground arith
result_of_iff true (err m) v = ground arith

read_arrival_iff : (e : Endpoint) (a : Arrival) (v : Json) → (read_arrival e a ≡ ok v) ↔ Gives e a v
unfolding read_arrival
read_arrival_iff e (rejected m) v = ((λ h. absurd (cc h)), (λ (r, same, _, _). absurd (cc same)))
read_arrival_iff e (arrived r) v = elim (Bool-cases (e.accepts r.status)) [
  | inl t ↦ (
    (λ h. (r, refl, t, (result_of_iff e.has_result r.json v).0 (rw t at h))),
    (λ (x, same, _, given).
        let same_response : x ≡ r = cc same in
        rw t ((result_of_iff e.has_result r.json v).1 (subst (Reads e v) same_response given))),
  )
  | inr n ↦ (
    (λ h. absurd (cc (rw n at h))),
    (λ (x, same, taken, _).
        let same_response : x ≡ r = cc same in
        let now : e.accepts r.status ≡ true =
          subst (λ y. e.accepts y.status ≡ true) same_response taken in
        absurd (ground (arith, n, now))),
  )
]

-- A method gives a value exactly if the request arrived, the answer has a status that the method
-- takes, and its body is that value; a method without a result gives nothing then.
pub invoke-ok_iff :
    (url : Text) (token : Option Json) (fetch : Request → Arrival) (e : Endpoint) (v : Json)
    → (invoke url token fetch e ≡ ok v) ↔ Gives e (fetch (request url token e)) v
unfolding invoke
invoke-ok_iff url token fetch e v = read_arrival_iff e (fetch (request url token e)) v
