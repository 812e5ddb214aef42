-- ===== src/ApiToken/Tests.antt =====
-- The throttler and the reading of headers on concrete requests.
use better_pingvin_share.Prelude.{
  true, none, some, List, [], ◌∷◌, ◌≡◌, refl, arith, ltb, length, if◌then◌else◌,
}
use better_pingvin_share.Http.{done, throw, too_many_requests}
use better_pingvin_share.ApiToken.{
  ApiRequest, ApiRateLimitPolicy, throttle, build_identifier, parse_api_token,
}
use better_pingvin_share.ApiToken.Throttle.{
  Arrival, requests_after, let_through, recent, throttle_lem,
}

-- Two requests in a second
abbrev two_a_second : ApiRateLimitPolicy
two_a_second = record { name = "resource"; limit = 2; ttl_seconds = 1 }

abbrev get : ApiRequest
get = record { method = "GET"; authorization = none; forwarded_for = none; ip = some "10.0.0.1" }

abbrev arrivals : List Arrival
arrivals = record { time = 5400; request = get } ∷ record { time = 5000; request = get } ∷ []

third_refused :
    (throttle (some two_a_second) 5900 get (requests_after two_a_second arrivals)).0
    ≡ throw (too_many_requests "Too many requests")
unfolding throttle requests_after build_identifier parse_api_token
third_refused = refl

throttle_lem_example :
    (throttle (some two_a_second) 5900 get (requests_after two_a_second arrivals)).0 ≡ (
      if ltb
        (length (
          recent two_a_second 5900
            (let_through two_a_second arrivals (build_identifier get two_a_second.name))))
        two_a_second.limit
      then done true
      else throw (too_many_requests "Too many requests"))
throttle_lem_example =
    throttle_lem two_a_second arrivals 5900 get (omega arith, (omega arith, tt)) refl
