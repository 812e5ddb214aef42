-- ===== src/ApiToken/Throttle.antt =====
-- The throttler lets no identifier through more often than the policy's limit within its window.
use better_pingvin_share.Prelude.{
  ===-refl, ℕ, ◌*◌, ◌≤◌, String, Bool, true, false, some, List, [], ◌∷◌, ◌++◌, ltb, ◌===◌,
  if◌then◌else◌, length, length-append, length-keep, keep, ◌≡◌, refl, arith, Bool-cases, inl, inr,
  eq_iff,
}
use better_pingvin_share.Http.{Outcome, done, throw, too_many_requests}
use better_pingvin_share.ApiToken.{
  ApiRequest, ApiRateLimitPolicy, Requests, build_identifier, throttle, is_recent,
}

-- A request with the time of its arrival
pub record Arrival : Type 0 where
  pub time : ℕ
  pub request : ApiRequest

-- Are all arrivals at `t` or before, and each at or after those before it? The last stands first.
abbrev pub UntilTime : List Arrival → ℕ → Type 0
UntilTime [] t = Unit
UntilTime (a ∷ earlier) t = (a.time ≤ t) × UntilTime earlier a.time

module _ (p : ApiRateLimitPolicy) where
  abbrev pub recent : ℕ → List ℕ → List ℕ
  recent now = keep (is_recent (p.ttl_seconds * 1000) now)

  -- The throttler's memory after a run, from an empty one
  unfoldable pub requests_after : List Arrival → Requests
  requests_after [] = λ j. []
  requests_after (a ∷ earlier) = (throttle (some p) a.time a.request (requests_after earlier)).1

  -- The times of an identifier's requests that should be let through: those before which fewer than
  -- `limit` of them lie in the window. Nothing is forgotten here.
  unfoldable pub let_through : List Arrival → String → List ℕ
  let_through [] id = []
  let_through (a ∷ earlier) id =
      let before = let_through earlier id in
      if a.request.method === "OPTIONS"
      then before
      else if build_identifier a.request p.name === id
      then (if ltb (length (recent a.time before)) p.limit then before ++ (a.time ∷ []) else before)
      else before

  recent-append : (t : ℕ) (xs ys : List ℕ) → recent t (xs ++ ys) ≡ recent t xs ++ recent t ys
  recent-append t [] ys = refl
  recent-append t (x ∷ xs) ys = ground (arith, recent-append t xs ys)

  recent-recent : (now t : ℕ) (xs : List ℕ) → now ≤ t → recent t (recent now xs) ≡ recent t xs
  recent-recent now t [] h = refl
  recent-recent now t (x ∷ xs) h = ground (arith, recent-recent now t xs h)

  length-recent :
      (now t : ℕ) (xs : List ℕ) → now ≤ t → length (recent t xs) ≤ length (recent now xs)
  length-recent now t [] h = omega arith
  length-recent now t (x ∷ xs) h = ground (arith, length-recent now t xs h)

  UntilTime-later : (l : List Arrival) (now t : ℕ) → UntilTime l now → now ≤ t → UntilTime l t
  UntilTime-later [] now t u h = tt
  UntilTime-later (a ∷ earlier) now t (k, u) h = (omega (arith, k, h), u)

  -- A request that is let through, remembered
  recent-remember :
      (now t : ℕ) (xs : List ℕ)
      → now ≤ t
      → recent t (recent now xs ++ (now ∷ [])) ≡ recent t (xs ++ (now ∷ []))
  recent-remember now t xs h =
      rw
        (
          recent-append t (recent now xs) (now ∷ []),
          recent-append t xs (now ∷ []),
          recent-recent now t xs h,
        )
        refl

  -- The answer to a request that counts, and the memory after it
  abbrev answer : ℕ → String → Requests → Outcome Bool × Requests
  answer now id requests =
      if ltb (length (recent now (requests id))) p.limit
      then (done true, λ j. if id === j then recent now (requests id) ++ (now ∷ []) else requests j)
      else (throw (too_many_requests "Too many requests"), requests)

  -- A request that counts, by the window of its own identifier
  throttle_counted :
      (now : ℕ) (request : ApiRequest) (requests : Requests)
      → (request.method === "OPTIONS") ≡ false
      → throttle (some p) now request requests
        ≡ answer now (build_identifier request p.name) requests
  unfolding throttle
  throttle_counted now request requests h = ground arith

  counted_lem :
      (now : ℕ) (name : String) (requests : Requests) (history : List ℕ) (id : String) (t : ℕ)
      → now ≤ t
      → recent t (requests id) ≡ recent t history
      → recent now (requests id) ≡ recent now history
      → recent t ((answer now name requests).1 id)
        ≡ recent t (
            if name === id
            then (if ltb (length (recent now history)) p.limit
                then history ++ (now ∷ [])
                else history)
            else history)
  counted_lem now name requests history id t h later same = elim (Bool-cases (name === id)) [
    | inl e ↦
        rw (e, (eq_iff name id).0 e, same)
          (elim (Bool-cases (ltb (length (recent now history)) p.limit)) [
            | inl few ↦ rw (few, ===-refl id) (recent-remember now t history h)
            | inr many ↦ rw many later
          ])
    | inr other ↦ rw other (elim (Bool-cases (ltb (length (recent now (requests name))) p.limit)) [
      | inl few ↦ rw (few, other) later
      | inr many ↦ rw many later
    ])
  ]

  step_lem :
      (a : Arrival) (requests : Requests) (history : List ℕ) (id : String) (t : ℕ)
      → a.time ≤ t
      → recent t (requests id) ≡ recent t history
      → recent a.time (requests id) ≡ recent a.time history
      → recent t ((throttle (some p) a.time a.request requests).1 id)
        ≡ recent t (
            if a.request.method === "OPTIONS"
            then history
            else if build_identifier a.request p.name === id
            then (if ltb (length (recent a.time history)) p.limit
                then history ++ (a.time ∷ [])
                else history)
            else history)
  unfolding throttle
  step_lem a requests history id t h later now =
      elim (Bool-cases (a.request.method === "OPTIONS")) [
        | inl e ↦ rw e later
        | inr e ↦
            rw (throttle_counted a.time a.request requests e, e)
              (counted_lem a.time (build_identifier a.request p.name) requests history id t h later
                now)
      ]

  -- What the throttler remembers of an identifier is right for every later window.
  requests_after-recent :
      (l : List Arrival) (id : String) (t : ℕ)
      → UntilTime l t
      → recent t (requests_after l id) ≡ recent t (let_through l id)
  unfolding requests_after let_through
  requests_after-recent [] id t h = refl
  requests_after-recent (a ∷ earlier) id t (h, hs) =
      step_lem a (requests_after earlier) (let_through earlier id) id t h
        (requests_after-recent earlier id t (UntilTime-later earlier a.time t hs h))
        (requests_after-recent earlier id a.time hs)

  -- Where requests came one after another, the throttler answers the next one, if it is not a
  -- preflight request, by the full history of its identifier: it lets the request through where
  -- fewer than `limit` of those let through lie in the window that ends now, and throws otherwise.
  pub throttle_lem :
      (l : List Arrival) (now : ℕ) (request : ApiRequest)
      → UntilTime l now
      → (request.method === "OPTIONS") ≡ false
      → (throttle (some p) now request (requests_after l)).0 ≡ (
          if ltb (length (recent now (let_through l (build_identifier request p.name)))) p.limit
          then done true
          else throw (too_many_requests "Too many requests"))
  throttle_lem l now request until counts =
      rw
        (
          throttle_counted now request (requests_after l) counts,
          requests_after-recent l (build_identifier request p.name) now until,
        )
        (elim (Bool-cases
          (ltb (length (recent now (let_through l (build_identifier request p.name)))) p.limit)) [
            | inl e ↦ rw e refl
            | inr e ↦ rw e refl
          ])

  length-let_through :
      (l : List Arrival) (id : String) (t : ℕ)
      → UntilTime l t
      → length (recent t (let_through l id)) ≤ p.limit
  unfolding let_through
  length-let_through [] id t h = omega arith
  length-let_through (a ∷ earlier) id t (h, hs) =
      let before = length-let_through earlier id t (UntilTime-later earlier a.time t hs h) in
      ground (
        arith,
        before,
        recent-append t (let_through earlier id) (a.time ∷ []),
        length-append (recent t (let_through earlier id)) (recent t (a.time ∷ [])),
        length-recent a.time t (let_through earlier id) h,
        length-keep (is_recent (p.ttl_seconds * 1000) t) (a.time ∷ []),
      )

  -- Where requests came one after another, at most `limit` of the times that the throttler has
  -- stored for an identifier lie in the window that ends at any time from the last request on.
  pub requests_after-WithinLimit :
      (l : List Arrival) (id : String) (t : ℕ)
      → UntilTime l t
      → length (recent t (requests_after l id)) ≤ p.limit
  requests_after-WithinLimit l id t h =
      rw (requests_after-recent l id t h) (length-let_through l id t h)
