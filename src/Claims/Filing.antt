-- ===== src/Claims/Filing.antt =====
-- A filing: what it writes, and what a created claim has behind it.
use risk_core.Prelude.{
  ℕ, ◌≤◌, ◌≡◌, refl, ◌∙◌, sym, ap, Bool, true, false, none, some, [], ◌∷◌, ◌++◌, map, arith, List,
  Text, codes, Bool-cases, Option-cases, inl, inr, ◌⊎◌,
}
use risk_core.Json.{Json, Fields, get_or}
use risk_core.Runtime.{Runtime, Draw, date_of}
use risk_core.Action.{Result, ok, err}
use risk_core.Outbox.{OutboxEvent, Status as OutboxStatus, new_event}
use risk_core.Numbering.{generate_claim_number}
use risk_core.Claims.{Claim, ClaimStatusHistory, Status, World}
use risk_core.Claims.Errors.{Error}
use risk_core.Claims.Service.{
  ClaimData, clashes, new_claim, new_history, insert_claim, insert_seeing, file_with, file_claim,
  validate_incident_date,
}
use risk_core.Claims.Requests.{create}
use risk_core.Claims.Client.{HttpOutcome, HttpResult, http_verify, truthy, verify_policy}
use risk_core.Claims.Events.{build_filed}
use risk_core.Claims.Verified.{verify_policy_ok}

abbrev pub filed_history : Draw → Claim → ClaimStatusHistory
filed_history draw c =
    new_history (draw.uuid 1) draw.now c.id none Status.filed (codes "Siniestro reportado")

module _ (rt : Runtime) (draw : Draw) where
  -- What a filing under a number writes and returns.
  abbrev pub Files : ClaimData → Text → World → Result Error Claim × World → Type 0
  Files request number w (r, w') =
      let c = new_claim draw request number in
      (r ≡ ok c)
      × (w'.claims ≡ w.claims ++ c ∷ [])
      × (w'.history ≡ w.history ++ filed_history draw c ∷ [])
      × (w'.outbox
          ≡ w.outbox
            ++ new_event (draw.uuid 3) (codes "claim") c.id (codes "claim.filed")
                (codes "claim.filed") (rt.uuid_str c.id) (build_filed rt (draw.uuid 2) draw.now c)
                draw.now
              ∷ [])

  -- The filing whose query saw the numbers `seen`, once the policy is verified.
  module _ (year : ℕ) (seen : List Text) (j : Json) (request : ClaimData) (w : World) where
    abbrev pub file_seeing : Result Error Claim × World
    file_seeing = file_with rt draw (ok j) (insert_seeing year seen draw request) w

    pub seeing_none :
        generate_claim_number year seen ≡ none → file_seeing ≡ (err Error.value_error, w)
    unfolding file_with insert_seeing
    seeing_none nothing = simp nothing

    pub seeing_taken :
        (number : Text)
        → generate_claim_number year seen ≡ some number
        → clashes (new_claim draw request number) w.claims ≡ true
        → file_seeing ≡ (err Error.integrity_error, w)
    unfolding file_with insert_seeing
    seeing_taken number drawn taken = simp (drawn, taken)

    pub seeing_run :
        (number : Text)
        → generate_claim_number year seen ≡ some number
        → clashes (new_claim draw request number) w.claims ≡ false
        → draw.stored 0 ≡ true
        → draw.stored 1 ≡ true
        → Files request number w file_seeing
    unfolding file_with insert_seeing
    seeing_run number drawn free s0 s1 = (
      simp (drawn, free, s0, s1),
      (simp (drawn, free, s0, s1)),
      (simp (drawn, free, s0, s1)),
      (simp (drawn, free, s0, s1)),
    )

    -- A filing fails and changes nothing, also where the claim itself has been written, or it has
    -- drawn a free number.
    pub seeing_cases :
        ((e : Error) × (file_seeing ≡ (err e, w)))
        ⊎ ((number : Text) × (generate_claim_number year seen ≡ some number)
            × (clashes (new_claim draw request number) w.claims ≡ false)
            × Files request number w file_seeing)
    unfolding file_with insert_seeing
    seeing_cases = elim (Option-cases (generate_claim_number year seen)) [
      | inl nothing ↦ inl (Error.value_error, seeing_none nothing)
      | inr (number, drawn) ↦ elim (Bool-cases (clashes (new_claim draw request number) w.claims)) [
        | inl clash ↦ inl (Error.integrity_error, seeing_taken number drawn clash)
        | inr free ↦ elim (Bool-cases (draw.stored 0)) [
          | inr f0 ↦ inl (Error.unexpected, simp (drawn, free, f0))
          | inl s0 ↦ elim (Bool-cases (draw.stored 1)) [
            | inr f1 ↦ inl (Error.unexpected, simp (drawn, free, s0, f1))
            | inl s1 ↦ inr (number, drawn, free, seeing_run number drawn free s0 s1)
          ]
        ]
      ]
    ]

  module _ (year : ℕ) (j : Json) (request : ClaimData) (w : World) where
    abbrev seen_now : List Text
    seen_now = map (λ c. c.claim_number) w.claims

    pub file_claim-seeing :
        file_claim rt year draw (ok j) request w ≡ file_seeing year seen_now j request w
    unfolding file_claim file_with insert_claim
    file_claim-seeing = refl

  -- A filing writes nothing, or one new claim with its first history row.
  pub file_cases :
      (year : ℕ) (verified : Result Error Json) (request : ClaimData) (w : World)
      → ((e : Error) × (file_claim rt year draw verified request w ≡ (err e, w)))
        ⊎ ((number : Text) × (clashes (new_claim draw request number) w.claims ≡ false)
            × Files request number w (file_claim rt year draw verified request w))
  file_cases year (err e) request w = inl (e, unfold file_claim file_with in refl)
  file_cases year (ok j) request w =
      rw (file_claim-seeing year j request w)
        (elim (seeing_cases year (seen_now year j request w) j request w) [
          | inl failed ↦ inl failed
          | inr (number, drawn, free, files) ↦ inr (number, free, files)
        ])

file_verified :
    (rt : Runtime) (year : ℕ) (draw : Draw) (verified : Result Error Json) (request : ClaimData)
    (w : World) (c : Claim)
    → (file_claim rt year draw verified request w).0 ≡ ok c
    → (j : Json) × (verified ≡ ok j)
unfolding file_claim file_with
file_verified rt year draw (ok j) request w c h = (j, refl)
file_verified rt year draw (err e) request w c h = absurd (cc)

module _ {Br : Type 0} (rt : Runtime) (year : ℕ) (draw : Draw)
    (call : Br → HttpResult → Br × Bool) where
  create_future :
      (request : ClaimData) (outcome : HttpOutcome) (b : Br) (w : World)
      → validate_incident_date (date_of draw.now) request.incident_date ≡ false
      → create rt year draw call request outcome (b, w) ≡ (err Error.invalid_data, (b, w))
  unfolding create
  create_future request outcome b w future = simp future

  pub create_past :
      (request : ClaimData) (outcome : HttpOutcome) (b : Br) (w : World)
      → validate_incident_date (date_of draw.now) request.incident_date ≡ true
      → let (verified, b') = verify_policy call b request.policy_id outcome in
        let (r, w') = file_claim rt year draw verified request w in
        create rt year draw call request outcome (b, w) ≡ (r, (b', w'))
  unfolding create
  create_past request outcome b w past = simp past

-- A claim that `create` returns is of the policy of the request, for which the breaker let the call
-- through and the answer was a JSON object with a true "is_valid", and of the incident date of the
-- request, not in the future; it is FILED, under a primary key and a number that no claim had, and
-- is written with one history row, without a from_status, and one pending event on topic
-- claim.filed about it.
pub create_effect :
    {Br : Type 0} (rt : Runtime) (year : ℕ) (draw : Draw) (call : Br → HttpResult → Br × Bool)
    (request : ClaimData) (outcome : HttpOutcome) (b : Br) (w : World) (c : Claim)
    → (create rt year draw call request outcome (b, w)).0 ≡ ok c
    → let w' = (create rt year draw call request outcome (b, w)).1.1 in
      (status : ℕ) × (fields : Fields) × (outcome
        ≡ HttpOutcome.response status (some (Json.obj fields)))
      × (truthy (get_or "is_valid" Json.null fields) ≡ true)
      × ((call b (http_verify outcome)).1 ≡ false)
      × (c.policy_id ≡ request.policy_id)
      × (c.incident_date ≡ request.incident_date)
      × (c.incident_date ≤ date_of draw.now)
      × (c.status ≡ Status.filed)
      × (clashes c w.claims ≡ false)
      × (w'.claims ≡ w.claims ++ c ∷ [])
      × ((h : ClaimStatusHistory) × (w'.history ≡ w.history ++ h ∷ [])
          × (h.claim_id ≡ c.id)
          × (h.from_status ≡ none)
          × (h.to_status ≡ Status.filed))
      × ((e : OutboxEvent) × (w'.outbox ≡ w.outbox ++ e ∷ [])
          × (e.topic ≡ codes "claim.filed")
          × (e.aggregate_id ≡ c.id)
          × (e.status ≡ OutboxStatus.pending)
          × (e.payload ≡ build_filed rt (draw.uuid 2) draw.now c))
create_effect rt year draw call request outcome b w c h =
    elim (Bool-cases (validate_incident_date (date_of draw.now) request.incident_date)) [
      | inr future ↦
          let refused = create_future rt year draw call request outcome b w future in absurd (cc)
      | inl past ↦
          let run = create_past rt year draw call request outcome b w past in
          let verified = (verify_policy call b request.policy_id outcome).0 in
          let returned' : (file_claim rt year draw verified request w).0 ≡ ok c =
            sym (ap (λ r. r.0) run) ∙ h in
          let (j, valid) = file_verified rt year draw verified request w c returned' in
          let (status, fields, answered, same, true_, _, through) =
            verify_policy_ok call b request.policy_id outcome j valid in
          elim (file_cases rt draw year verified request w) [
            | inl (e, failed) ↦ absurd (cc)
            | inr (number, free, (returned, claims, rows, events)) ↦
                let is_new : c ≡ new_claim draw request number =
                  ground (arith, returned, returned') in
                rw (run, is_new)
                  (
                    status,
                    fields,
                    answered ∙ ap (λ x. HttpOutcome.response status (some x)) same,
                    true_,
                    through,
                    refl,
                    refl,
                    ground arith,
                    refl,
                    free,
                    claims,
                    (_, rows, refl, refl, refl),
                    (_, events, refl, refl, refl, refl),
                  )
          ]
    ]
