-- ===== src/Claims/Accepted.antt =====
-- When a filing goes through, and when another filing at the same time makes it fail.
use risk_core.Prelude.{
  Bool, ℕ, ◌≤◌, ◌≡◌, refl, ◌∙◌, sym, ap, true, false, ◌||◌, ◌&&◌, none, some, List, [], ◌∷◌, ◌++◌,
  map, arith, Text, codes, text_eq, text_eq_refl, any, any-append, All, find_row, leb, ltb, ◌==◌,
  inl, inr,
}
use risk_core.Json.{Json, Fields, get_or}
use risk_core.Runtime.{Runtime, Draw, TakesAll, date_of}
use risk_core.Action.{ok, err}
use risk_core.Numbering.{generate_claim_number, prefix, pad6}
use risk_core.Numbering.Fresh.{
  IsIssued, Below, generate_claim_number_fresh, generate_claim_number_stuck,
}
use risk_core.Claims.{Claim, World, row_id}
use risk_core.Claims.Errors.{Error}
use risk_core.Claims.Service.{ClaimData, clashes, new_claim, file_claim}
use risk_core.Claims.Requests.{create}
use risk_core.Claims.Client.{
  HttpOutcome, HttpResult, http_verify, truthy, verify_policy, after_call, check_data,
}
use risk_core.Claims.Filing.{
  file_seeing, file_claim-seeing, seeing_taken, seeing_run, seeing_cases, create_past,
}

abbrev numbers : World → List Text
numbers w = map (λ c. c.claim_number) w.claims

-- A row of a new identifier and a new number clashes with none.
clashes-new :
    (c : Claim) (rows : List Claim)
    → find_row row_id c.id rows ≡ none
    → any (text_eq c.claim_number) (map (λ d. d.claim_number) rows) ≡ false
    → clashes c rows ≡ false
clashes-new c [] new free = refl
clashes-new c (d ∷ rows) new free = ground (arith, clashes-new c rows)

clashes-taken :
    (c : Claim) (rows : List Claim)
    → any (text_eq c.claim_number) (map (λ d. d.claim_number) rows) ≡ true
    → clashes c rows ≡ true
clashes-taken c [] taken = taken
clashes-taken c (d ∷ rows) taken = ground (arith, clashes-taken c rows)

clashes-number :
    (c d : Claim) (rows : List Claim)
    → c.claim_number ≡ d.claim_number
    → clashes c (rows ++ d ∷ []) ≡ true
clashes-number c d rows same =
    any-append (λ x. x.id == c.id || text_eq c.claim_number x.claim_number) rows (d ∷ [])
    ∙ (let own : text_eq c.claim_number d.claim_number ≡ true =
          ap (text_eq c.claim_number) (sym same) ∙ text_eq_refl c.claim_number in
        ground (arith, own))

module _ (rt : Runtime) (year : ℕ) where
  -- Two filings at once: where the query of the second saw the numbers of the table before the first
  -- wrote its claim (with an empty table the lock has no row to wait for, and where it waits, the
  -- query has chosen its row already), the second one raises the error of the unique column and
  -- writes nothing, although its policy was verified and whatever it is about.
  pub lost_filing :
      (draw draw' : Draw) (j j' : Json) (request request' : ClaimData) (w : World) (c : Claim)
      → (file_claim rt year draw (ok j) request w).0 ≡ ok c
      → let w' = (file_claim rt year draw (ok j) request w).1 in
        file_seeing rt draw' year (numbers w) j' request' w' ≡ (err Error.integrity_error, w')
  lost_filing draw draw' j j' request request' w c h =
      let same = file_claim-seeing rt draw year j request w in
      elim (seeing_cases rt draw year (numbers w) j request w) [
        | inl (e, failed) ↦ absurd (ground (arith, ap (λ r. r.0) (same ∙ failed), h))
        | inr (number, drawn, free, files) ↦
            let written = ap (λ r. r.1.claims) same ∙ files.1 in
            let first = new_claim draw request number in
            let taken =
              ap (clashes (new_claim draw' request' number)) written
              ∙ clashes-number (new_claim draw' request' number) first w.claims refl in
            seeing_taken rt draw' year (numbers w) j' request'
              (file_claim rt year draw (ok j) request w).1 number drawn taken
      ]

  -- In a table that holds claim numbers 999999 and 1000000 of the year, and none of that year above,
  -- `generate_claim_number` gives 1000000, and no claim can be filed any more in that year: every
  -- filing, whatever it is about, raises the error of the unique column and changes nothing.
  pub filing_stuck :
      (w : World)
      → All (IsIssued 1_000_000 (prefix (codes "CLM") year)) (numbers w)
      → any (text_eq (prefix (codes "CLM") year ++ pad6 999_999)) (numbers w) ≡ true
      → any (text_eq (prefix (codes "CLM") year ++ pad6 1_000_000)) (numbers w) ≡ true
      → (generate_claim_number year (numbers w)
          ≡ some (prefix (codes "CLM") year ++ pad6 1_000_000))
        × ((draw : Draw) (j : Json) (request : ClaimData)
            → file_claim rt year draw (ok j) request w ≡ (err Error.integrity_error, w))
  filing_stuck w issued there both =
      let drawn = generate_claim_number_stuck year (numbers w) issued there in
      let number = prefix (codes "CLM") year ++ pad6 1_000_000 in
      (
        drawn,
        λ draw j request.
            file_claim-seeing rt draw year j request w
            ∙ seeing_taken rt draw year (numbers w) j request w number drawn
                (clashes-taken (new_claim draw request number) w.claims both),
      )

  verify_passes :
      {Br : Type 0} (call : Br → HttpResult → Br × Bool) (b : Br) (policy_id status : ℕ)
      (fields : Fields)
      → (leb 200 status && ltb status 300) ≡ true
      → truthy (get_or "is_valid" Json.null fields) ≡ true
      → (call b (HttpResult.data_of (Json.obj fields))).1 ≡ false
      → (verify_policy call b policy_id (HttpOutcome.response status (some (Json.obj fields)))).0
        ≡ ok (Json.obj fields)
  unfolding verify_policy http_verify after_call check_data
  verify_passes call b policy_id status fields fine valid through =
      rw (fine) (rw (through, valid) refl)

  -- A claim is filed where the policy service answers, with a status of success, an object with a
  -- true "is_valid", the breaker lets this through, the incident is not in the future, the
  -- identifier is new, the database takes every row, and the numbers of the year go up to 999999
  -- at most: the result is a claim
  -- under a number of that year which no claim had and which is above all others of the year, and
  -- its row is the only new one.
  pub filing_returns :
      {Br : Type 0} (draw : Draw) (call : Br → HttpResult → Br × Bool) (request : ClaimData)
      (status : ℕ) (fields : Fields) (b : Br) (w : World)
      → (leb 200 status && ltb status 300) ≡ true
      → truthy (get_or "is_valid" Json.null fields) ≡ true
      → (call b (HttpResult.data_of (Json.obj fields))).1 ≡ false
      → request.incident_date ≤ date_of draw.now
      → find_row row_id (draw.uuid 0) w.claims ≡ none
      → TakesAll draw
      → All (IsIssued 999_999 (prefix (codes "CLM") year)) (numbers w)
      → let (r, (_, w')) =
          create rt year draw call request
            (HttpOutcome.response status (some (Json.obj fields)))
            (b, w) in
        (c : Claim) × (n : ℕ) × (r ≡ ok c)
        × (c.claim_number ≡ prefix (codes "CLM") year ++ pad6 n)
        × (n ≤ 1_000_000)
        × Below n (prefix (codes "CLM") year) (numbers w)
        × (any (text_eq c.claim_number) (numbers w) ≡ false)
        × (w'.claims ≡ w.claims ++ c ∷ [])
  filing_returns draw call request status fields b w fine valid through past new takes issued =
      let outcome = HttpOutcome.response status (some (Json.obj fields)) in
      let (n, drawn, bound, above, free) = generate_claim_number_fresh year (numbers w) issued in
      let number = prefix (codes "CLM") year ++ pad6 n in
      let verified = verify_passes call b request.policy_id status fields fine valid through in
      let run = create_past rt year draw call request outcome b w (ground arith) in
      let files =
        seeing_run rt draw year (numbers w) (Json.obj fields) request w number drawn
          (clashes-new (new_claim draw request number) w.claims new free) (takes 0) (takes 1) in
      let same = file_claim-seeing rt draw year (Json.obj fields) request w in
      rw (run, verified, same)
        (new_claim draw request number, n, files.0, refl, bound, above, free, files.1)
