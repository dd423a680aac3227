-- ===== src/Claims/Replay.antt =====
-- What the events of the claims service tell: a consumer that notes the status in each of them, in
-- the order in which they were written, and the table of claims.
use mathlib.Core.Path.{subst, fun_ext}
use risk_core.Prelude.{
  ℕ, ◌≡◌, refl, ◌∙◌, sym, ap, Option, none, some, List, [], ◌∷◌, ◌++◌, Text, codes, text_eq, ◌==◌,
  find_row, find_row-key, Bool-cases, inl, inr, if◌then◌else◌,
}
use risk_core.Prelude.Int.{ℤ}
use risk_core.Json.{Json, get_or, put}
use risk_core.Runtime.{Runtime, Draw, IsFaithful}
use risk_core.Outbox.{OutboxEvent}
use risk_core.Claims.{Claim, Status, World, row_id, status_text}
use risk_core.Claims.Events.{
  base_data, put_amount, envelope, build_filed, build_status_changed, build_resolved,
}
use risk_core.Claims.Service.{new_claim, moved}
use risk_core.Claims.Requests.{Request, filing, moving, perform, serve}
use risk_core.Claims.Transitions.{events_of, move_cases, move_run}
use risk_core.Claims.Filing.{file_cases}
use risk_core.Claims.Served.{transition_cases, clashes-missing}
use risk_core.Claims.Register.{Register, set, register, register-append, register-update}

-- The status that a text names.
abbrev read_status : Text → Option Status
read_status t =
    if text_eq t (codes "FILED")
    then some Status.filed
    else if text_eq t (codes "UNDER_REVIEW")
    then some Status.under_review
    else if text_eq t (codes "APPROVED")
    then some Status.approved
    else if text_eq t (codes "REJECTED")
    then some Status.rejected
    else if text_eq t (codes "RESOLVED")
    then some Status.resolved
    else none

status_back : (s : Status) → read_status (status_text s) ≡ some s
status_back Status.filed = refl
status_back Status.under_review = refl
status_back Status.approved = refl
status_back Status.rejected = refl
status_back Status.resolved = refl

-- The claim and the status of an event's data.
abbrev told_by : Runtime → Json → Json → Option (ℕ × Status)
told_by rt (Json.str id) (Json.str status) = elim (rt.parse_uuid id) [
  | none ↦ none
  | some c ↦ elim (read_status status) [ none ↦ none | some s ↦ some (c, s) ]
]
told_by rt _ _ = none

abbrev told_data : Runtime → Json → Option (ℕ × Status)
told_data rt (Json.obj d) = told_by rt (get_or "claim_id" Json.null d) (get_or "status" Json.null d)
told_data rt _ = none

-- The same of a payload.
abbrev pub told : Runtime → Json → Option (ℕ × Status)
told rt (Json.obj payload) = told_data rt (get_or "data" Json.null payload)
told rt _ = none

abbrev noted : Option (ℕ × Status) → Register → Register
noted none r = r
noted (some (id, s)) r = set r id s

-- The register of a consumer that has read these events.
abbrev pub replay : Runtime → List OutboxEvent → Register → Register
replay rt [] r = r
replay rt (e ∷ events) r = replay rt events (noted (told rt e.payload) r)

replay-append :
    (rt : Runtime) (events more : List OutboxEvent) (r : Register)
    → replay rt (events ++ more) r ≡ replay rt more (replay rt events r)
replay-append rt [] more r = refl
replay-append rt (e ∷ events) more r = replay-append rt events more (noted (told rt e.payload) r)

set-set : (r : Register) (id : ℕ) (s : Status) → set (set r id s) id s ≡ set r id s
set-set r id s =
    fun_ext λ j. elim (Bool-cases (j == id)) [ inl here ↦ simp here | inr other ↦ simp other ]

module _ (rt : Runtime) (faithful : IsFaithful rt) where
  told-build_filed :
      (event_id now : ℕ) (c : Claim)
      → told rt (build_filed rt event_id now c) ≡ some (c.id, c.status)
  unfolding build_filed base_data envelope
  told-build_filed event_id now c = simp (faithful.uuid_back c.id, status_back c.status)

  told-build_status_changed :
      (event_id now : ℕ) (c : Claim) (from_status to_status : Status)
      → told rt (build_status_changed rt event_id now c from_status to_status)
        ≡ some (c.id, c.status)
  unfolding build_status_changed base_data envelope put_amount
  told-build_status_changed event_id now c from_status to_status = by_amount c.approved_amount
    where
      by_amount :
          (amount : Option ℤ)
          → told_data rt (
              Json.obj (
                put_amount rt amount (
                  put "to_status"
                    (Json.str (status_text to_status))
                    (put "from_status" (Json.str (status_text from_status)) (base_data rt c)))))
            ≡ some (c.id, c.status)
      by_amount none = simp (faithful.uuid_back c.id, status_back c.status)
      by_amount (some a) = simp (faithful.uuid_back c.id, status_back c.status)

  told-build_resolved :
      (event_id now : ℕ) (c : Claim)
      → told rt (build_resolved rt event_id now c) ≡ some (c.id, c.status)
  unfolding build_resolved base_data envelope put_amount
  told-build_resolved event_id now c = by_amount c.approved_amount
    where
      by_amount :
          (amount : Option ℤ)
          → told_data rt (Json.obj (put_amount rt amount (base_data rt c))) ≡ some (c.id, c.status)
      by_amount none = simp (faithful.uuid_back c.id, status_back c.status)
      by_amount (some a) = simp (faithful.uuid_back c.id, status_back c.status)

  -- The events of a transition tell the new status, some of them twice.
  replay-events_of :
      (draw : Draw) (from_status new_status : Status) (c : Claim) (r : Register)
      → c.status ≡ new_status
      → replay rt (events_of rt draw from_status new_status c) r ≡ set r c.id c.status
  replay-events_of draw from_status Status.resolved c r same =
      ap (λ o. noted (told rt (build_resolved rt (draw.uuid 3) draw.now c)) (noted o r))
        (told-build_status_changed (draw.uuid 1) draw.now c from_status Status.resolved)
      ∙ ap (λ o. noted o (set r c.id c.status)) (told-build_resolved (draw.uuid 3) draw.now c)
      ∙ set-set r c.id c.status
  replay-events_of draw from_status Status.filed c r same =
      ap (λ o. noted o r)
        (told-build_status_changed (draw.uuid 1) draw.now c from_status Status.filed)
  replay-events_of draw from_status Status.under_review c r same =
      ap (λ o. noted o r)
        (told-build_status_changed (draw.uuid 1) draw.now c from_status Status.under_review)
  replay-events_of draw from_status Status.approved c r same =
      ap (λ o. noted o r)
        (told-build_status_changed (draw.uuid 1) draw.now c from_status Status.approved)
  replay-events_of draw from_status Status.rejected c r same =
      ap (λ o. noted o r)
        (told-build_status_changed (draw.uuid 1) draw.now c from_status Status.rejected)

  -- The outbox tells what the table of claims holds.
  abbrev IsTold : World → Type 0
  IsTold w = replay rt w.outbox (λ _. none) ≡ register w.claims

  told_after :
      (events : List OutboxEvent) (w : World) (id : ℕ) (s : Status) (outbox : List OutboxEvent)
      (claims : List Claim)
      → IsTold w
      → outbox ≡ w.outbox ++ events
      → replay rt events (register w.claims) ≡ set (register w.claims) id s
      → register claims ≡ set (register w.claims) id s
      → replay rt outbox (λ _. none) ≡ register claims
  told_after events w id s outbox claims h written read table =
      ap (λ o. replay rt o (λ _. none)) written
      ∙ replay-append rt w.outbox events (λ _. none)
      ∙ ap (replay rt events) h
      ∙ read
      ∙ sym table

  perform-IsTold :
      (draw : Draw) (request : Request) (w : World)
      → IsTold w
      → IsTold (perform rt draw request w).1
  unfolding perform
  perform-IsTold draw (filing year verified request) w h =
      elim (file_cases rt draw year verified request w) [
        | inl (e, failed) ↦ subst (λ r. IsTold r.1) (sym failed) h
        | inr (number, free, (_, claims, _, outbox)) ↦
            let c = new_claim draw request number in
            told_after _ w c.id c.status _ _ h outbox
              (ap (λ o. noted o (register w.claims)) (told-build_filed (draw.uuid 2) draw.now c))
              (ap register claims ∙ register-append c w.claims (clashes-missing c w.claims free))
      ]
  perform-IsTold draw (moving pk d) w h = elim (transition_cases rt draw pk d w) [
    | inl (e, failed) ↦ subst (λ r. IsTold r.1) (sym failed) h
    | inr (c, found, same) ↦ elim (move_cases rt draw c d.new_status d.notes d.approved_amount w) [
      | inl (e, failed) ↦ subst (λ r. IsTold r.1) (sym (same ∙ failed)) h
      | inr (row, may, has, there, takes) ↦
          let key : c.id ≡ pk = find_row-key row_id pk w.claims found in
          let own : find_row row_id c.id w.claims ≡ some c =
            subst (λ k. find_row row_id k w.claims ≡ some c) (sym key) found in
          let run =
            move_run rt draw c c d.new_status d.notes d.approved_amount w may has own takes in
          let after = moved d.new_status d.approved_amount draw.now c in
          told_after (events_of rt draw c.status d.new_status after) w c.id d.new_status _ _ h
            (ap (λ r. r.1.outbox) (same ∙ run))
            (replay-events_of draw c.status d.new_status after (register w.claims) refl)
            (ap (λ r. register r.1.claims) (same ∙ run)
              ∙ register-update c w.claims d.new_status d.approved_amount draw.now own)
    ]
  ]

  -- The outbox of the claims service is a full account of its claims: a consumer that reads the
  -- events in the order in which they were written, and notes from each the claim and the status
  -- in its data, knows for every identifier the status of its claim in the table, and which have
  -- none, after any sequence of filings and transitions that come one at a time, failing ones
  -- included, from an account
  -- that was full (such as empty tables). Identifiers can be read back from their texts.
  pub serve-IsTold :
      (requests : List (Draw × Request)) (w : World)
      → replay rt w.outbox (λ _. none) ≡ register w.claims
      → replay rt (serve rt requests w).outbox (λ _. none) ≡ register (serve rt requests w).claims
  unfolding serve
  serve-IsTold [] w h = h
  serve-IsTold ((draw, request) ∷ rest) w h =
      serve-IsTold rest (perform rt draw request w).1 (perform-IsTold draw request w h)
