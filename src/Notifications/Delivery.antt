-- ===== src/Notifications/Delivery.antt =====
-- The events of the other services, as the notification service takes them.
use risk_core.Prelude.{
  ℕ, ◌≡◌, refl, ◌∙◌, ap, Bool, true, false, some, [], ◌∷◌, ◌++◌, Text, codes, is_nonempty, length,
  leb,
}
use risk_core.Json.{Json, Fields, put}
use risk_core.Runtime.{Runtime, Draw}
use risk_core.Action.{ok}
use risk_core.Policy.{Policy}
use risk_core.Policy.Events as PolicyEvents
use risk_core.Claims.{Claim}
use risk_core.Claims.Events as ClaimEvents
use risk_core.Notifications.{Notification, Status, World}
use risk_core.Notifications.Consumer.{
  Library, Message, build_subject, extract_recipient, create_notification, handle_payload,
  handle_message, has_notification, new_notification, commit,
}

-- A message becomes a notification: its row is added, its task is sent to Celery, and the message
-- is committed.
abbrev pub BecomesNotification : Library → Draw → Message → World → Text → Text → Text → Type 0
BecomesNotification lib draw m w event_id recipient subject =
    (n : Notification) × (handle_message lib draw true m w ≡ (
      ok tt,
      commit m
          (record w { notifications = w.notifications ++ n ∷ []; tasks = w.tasks ++ n.id ∷ [] }),
    ))
    × (n.event_id ≡ event_id)
    × (n.recipient_email ≡ recipient)
    × (n.subject ≡ subject)
    × (n.status ≡ Status.pending)

module _ (lib : Library) (draw : Draw) (m : Message) (w : World) where
  create_run :
      (event_id event_type recipient : Text) (fields : Fields)
      → extract_recipient lib fields event_type ≡ recipient
      → has_notification event_id w ≡ false
      → leb (length event_id) 100 ≡ true
      → leb (length event_type) 100 ≡ true
      → leb (length recipient) 254 ≡ true
      → handle_payload lib draw true m (Json.str event_id) (Json.str event_type) (Json.obj fields) w
        ≡ (
          ok tt,
          commit m (record w {
            notifications =
                w.notifications ++ new_notification lib draw event_id event_type fields ∷ [];
            tasks = w.tasks ++ draw.uuid 0 ∷ [];
          }),
        )
  unfolding handle_payload create_notification
  create_run event_id event_type recipient fields is_recipient new short short_type
        short_recipient =
      let fits = ap (λ r. leb (length r) 254) is_recipient ∙ short_recipient in
      simp (new, short, short_type, fits)

  -- A message whose event is in the table already changes nothing but the commits: no second
  -- notification and no second task, for every kind of event.
  pub handle_duplicate :
      (broker : Bool) (event_id event_type : Text) (fields : Fields)
      → has_notification event_id w ≡ true
      → leb (length event_id) 100 ≡ true
      → leb (length event_type) 100 ≡ true
      → leb (length (extract_recipient lib fields event_type)) 254 ≡ true
      → handle_payload lib draw broker m
          (Json.str event_id)
          (Json.str event_type)
          (Json.obj fields)
          w
        ≡ (ok tt, commit m w)
  unfolding handle_payload create_notification
  handle_duplicate broker event_id event_type fields known short short_type short_recipient =
      simp (known, short, short_type, short_recipient)

module _ (rt : Runtime) (lib : Library) (draw : Draw) (m : Message) (w : World) (event_id t : ℕ)
    (new : has_notification (rt.uuid_str event_id) w ≡ false)
    (short : leb (length (rt.uuid_str event_id)) 100 ≡ true) where
  -- The mail about a created policy is addressed to the sender's own default address, whoever the
  -- customer is: the payload of the policy service holds no "customer_email".
  pub build_created_recipient :
      (p : Policy)
      → leb (length lib.default_from_email) 254 ≡ true
      → m.value ≡ some (PolicyEvents.build_created rt event_id t p)
      → BecomesNotification lib draw m w
          (rt.uuid_str event_id)
          lib.default_from_email
          (codes "Póliza creada")
  unfolding PolicyEvents.build_created handle_message extract_recipient build_subject
  build_created_recipient p fits value = (
    new_notification lib draw (rt.uuid_str event_id) (codes "policy.created")
        (PolicyEvents.base_data rt p),
    rw value (
        create_run lib draw m w (rt.uuid_str event_id) (codes "policy.created")
          lib.default_from_email (PolicyEvents.base_data rt p) refl new short refl fits),
    refl,
    refl,
    refl,
    refl,
  )

  -- The mail about a filed claim goes to the claimant, where the claim has an address.
  pub build_filed_recipient :
      (c : Claim)
      → is_nonempty c.claimant_email ≡ true
      → leb (length c.claimant_email) 254 ≡ true
      → m.value ≡ some (ClaimEvents.build_filed rt event_id t c)
      → BecomesNotification lib draw m w
          (rt.uuid_str event_id)
          c.claimant_email
          (codes "Siniestro registrado")
  unfolding ClaimEvents.build_filed handle_message extract_recipient build_subject
  build_filed_recipient c given fits value = (
    new_notification lib draw (rt.uuid_str event_id) (codes "claim.filed") (filed_data c),
    rw value (
        create_run lib draw m w (rt.uuid_str event_id) (codes "claim.filed") c.claimant_email
          (filed_data c) (rw given refl) new short refl fits),
    refl,
    rw given refl,
    refl,
    refl,
  )
    where
      filed_data : Claim → Fields
      filed_data c =
          put "estimated_damage" (Json.str (rt.decimal_str c.estimated_damage))
            (ClaimEvents.base_data rt c)
