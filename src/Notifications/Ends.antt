-- ===== src/Notifications/Ends.antt =====
-- The workers come to an end: how many steps a task takes in any interleaving.
use mathlib.Core.Path.{subst}
use risk_core.Prelude.{
  ℕ, ◌+◌, ◌-◌, ◌*◌, ◌≤◌, ◌≡◌, refl, sym, ap, true, some, List, [], ◌∷◌, ◌++◌, arith, length,
  length-append, total, All, All-append, ltb, find_row, inl, inr, Bool-cases, Option-cases,
}
use risk_core.Notifications.{Notification, World, row_id}
use risk_core.Notifications.Consumer.{Library}
use risk_core.Notifications.Task.{
  Attempt, no_template, mailed, refused, send_email_notification, attempt_mail, max_retries,
}
use risk_core.Notifications.Workers.{
  Office, settle, Step, Reach, start, later, insert, finish, skip, take, run, unsure, cut_off,
  redeliver, doubled, Cut, at_once, mailed_only, mailed_saved, mailed_logged, refused_saved,
  refused_logged, left_by,
}
use risk_core.Notifications.Ledger.{run_missing, run_found}

-- The runs that a held task has left.
abbrev left : ℕ × ℕ → ℕ
left (id, k) = 4 - k

-- The steps that the tasks can still take: one to be taken, and four runs.
abbrev pub load : Office → ℕ
load s = 5 * length s.world.tasks + total left s.held

-- No held task has more retries behind it than the task allows.
abbrev IsBounded : List (ℕ × ℕ) → Type 0
IsBounded held = All (λ h. h.1 ≤ max_retries) held

total-append : (xs ys : List (ℕ × ℕ)) → total left (xs ++ ys) ≡ total left xs + total left ys
total-append [] ys = omega arith
total-append (x ∷ xs) ys = omega (arith, total-append xs ys)

IsBounded-split :
    (before after : List (ℕ × ℕ)) (h : ℕ × ℕ)
    → IsBounded (before ++ h ∷ after)
    → IsBounded before × (h.1 ≤ max_retries) × IsBounded after
IsBounded-split [] after h (b, rest) = (tt, b, rest)
IsBounded-split (x ∷ before) after h (b, rest) =
    let (front, here, back) = IsBounded-split before after h rest in ((b, front), here, back)

-- How many of the steps are those of a worker, without runs that a lost worker leaves to be done
-- again, and how many add a task: an insertion,
-- or a worker that is lost after its run has asked for the next.
module _ {lib : Library} where
  abbrev pub worker : {s t : Office} → Step lib s t → ℕ
  worker (insert _ _ _ _ _ _ _ _ _ _) = 0
  worker (finish _ _ _ _) = 0
  worker (skip _ _ _) = 0
  worker (take _ _ _ _ _) = 1
  worker (run _ _ _ _ _ _ _ _ _) = 1
  worker (unsure _ _ _ _ _ _ _ _ _ _ _) = 1
  worker (cut_off _ _ _ _ _ _ _ _ _) = 1
  worker (redeliver _ _ _ _ _ _ _ _ _) = 0
  worker (doubled _ _ _ _ _ _ _ _ _ _ _ _) = 0

  abbrev pub adds : {s t : Office} → Step lib s t → ℕ
  adds (insert _ _ _ _ _ _ _ _ _ _) = 1
  adds (finish _ _ _ _) = 0
  adds (skip _ _ _) = 0
  adds (take _ _ _ _ _) = 0
  adds (run _ _ _ _ _ _ _ _ _) = 0
  adds (unsure _ _ _ _ _ _ _ _ _ _ _) = 0
  adds (cut_off _ _ _ _ _ _ _ _ _) = 0
  adds (redeliver _ _ _ _ _ _ _ _ _) = 0
  adds (doubled _ _ _ _ _ _ _ _ _ _ _ _) = 1

  abbrev pub worker_steps : {s t : Office} → Reach lib s t → ℕ
  worker_steps start = 0
  worker_steps (later reach step) = worker_steps reach + worker step

  abbrev pub additions : {s t : Office} → Reach lib s t → ℕ
  additions start = 0
  additions (later reach step) = additions reach + adds step

-- The tasks that a step of a worker leaves.
abbrev Eases : Office → Office → Type 0
Eases s t = IsBounded t.held × (1 + load t ≤ load s)

module _ (s : Office) (before after : List (ℕ × ℕ)) (id k : ℕ)
    (was : s.held ≡ before ++ (id, k) ∷ after) (bounded : IsBounded s.held) where
  abbrev LeavesTasks : List (ℕ × ℕ) → Type 0
  LeavesTasks held = IsBounded held × (1 + (5 * length s.world.tasks + total left held) ≤ load s)

  -- A task that is over.
  over : LeavesTasks (before ++ after)
  over =
      let (front, here, back) =
        IsBounded-split before after (id, k) (subst IsBounded was bounded) in
      (
        All-append _ before after front back,
        omega (
          arith,
          here,
          ap (total left) was,
          total-append before after,
          total-append before ((id, k) ∷ after),
        ),
      )

  -- A task that asks for another run.
  once_more : ltb k max_retries ≡ true → LeavesTasks (before ++ (id, k + 1) ∷ after)
  once_more again =
      let (front, here, back) =
        IsBounded-split before after (id, k) (subst IsBounded was bounded) in
      let less : k + 1 ≤ 3 = ground arith in
      (
        All-append _ before ((id, k + 1) ∷ after) front (less, back),
        omega (
          arith,
          less,
          ap (total left) was,
          total-append before ((id, k + 1) ∷ after),
          total-append before ((id, k) ∷ after),
        ),
      )

  ran :
      (log_id now : ℕ) (a : Attempt) (n : Notification)
      → Eases s (settle s before after id k (some n) (attempt_mail k log_id now a n s.world))
  ran log_id now no_template n = over
  ran log_id now (mailed t) n = over
  ran log_id now (refused message) n = elim (Bool-cases (ltb k max_retries)) [
    | inl again ↦ rw again (once_more again)
    | inr last ↦ rw last over
  ]

  run-Eases :
      (log_id now : ℕ) (a : Attempt)
      → Eases s (
          settle s before after id k
            (find_row row_id id s.world.notifications)
            (send_email_notification k log_id now a id s.world))
  run-Eases log_id now a = elim (Option-cases (find_row row_id id s.world.notifications)) [
    | inl gone ↦ subst (Eases s) (sym (run_missing s before after id k log_id now a gone)) over
    | inr (n, found) ↦
        subst (Eases s) (sym (run_found s before after id k log_id now a n found))
          (ran log_id now a n)
  ]

-- A run that is cut off leaves the queue.
left_by-tasks : (c : Cut) (n : Notification) (w : World) → (left_by c n w).tasks ≡ w.tasks
left_by-tasks at_once n w = refl
left_by-tasks mailed_only n w = refl
left_by-tasks (mailed_saved _) n w = refl
left_by-tasks (mailed_logged _ _ _) n w = refl
left_by-tasks refused_saved n w = refl
left_by-tasks (refused_logged _ _ _ _) n w = refl

module _ (lib : Library) where
  abbrev Weighs : Office → ℕ → ℕ → Office → Type 0
  Weighs s worked inserted t = IsBounded t.held × (worked + load t ≤ load s + 5 * inserted)

  eased : (s t : Office) → Eases s t → Weighs s 1 0 t
  eased s t (bounded, less) = (bounded, omega (arith, less))

  Step-load :
      (s t : Office) (step : Step lib s t) → IsBounded s.held → Weighs s (worker step) (adds step) t
  Step-load s t (insert m draw event_id event_type fields n idle created new next) bounded =
      subst (Weighs s 0 1) (sym next)
        (bounded, omega (arith, length-append s.world.tasks (n.id ∷ [])))
  Step-load s t (finish m n was next) bounded =
      subst (Weighs s 0 0) (sym next) (bounded, omega arith)
  Step-load s t (skip m idle next) bounded = subst (Weighs s 0 0) (sym next) (bounded, omega arith)
  Step-load s t (take before after id was next) bounded = subst (Weighs s 1 0) (sym next) (
    (omega arith, bounded),
    omega (arith, ap length was, length-append before (id ∷ after), length-append before after),
  )
  Step-load s t (run before after id k log_id now a was next) bounded =
      eased s t
        (subst (Eases s) (sym next) (run-Eases s before after id k was bounded log_id now a))
  Step-load s t (unsure before after id k log_id now message n was found next) bounded =
      let (bounded', less) = ran s before after id k was bounded log_id now (refused message) n in
      subst (Weighs s 1 0) (sym next) (bounded', omega (arith, less))
  Step-load s t (cut_off before after id k n c was found next) bounded =
      let (bounded', less) = over s before after id k was bounded in
      subst (Weighs s 1 0) (sym next)
        (bounded', omega (arith, less, ap length (left_by-tasks c n s.world)))
  Step-load s t (redeliver before after id k n c was found next) bounded =
      subst (Weighs s 0 0) (sym next)
        (bounded, omega (arith, ap length (left_by-tasks c n s.world)))
  Step-load s t (doubled before after id k log_id now message n was found again next) bounded =
      let (front, here, back) =
        IsBounded-split before after (id, k) (subst IsBounded was bounded) in
      let less : k + 1 ≤ 3 = ground arith in
      subst (Weighs s 0 1) (sym next) (
        All-append _ before ((id, k) ∷ (id, k + 1) ∷ after) front (here, (less, back)),
        omega (
          arith,
          ap (total left) was,
          total-append before ((id, k) ∷ (id, k + 1) ∷ after),
          total-append before ((id, k) ∷ after),
        ),
      )

  Reach-load :
      {s t : Office} (reach : Reach lib s t)
      → IsBounded s.held
      → Weighs s (worker_steps reach) (additions reach) t
  Reach-load start h = (h, omega arith)
  Reach-load {s} (later {t} {u} reach step) h =
      let (bounded, less) = Reach-load reach h in
      let (bounded', less') = Step-load t u step bounded in (bounded', omega (arith, less, less'))

none_left :
    (tasks : List ℕ) (held : List (ℕ × ℕ))
    → IsBounded held
    → 5 * length tasks + total left held ≡ 0
    → (tasks ≡ []) × (held ≡ [])
none_left [] [] bounded none_ = (refl, refl)
none_left [] ((id, k) ∷ held) bounded none_ = absurd (omega (arith, bounded.0))
none_left (id ∷ tasks) held bounded none_ = absurd (omega arith)

-- A step that a worker can take while there is a task.
worker_step :
    (lib : Library) (t : Office) (log_id now : ℕ) (a : Attempt) (tasks : List ℕ)
    (held : List (ℕ × ℕ))
    → t.world.tasks ≡ tasks
    → t.held ≡ held
    → 1 ≤ 5 * length tasks + total left held
    → (u : Office) × (step : Step lib t u) × (worker step ≡ 1)
worker_step lib t log_id now a (id ∷ tasks) held some_task _ more =
    (_, take [] tasks id some_task refl, refl)
worker_step lib t log_id now a [] ((id, k) ∷ held) no_task some_held more =
    (_, run [] held id k log_id now a some_held refl, refl)
worker_step lib t log_id now a [] [] no_task no_held more = absurd (omega arith)

-- The workers come to an end in any interleaving: from a state where no worker holds a task and
-- none waits, they take at most five steps for each notification that the consumer has inserted
-- since and for each worker that was lost after its run had asked for the next, not counting the
-- runs that a lost worker leaves to be done again. As long as a task is left, a worker can take a
-- step, whatever its run meets; and when the load is zero, no task is left.
pub workers_end :
    (lib : Library) (s t : Office) (reach : Reach lib s t)
    → s.held ≡ []
    → s.world.tasks ≡ []
    → (worker_steps reach + load t ≤ 5 * additions reach)
      × (load t ≡ 0 → (t.world.tasks ≡ []) × (t.held ≡ []))
      × ((log_id now : ℕ) (a : Attempt)
          → 1 ≤ load t
          → (u : Office) × (step : Step lib t u) × (worker step ≡ 1))
workers_end lib s t reach idle none_ =
    let (bounded, less) = Reach-load lib reach (subst IsBounded (sym idle) tt) in
    (
      omega (arith, less, ap (total left) idle, ap length none_),
      none_left t.world.tasks t.held bounded,
      λ log_id now a more. worker_step lib t log_id now a t.world.tasks t.held refl refl more,
    )
