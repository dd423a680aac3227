-- ===== src/Policy/Reports.antt =====
-- That the metrics count what they say, and that a filtered list is the rows that pass.
use mathlib.Core.Path.{fun_ext}
use risk_core.Prelude.{
  ℕ, ◌+◌, ◌≡◌, refl, ◌∙◌, sym, ap, Bool, true, false, ◌&&◌, Option, none, some, List, [], ◌∷◌,
  arith, Text, is_nonempty, length, select, select-select, count, Bool-cases, Option-cases, inl,
  inr, if◌then◌else◌,
}
use risk_core.Runtime.{Runtime}
use risk_core.Policy.{Policy, PolicyType, policy_types, is_active}
use risk_core.Policy.Queries.{
  Filters, get_count, zeros, of_type, group_counts, fill, get_metrics, filter_by,
  get_policies_queryset, keep_status, keep_type, keep_customer, keep_from, keep_to, ◌>>=◌,
}

-- Whether a row passes one filter that is given.
abbrev pub passes : {A B : Type 0} → (Text → Option B) → (B → A → Bool) → Option Text → A → Bool
passes read keep none x = true
passes read keep (some value) x =
    if is_nonempty value then (elim (read value) [ none ↦ false | some b ↦ keep b x ]) else true

select_all : {A : Type 0} (rows : List A) → select (λ x. true) rows ≡ rows
select_all [] = refl
select_all (x ∷ rows) = ap (◌∷◌ x) (select_all rows)

pub filter_by-passes :
    {A B : Type 0} (read : Text → Option B) (keep : B → A → Bool) (value : Option Text)
    (rows rs : List A)
    → filter_by read keep value rows ≡ some rs
    → rs ≡ select (passes read keep value) rows
unfolding filter_by
filter_by-passes {A} read keep none rows rs h = cc (select_all rows)
filter_by-passes {A} read keep (some value) rows rs h = elim (Bool-cases (is_nonempty value)) [
  | inr blank ↦
      let all : select (passes read keep (some value)) rows ≡ rows =
        ap (λ (f : A → Bool). select f rows) {y = λ x. true} (fun_ext λ x. simp blank)
        ∙ select_all rows in
      let rest : some rows ≡ some rs = simp blank at h in sym (all ∙ (cc))
  | inl given ↦ elim (Option-cases (read value)) [
    | inl bad ↦ absurd (let no : none ≡ some rs = simp (given, bad) at h in cc)
    | inr (b, e) ↦
        let kept : select (passes read keep (some value)) rows ≡ select (keep b) rows =
          ap (λ (f : A → Bool). select f rows) {y = keep b} (fun_ext λ x. simp (given, e)) in
        let rest : some (select (keep b) rows) ≡ some rs = simp (given, e) at h in sym (kept ∙ (cc))
  ]
]

-- Each type of the dict has the number of active policies of that type.
by_type :
    (rows : List Policy) (t : PolicyType)
    → get_count t (fill (group_counts policy_types rows) (zeros policy_types))
      ≡ some (count (of_type t) rows)
by_type rows PolicyType.life = ground arith
by_type rows PolicyType.health = ground arith
by_type rows PolicyType.auto = ground arith
by_type rows PolicyType.home = ground arith
by_type rows PolicyType.business = ground arith

count_of_select :
    (t : PolicyType) (rows : List Policy)
    → count (of_type t) (select is_active rows) ≡ count (λ p. is_active p && of_type t p) rows
count_of_select t [] = refl
count_of_select t (p ∷ rows) = ground (arith, count_of_select t rows)

-- A row has one type.
count_types :
    (rows : List Policy)
    → count (of_type PolicyType.life) rows
        + count (of_type PolicyType.health) rows
        + count (of_type PolicyType.auto) rows
        + count (of_type PolicyType.home) rows
        + count (of_type PolicyType.business) rows
      ≡ length rows
count_types [] = refl
count_types (p ∷ rows) = one (count_types rows) p.policy_type refl
  where
    one :
        count (of_type PolicyType.life) rows
            + count (of_type PolicyType.health) rows
            + count (of_type PolicyType.auto) rows
            + count (of_type PolicyType.home) rows
            + count (of_type PolicyType.business) rows
          ≡ length rows
        → (t : PolicyType) → p.policy_type ≡ t
        → count (of_type PolicyType.life) (p ∷ rows)
            + count (of_type PolicyType.health) (p ∷ rows)
            + count (of_type PolicyType.auto) (p ∷ rows)
            + count (of_type PolicyType.home) (p ∷ rows)
            + count (of_type PolicyType.business) (p ∷ rows)
          ≡ length (p ∷ rows)
    one ih PolicyType.life e = ground arith
    one ih t e = ground arith

-- The dict of the metrics has, under every policy type, the number of active policies of that
-- type, types with none included, and these numbers add up to `active_policies`.
pub get_metrics_by_type :
    (rt : Runtime) (now : ℕ) (rows : List Policy)
    → let m = get_metrics rt now rows in
      ((t : PolicyType)
        → get_count t m.policies_by_type ≡ some (count (λ p. is_active p && of_type t p) rows))
      × (count (λ p. is_active p && of_type PolicyType.life p) rows
            + count (λ p. is_active p && of_type PolicyType.health p) rows
            + count (λ p. is_active p && of_type PolicyType.auto p) rows
            + count (λ p. is_active p && of_type PolicyType.home p) rows
            + count (λ p. is_active p && of_type PolicyType.business p) rows
          ≡ m.active_policies)
unfolding get_metrics
get_metrics_by_type rt now rows = (
  (λ t. by_type (select is_active rows) t ∙ ap some (count_of_select t rows)),
  rw
      (
        ← count_of_select PolicyType.life rows,
        ← count_of_select PolicyType.health rows,
        ← count_of_select PolicyType.auto rows,
        ← count_of_select PolicyType.home rows,
        ← count_of_select PolicyType.business rows,
      )
      (count_types (select is_active rows)),
)

-- All five filters at once.
abbrev pub passes_all : Runtime → Filters → Policy → Bool
passes_all rt f p =
    (((passes some keep_status f.status p && passes some keep_type f.policy_type p)
        && passes rt.parse_uuid keep_customer f.customer_id p)
      && passes rt.parse_date keep_from f.start_date_from p)
    && passes rt.parse_date keep_to f.start_date_to p

filter_step :
    {A B C : Type 0} (read : Text → Option B) (keep : B → A → Bool) (value : Option Text)
    (rows : List A) (f : List A → Option C) (c : C)
    → (filter_by read keep value rows >>= f) ≡ some c
    → f (select (passes read keep value) rows) ≡ some c
filter_step read keep value rows f c h = elim (Option-cases (filter_by read keep value rows)) [
  | inl bad ↦ absurd (let no : none ≡ some c = simp bad at h in cc)
  | inr (rs, e) ↦
      let rest : f rs ≡ some c = simp e at h in
      rw (← filter_by-passes read keep value rows rs e) rest
]

-- When no given value is malformed, the filtered list is exactly the rows, in their order, that
-- pass every filter that is given; a filter that is absent or empty lets every row pass.
pub get_policies_queryset_lem :
    (rt : Runtime) (filters : Filters) (all rs : List Policy)
    → get_policies_queryset rt filters all ≡ some rs
    → rs ≡ select (passes_all rt filters) all
unfolding get_policies_queryset
get_policies_queryset_lem rt filters all rs h =
    let p1 = passes {A = Policy} some keep_status filters.status in
    let p2 = passes {A = Policy} some keep_type filters.policy_type in
    let p3 = passes {A = Policy} rt.parse_uuid keep_customer filters.customer_id in
    let p4 = passes {A = Policy} rt.parse_date keep_from filters.start_date_from in
    let h1 = filter_step some keep_status filters.status all _ rs h in
    let h2 = filter_step some keep_type filters.policy_type (select p1 all) _ rs h1 in
    let h3 =
      filter_step rt.parse_uuid keep_customer filters.customer_id (select p2 (select p1 all)) _ rs
        h2 in
    let h4 =
      filter_step rt.parse_date keep_from filters.start_date_from
        (select p3 (select p2 (select p1 all))) _ rs h3 in
    filter_by-passes rt.parse_date keep_to filters.start_date_to
      (select p4 (select p3 (select p2 (select p1 all)))) rs h4
    ∙ simp select-select
