-- ===== src/Work/Service/Links.antt =====
-- The dependencies between the tasks of a store.
use onyx_ifem.Prelude.{
  ◌≡◌, refl, sym, ap, ◌∙◌, subst, true, false, ◌||◌, some, String, List, [], ◌∷◌, ◌++◌, arith, ◌==◌,
  eq_of_==, Bool-cases, inl, inr, includes, ==_comm, Option, if◌then◌else◌,
}
use onyx_ifem.Contracts.Errors.{Result, ok, ok-injective}
use onyx_ifem.Contracts.Validation.{has_repeats}
use onyx_ifem.Work.Types.{Task}

pub some-injective : {x y : Task} → some x ≡ some y → x ≡ y
some-injective h = cc

pub includes-append :
    (xs : List String) (d e : String) → includes (xs ++ d ∷ []) e ≡ (includes xs e || (d == e))
includes-append [] d e = ground arith
includes-append (x ∷ xs) d e = ground (arith, includes-append xs d e)

pub has_repeats-append :
    (xs : List String) (d : String) → has_repeats (xs ++ d ∷ []) ≡ (has_repeats xs || includes xs d)
unfolding has_repeats
has_repeats-append [] d = refl
has_repeats-append (x ∷ xs) d =
    ground (arith, has_repeats-append xs d, includes-append xs d x, ==_comm d x)

-- How a task is found, in one state.
abbrev pub Lookup : Type 0
Lookup = String → Result (Option Task)

-- A task that stands under its id, and depends on other tasks of its mission and organization, each once.
pub record IsLinked (lookup : Lookup) (i : String) (t : Task) : Type 0 where
  pub is_key : t.task_id ≡ i
  pub not_self : includes t.dependency_task_ids i ≡ false
  pub distinct : has_repeats t.dependency_task_ids ≡ false
  pub linked :
      (d : String)
      → includes t.dependency_task_ids d ≡ true
      → (u : Task) × (lookup d ≡ ok (some u))
        × (u.mission_id ≡ t.mission_id)
        × (u.organization_id ≡ t.organization_id)

abbrev pub AllLinked : Lookup → Type 0
AllLinked lookup = (i : String) (t : Task) → lookup i ≡ ok (some t) → IsLinked lookup i t

-- A task that may take the place under its id: it stays in the mission and the organization of the one there.
abbrev pub Keeps : Lookup → String → Task → Type 0
Keeps lookup i t' =
    (u : Task)
    → lookup i ≡ ok (some u)
    → (t'.mission_id ≡ u.mission_id) × (t'.organization_id ≡ u.organization_id)

-- The lookup after a task is put under its id.
abbrev pub Puts : String → Task → Lookup → Lookup → Type 0
Puts i t' lookup after = (d : String) → after d ≡ (if (i == d) then ok (some t') else lookup d)

module _ (lookup after : Lookup) (i : String) (t' : Task) (puts : Puts i t' lookup after)
    (keeps : Keeps lookup i t') where
  found_after :
      (d : String) (u : Task)
      → lookup d ≡ ok (some u)
      → (v : Task) × (after d ≡ ok (some v))
        × (v.mission_id ≡ u.mission_id)
        × (v.organization_id ≡ u.organization_id)
  found_after d u there = elim (Bool-cases (i == d)) [
    | inl same ↦
        let (mission, organization) = keeps u (ap lookup (eq_of_== i d same) ∙ there) in
        (t', puts d ∙ rw same refl, mission, organization)
    | inr other ↦ (u, puts d ∙ rw other there, refl, refl)
  ]

  still-IsLinked : (j : String) (t : Task) → IsLinked lookup j t → IsLinked after j t
  still-IsLinked j t l = record {
    is_key = l.is_key;
    not_self = l.not_self;
    distinct = l.distinct;
    linked = λ d h.
        let (u, there, mission, organization) = l.linked d h in
        let (v, there', mission', organization') = found_after d u there in
        (v, there', mission' ∙ mission, organization' ∙ organization);
  }

  -- A linked task that is put under its id leaves all linked.
  pub put-AllLinked : IsLinked lookup i t' → AllLinked lookup → AllLinked after
  put-AllLinked l all j t there = elim (Bool-cases (i == j)) [
    | inl same ↦
        let is_new : ok (some t') ≡ ok (some t) = sym (puts j ∙ rw same refl) ∙ there in
        subst (λ k. IsLinked after k t) (eq_of_== i j same)
          (subst (IsLinked after i) (some-injective (ok-injective is_new)) (still-IsLinked i t' l))
    | inr other ↦
        let was : lookup j ≡ ok (some t) = sym (puts j ∙ rw other refl) ∙ there in
        still-IsLinked j t (all j t was)
  ]
