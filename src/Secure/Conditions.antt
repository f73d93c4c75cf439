-- ===== src/Secure/Conditions.antt =====
-- The meaning of the conditions that cond.rs and provider.rs build, row by row.
use hyperspot.Common.{
  ◌≡◌, refl, sym, ap, ◌∙◌, Bool, true, false, ◌&&◌, &&-true, ◌||◌, not, Option, none, some, List,
  [], ◌∷◌, map, ap₂, is_empty, any, if◌then◌else◌,
}
use mathlib.Core.Option
use hyperspot.Sql.{Sql, Truth, and3, is_true}
use hyperspot.Security.{AccessScope, Uuid, scope_is_empty}
use hyperspot.Secure.{ScopableEntity, deny_all, build_scope_condition}

is_true-and3 : (p q : Truth) → is_true (and3 p q) ≡ (is_true p && is_true q)
is_true-and3 none none = refl
is_true-and3 none (some true) = refl
is_true-and3 none (some false) = refl
is_true-and3 (some true) q = refl
is_true-and3 (some false) q = refl

&&-false : (b : Bool) → (b && false) ≡ false
&&-false true = refl
&&-false false = refl

module _ (db : Sql) where
  open db use {
    Cond, Col, Row, all, add, value, is_in, uuid, get, same, eval, eval-all, eval-value, eval-is_in,
  }

  abbrev pub accepts : Cond → Row → Bool
  accepts c r = is_true (eval r c)

  -- The value of a column is one of the ids; NULL is none of them.
  abbrev pub among : Row → Col → List Uuid → Bool
  among r c ids = elim (get r c) [ none ↦ false | some v ↦ any (same v) (map uuid ids) ]

  -- A restriction that an empty list of ids lifts, and a missing column makes unsatisfiable.
  abbrev pub restricted_to : Row → Option Col → List Uuid → Bool
  restricted_to r o ids =
      if is_empty ids then true else elim o [ none ↦ false | some c ↦ among r c ids ]

  -- The documented policy: an empty scope sees nothing, the root scope is not held to tenants, and
  -- the tenant and the resource restrictions hold together.
  abbrev pub visible : AccessScope → ScopableEntity Col → Row → Bool
  visible scope entity r =
      not (scope_is_empty scope)
      && ((scope.is_root || restricted_to r entity.tenant_col scope.tenant_ids)
          && restricted_to r entity.resource_col scope.resource_ids)

  pub accepts-add_all : (r : Row) (c : Cond) → accepts (add all c) r ≡ accepts c r
  accepts-add_all r c =
      ap is_true (eval-all r (c ∷ [])) ∙ is_true-and3 (eval r c) (some true) ∙ &&-true _

  pub accepts-add_both :
      (r : Row) (c d : Cond) → accepts (add (add all c) d) r ≡ (accepts c r && accepts d r)
  accepts-add_both r c d =
      ap is_true (eval-all r (c ∷ d ∷ []))
      ∙ is_true-and3 (eval r c) (and3 (eval r d) (some true))
      ∙ ap (λ b. accepts c r && b) (is_true-and3 (eval r d) (some true) ∙ &&-true _)

  accepts-all : (r : Row) → accepts all r ≡ true
  accepts-all r = ap is_true (eval-all r [])

  accepts-deny_all : (r : Row) → accepts (deny_all db) r ≡ false
  unfolding deny_all
  accepts-deny_all r = accepts-add_all r (value false) ∙ ap is_true (eval-value r false)

  pub accepts-is_in :
      (r : Row) (c : Col) (ids : List Uuid)
      → is_empty ids ≡ false
      → accepts (add all (is_in c (map uuid ids))) r ≡ among r c ids
  accepts-is_in r c [] h = cc
  accepts-is_in r c (i ∷ is) h =
      accepts-add_all r _ ∙ ap is_true (eval-is_in r c (uuid i) (map uuid is)) ∙ by_value (get r c)
    where
      by_value :
          (o : Option db.Val)
          → is_true (Option.map (λ x. any (same x) (map uuid (i ∷ is))) o)
            ≡ elim o [ none ↦ false | some v ↦ any (same v) (map uuid (i ∷ is)) ]
      by_value none = refl
      by_value (some v) = refl

  abbrev Means : AccessScope → ScopableEntity Col → Type 0
  Means scope entity =
      (c : Cond) × (build_scope_condition db scope entity ≡ some c)
      × ((r : Row) → accepts c r ≡ visible scope entity r)

  abbrev in_ids : Col → List Uuid → Cond
  in_ids c ids = add all (is_in c (map uuid ids))

  accepts-absent : (r : Row) → accepts (add all (value false)) r ≡ false
  accepts-absent r = accepts-add_all r (value false) ∙ ap is_true (eval-value r false)

  -- The cases of the policy, by what the scope gives and which columns the entity has.
  build-Means :
      (root : Bool) (ts rs : List Uuid) (tc rc oc yc : Option Col)
      → Means
          (record { is_root = root; tenant_ids = ts; resource_ids = rs })
          (record { tenant_col = tc; resource_col = rc; owner_col = oc; type_col = yc })
  unfolding build_scope_condition scope_is_empty
  build-Means true ts [] tc rc oc yc = (all, refl, accepts-all)
  build-Means true ts (x ∷ rs) tc none oc yc = (deny_all db, refl, accepts-deny_all)
  build-Means true ts (x ∷ rs) tc (some c) oc yc =
      (in_ids c (x ∷ rs), refl, λ r. accepts-is_in r c (x ∷ rs) refl)
  build-Means false [] [] tc rc oc yc = (deny_all db, refl, accepts-deny_all)
  build-Means false (t ∷ ts) [] none rc oc yc = (add all (value false), refl, accepts-absent)
  build-Means false (t ∷ ts) [] (some c) rc oc yc =
      (in_ids c (t ∷ ts), refl, λ r. accepts-is_in r c (t ∷ ts) refl ∙ sym (&&-true _))
  build-Means false [] (x ∷ rs) tc none oc yc = (deny_all db, refl, accepts-deny_all)
  build-Means false [] (x ∷ rs) tc (some c) oc yc =
      (in_ids c (x ∷ rs), refl, λ r. accepts-is_in r c (x ∷ rs) refl)
  build-Means false (t ∷ ts) (x ∷ rs) none none oc yc = (deny_all db, refl, accepts-deny_all)
  build-Means false (t ∷ ts) (x ∷ rs) (some c) none oc yc =
      (deny_all db, refl, λ r. accepts-deny_all r ∙ sym (&&-false _))
  build-Means false (t ∷ ts) (x ∷ rs) none (some d) oc yc = (
    add (add all (add all (value false))) (in_ids d (x ∷ rs)),
    refl,
    λ r. accepts-add_both r _ _ ∙ ap (λ b. b && accepts (in_ids d (x ∷ rs)) r) (accepts-absent r),
  )
  build-Means false (t ∷ ts) (x ∷ rs) (some c) (some d) oc yc = (
    add (add all (in_ids c (t ∷ ts))) (in_ids d (x ∷ rs)),
    refl,
    λ r.
        accepts-add_both r _ _
        ∙ ap₂ ◌&&◌ (accepts-is_in r c (t ∷ ts) refl) (accepts-is_in r d (x ∷ rs) refl),
  )

  -- For every scope and entity the builder gives a condition, without reaching its `unreachable!()`,
  -- and the condition holds of exactly the rows that the documented policy shows.
  pub build_scope_condition-visible :
      (scope : AccessScope) (entity : ScopableEntity Col)
      → (c : Cond) × (build_scope_condition db scope entity ≡ some c)
        × ((r : Row) → accepts c r ≡ visible scope entity r)
  build_scope_condition-visible scope entity =
      build-Means scope.is_root scope.tenant_ids scope.resource_ids entity.tenant_col
        entity.resource_col entity.owner_col entity.type_col
