-- ===== src/Secure/Tests.antt =====
-- Scoped statements on a table of three rows, and the theorems there.
use hyperspot.Common.{
  ℕ, ◌≡◌, refl, true, false, ◌&&◌, not, Option, none, some, List, [], ◌∷◌, any, filter,
  if◌then◌else◌,
}
use hyperspot.Sql.Toy.{toy, Row}
use hyperspot.Security.{SecurityCtx, scope_is_empty}
use hyperspot.Secure.{
  ScopableEntity, Result, ok, err, denied, db_result, build_scope_condition, conn_find, select_all,
  delete_by_id, update_with_ctx,
}
use hyperspot.Secure.Conditions.{accepts, visible, build_scope_condition-visible}
use hyperspot.Secure.Isolation.{has_id, delete_by_id-visible, update_with_ctx_lem}

-- Column 0 is the tenant, column 1 the id.
abbrev entity : ScopableEntity ℕ
entity = record { tenant_col = some 0; resource_col = some 1; owner_col = none; type_col = none }

abbrev table : List Row
table = (some 7 ∷ some 1 ∷ []) ∷ (some 8 ∷ some 2 ∷ []) ∷ (none ∷ some 3 ∷ []) ∷ []

abbrev ctx : SecurityCtx
ctx = record {
  scope = record { is_root = false; tenant_ids = 7 ∷ []; resource_ids = [] };
  subject = record { id = 100 };
}

build_scope_condition-visible_example :
    (c : toy.Cond) × (build_scope_condition toy ctx.scope entity ≡ some c)
    × ((r : Row) → accepts toy c r ≡ visible toy ctx.scope entity r)
build_scope_condition-visible_example = build_scope_condition-visible toy ctx.scope entity

abbrev scoped : List toy.Cond
scoped = toy.add toy.all (toy.is_in 0 (7 ∷ [])) ∷ []

abbrev nobody : SecurityCtx
nobody = record {
  scope = record { is_root = false; tenant_ids = []; resource_ids = [] };
  subject = record { id = 100 };
}

abbrev denied_select : List toy.Cond
denied_select = toy.add toy.all (toy.value false) ∷ []

denied_find : conn_find toy nobody entity ≡ some denied_select
unfolding conn_find hyperspot.Secure.scope_with build_scope_condition scope_is_empty
    hyperspot.Secure.deny_all
denied_find = refl

denied_rows : select_all toy table denied_select ≡ ok []
unfolding select_all
denied_rows = refl

abbrev remaining : List Row
remaining = (some 8 ∷ some 2 ∷ []) ∷ (none ∷ some 3 ∷ []) ∷ []

delete_by_id-visible_example :
    (remaining ≡ filter (λ r. not (has_id toy 1 1 r && visible toy ctx.scope entity r)) table)
    × (true ≡ any (λ r. has_id toy 1 1 r && visible toy ctx.scope entity r) table)
unfolding delete_by_id hyperspot.Secure.scope_with build_scope_condition scope_is_empty
delete_by_id-visible_example =
    delete_by_id-visible toy table remaining ctx entity 1 1 true refl refl

-- A statement whose own key is that of another tenant's row: the check passes by the id 1, and the
-- row of tenant 8 is changed.
abbrev foreign_update : List Row → Option (List Row × Row)
foreign_update t = some (
  (some 7 ∷ some 1 ∷ []) ∷ (some 8 ∷ some 99 ∷ []) ∷ (none ∷ some 3 ∷ []) ∷ [],
  some 8 ∷ some 99 ∷ [],
)

update_with_ctx_lem_example :
    update_with_ctx toy table ctx entity 1 foreign_update
    ≡ some (
        if any (λ r. visible toy ctx.scope entity r && has_id toy 1 1 r) table
        then db_result (foreign_update table)
        else err denied)
update_with_ctx_lem_example =
    update_with_ctx_lem toy table ctx entity 1 1 foreign_update refl (λ s. refl)
