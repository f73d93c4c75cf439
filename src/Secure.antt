-- ===== src/Secure.antt =====
-- libs/modkit-db/src/secure: row-level access control. cond.rs and provider.rs turn a scope into a
-- WHERE condition; select.rs, db_ops.rs and secure_conn.rs put it on every statement.
pub mod Conditions
pub mod Isolation
mod Tests
use hyperspot.Common.{
  ℕ, Bool, true, false, Option, none, some, List, [], ◌∷◌, ◌++◌, map, is_empty, ltb, contains,
  nat_key, if◌then◌else◌,
}
use hyperspot.Sql.{Sql, is_some}
use hyperspot.Security.{AccessScope, SecurityCtx, Uuid, scope_is_empty}

pub data ScopeError : Type 0 where
  db_error no_resource_col denied tenant_not_in_scope : ScopeError

pub data Result (A : Type 0) : Type 0 where
  ok : A → Result A
  err : ScopeError → Result A

infixl 5 ◌>>=◌
abbrev pub ◌>>=◌ : {A B : Type 0} → Result A → (A → Result B) → Result B
ok a >>= f = f a
err e >>= f = err e

-- `?` on what a statement gives: a `DbErr` becomes a `ScopeError`.
abbrev pub db_result : {A : Type 0} → Option A → Result A
db_result none = err db_error
db_result (some a) = ok a

-- `rows_affected > 0`.
abbrev pub deletion : {R : Type 0} → Option (List R × ℕ) → Result (List R × Bool)
deletion none = err db_error
deletion (some (t, n)) = ok (t, ltb 0 n)

-- The columns that an entity declares.
pub record ScopableEntity (Col : Type 0) : Type 0 where
  pub tenant_col : Option Col
  pub resource_col : Option Col
  pub owner_col : Option Col
  pub type_col : Option Col

module _ (db : Sql) where
  open db use {
    Cond, Col, Row, Select, all, add, value, is_in, eq, uuid, find, restrict, fetch, delete,
  }

  pub deny_all : Cond
  deny_all = add all (value false)

  pub tenant_condition : AccessScope → ScopableEntity Col → Option Cond
  tenant_condition scope entity =
      if scope.is_root
      then none
      else if is_empty scope.tenant_ids
      then none
      else some (elim entity.tenant_col [
        | none ↦ add all (value false)
        | some c ↦ add all (is_in c (map uuid scope.tenant_ids))
      ])

  -- `none` is the panic of `unreachable!()`.
  pub combine : Bool → List Cond → Option Cond
  unfolding deny_all
  combine is_root [] = some (if is_root then all else deny_all)
  combine is_root (only ∷ []) = some only
  combine is_root (a ∷ b ∷ []) = some (add (add all a) b)
  combine is_root (a ∷ b ∷ c ∷ cs) = none

  abbrev pushed : Option Cond → List Cond
  pushed none = []
  pushed (some c) = c ∷ []

  pub build_scope_condition : AccessScope → ScopableEntity Col → Option Cond
  unfolding deny_all tenant_condition combine
  build_scope_condition scope entity =
      let parts = pushed (tenant_condition scope entity) in
      if scope_is_empty scope
      then some deny_all
      else if is_empty scope.resource_ids
      then combine scope.is_root parts
      else elim entity.resource_col [
        | none ↦ some deny_all
        | some c ↦
            combine scope.is_root (parts ++ add all (is_in c (map uuid scope.resource_ids)) ∷ [])
      ]

  -- `scope_with` of a select, an update and a delete; the panic gives `none`.
  pub scope_with : Select → AccessScope → ScopableEntity Col → Option Select
  scope_with s scope entity = elim (build_scope_condition scope entity) [
    | none ↦ none
    | some c ↦ some (restrict s c)
  ]

  pub and_id : Select → ScopableEntity Col → Uuid → Result Select
  and_id s entity id = elim entity.resource_col [
    | none ↦ err no_resource_col
    | some c ↦ ok (restrict s (add all (eq c (uuid id))))
  ]

  -- The column is that of the joined entity.
  pub and_scope_for : Select → AccessScope → ScopableEntity Col → Select
  and_scope_for s scope joined = if is_empty scope.tenant_ids then s else elim joined.tenant_col [
    | none ↦ s
    | some c ↦ restrict s (add all (is_in c (map uuid scope.tenant_ids)))
  ]

  pub validate_tenant_in_scope : Uuid → AccessScope → Result (Unit {0})
  validate_tenant_in_scope id scope =
      if contains id scope.tenant_ids then ok tt else err tenant_not_in_scope

  -- SecureConn. A panic of `build_scope_condition` would be the outer `none`.
  pub conn_find : SecurityCtx → ScopableEntity Col → Option Select
  conn_find ctx entity = scope_with find ctx.scope entity

  pub conn_find_by_id : SecurityCtx → ScopableEntity Col → Uuid → Option (Result Select)
  conn_find_by_id ctx entity id = elim (conn_find ctx entity) [
    | none ↦ none
    | some s ↦ some (and_id s entity id)
  ]

  pub select_all : List Row → Select → Result (List Row)
  select_all t s = db_result (fetch t s)

  pub update_many : SecurityCtx → ScopableEntity Col → Option Select
  update_many ctx entity = scope_with find ctx.scope entity

  pub delete_many : SecurityCtx → ScopableEntity Col → Option Select
  delete_many ctx entity = scope_with find ctx.scope entity

  -- The table after the statement, and whether a row went.
  pub delete_by_id :
      List Row → SecurityCtx → ScopableEntity Col → Uuid → Option (Result (List Row × Bool))
  delete_by_id t ctx entity id = elim entity.resource_col [
    | none ↦ some (err no_resource_col)
    | some c ↦ elim (scope_with (restrict find (add all (eq c (uuid id)))) ctx.scope entity) [
      | none ↦ none
      | some s ↦ some (deletion (delete t s))
    ]
  ]

  -- `apply` is the statement of `am.update(conn)`, which finds its row by the key inside `am`.
  pub update_with_ctx :
      List Row
      → SecurityCtx
      → ScopableEntity Col
      → Uuid
      → (List Row → Option (List Row × Row))
      → Option (Result (List Row × Row))
  update_with_ctx t ctx entity id apply = elim (conn_find_by_id ctx entity id) [
    | none ↦ none
    | some (err e) ↦ some (err e)
    | some (ok s) ↦
        some (select_all t s >>= λ rows. if is_empty rows then err denied else db_result (apply t))
  ]
