-- ===== src/Secure/Isolation.antt =====
-- What a request can read and write through SecureConn: the rows that its scope shows, and no other.
use mathlib.Core.Path.{fun_ext}
use hyperspot.Common.{
  ◌≡◌, refl, sym, ap, ap₂, ◌∙◌, inl, inr, Bool, true, false, ◌&&◌, not, Option, none, some, List,
  [], ◌∷◌, is_empty, any, filter, length, ltb, if◌then◌else◌, arith, Option-cases,
}
use mathlib.Core.Option
use hyperspot.Sql.{Sql, is_true}
use hyperspot.Security.{AccessScope, SecurityCtx, Uuid, scope_is_empty}
use hyperspot.Secure.{
  ScopableEntity, ok, err, denied, db_result, deletion, scope_with, and_id, conn_find,
  conn_find_by_id, select_all, delete_by_id, update_with_ctx,
}
use hyperspot.Secure.Conditions.{accepts, visible, accepts-add_all, build_scope_condition-visible}

filter-false :
    {A : Type 0} (p : A → Bool) (xs : List A) → ((a : A) → p a ≡ false) → filter p xs ≡ []
filter-false p [] h = refl
filter-false p (x ∷ xs) h = rw (h x) (filter-false p xs h)

is_empty-filter :
    {A : Type 0} (p : A → Bool) (xs : List A) → is_empty (filter p xs) ≡ not (any p xs)
is_empty-filter p [] = refl
is_empty-filter p (x ∷ xs) = ground (arith, is_empty-filter p xs)

length_pos-any : {A : Type 0} (p : A → Bool) (xs : List A) → ltb 0 (length (filter p xs)) ≡ any p xs
length_pos-any p [] = refl
length_pos-any p (x ∷ xs) = ground (arith, length_pos-any p xs)

module _ (db : Sql) where
  open db use {
    Cond, Col, Row, Select, all, add, eq, uuid, get, same, eval, eval-eq, find, restrict, takes,
    fetch, delete, takes-find, takes-restrict, fetch-rows, delete-rows,
  }

  -- Every scoped statement takes what it took before, where the policy shows the row.
  scope_with-takes :
      (s : Select) (scope : AccessScope) (entity : ScopableEntity Col)
      → (q : Select) × (scope_with db s scope entity ≡ some q)
        × ((r : Row) → takes q r ≡ (takes s r && visible db scope entity r))
  unfolding scope_with
  scope_with-takes s scope entity =
      let (c, e, h) = build_scope_condition-visible db scope entity in
      (restrict s c, rw (e, scope_with), λ r. takes-restrict s c r ∙ ap (λ b. takes s r && b) (h r))

  conn_find-takes :
      (ctx : SecurityCtx) (entity : ScopableEntity Col)
      → (q : Select) × (conn_find db ctx entity ≡ some q)
        × ((r : Row) → takes q r ≡ visible db ctx.scope entity r)
  unfolding conn_find
  conn_find-takes ctx entity =
      let (q, e, h) = scope_with-takes find ctx.scope entity in
      (q, e, λ r. h r ∙ ap (λ b. b && visible db ctx.scope entity r) (takes-find r))

  pub select_all-visible :
      (ctx : SecurityCtx) (entity : ScopableEntity Col) (t rows : List Row) (s : Select)
      → conn_find db ctx entity ≡ some s
      → select_all db t s ≡ ok rows
      → rows ≡ filter (visible db ctx.scope entity) t
  unfolding select_all
  select_all-visible ctx entity t rows s found answered =
      let (q, e, h) = conn_find-takes ctx entity in
      let same_select : q ≡ s = cc in
      let fetched : fetch t s ≡ some rows = ground arith in
      fetch-rows t s fetched
      ∙ ap (λ p. filter p t) (fun_ext (λ r. ap (λ x. takes x r) (sym same_select) ∙ h r))

  -- A request with an empty scope reads nothing, whatever the entity and the table.
  is_denied-reads-nothing :
      (ctx : SecurityCtx) (entity : ScopableEntity Col) (t rows : List Row) (s : Select)
      → scope_is_empty ctx.scope ≡ true
      → conn_find db ctx entity ≡ some s
      → select_all db t s ≡ ok rows
      → rows ≡ []
  is_denied-reads-nothing ctx entity t rows s empty found answered =
      select_all-visible ctx entity t rows s found answered ∙ filter-false _ t (λ r. rw empty)

  -- The row's id, by the entity's resource column.
  abbrev pub has_id : Col → Uuid → Row → Bool
  has_id c id r = elim (get r c) [ none ↦ false | some v ↦ same v (uuid id) ]

  by_id-accepts :
      (c : Col) (id : Uuid) (r : Row) → accepts db (add all (eq c (uuid id))) r ≡ has_id c id r
  by_id-accepts c id r =
      accepts-add_all db r _ ∙ ap is_true (eval-eq r c (uuid id)) ∙ by_value (get r c)
    where
      by_value :
          (o : Option db.Val)
          → is_true (Option.map (λ x. same x (uuid id)) o)
            ≡ elim o [ none ↦ false | some v ↦ same v (uuid id) ]
      by_value none = refl
      by_value (some v) = refl

  -- The statement that the delete by id comes down to.
  delete_by_id_run :
      (t : List Row) (ctx : SecurityCtx) (entity : ScopableEntity Col) (c : Col) (id : Uuid)
      (q : Select)
      → entity.resource_col ≡ some c
      → scope_with db (restrict find (add all (eq c (uuid id)))) ctx.scope entity ≡ some q
      → delete_by_id db t ctx entity id ≡ some (deletion (delete t q))
  unfolding delete_by_id
  delete_by_id_run t ctx entity c id q col e = ground arith

  by_id_takes :
      (scope : AccessScope) (entity : ScopableEntity Col) (c : Col) (id : Uuid) (q : Select)
      → ((r : Row)
          → takes q r
            ≡ (takes (restrict find (add all (eq c (uuid id)))) r && visible db scope entity r))
      → (r : Row) → takes q r ≡ (has_id c id r && visible db scope entity r)
  by_id_takes scope entity c id q h r =
      h r
      ∙ ap (λ x. x && visible db scope entity r)
          (takes-restrict find (add all (eq c (uuid id))) r
            ∙ ap₂ ◌&&◌ (takes-find r) (by_id-accepts c id r))

  deleted :
      (t t' : List Row) (q : Select) (b : Bool)
      → deletion (delete t q) ≡ ok (t', b)
      → (t' ≡ filter (λ r. not (takes q r)) t) × (b ≡ any (takes q) t)
  deleted t t' q b done = elim (Option-cases (delete t q)) [
    | inl none_back ↦ absurd (ground arith)
    | inr ((t2, n), back) ↦
        let (rows, count) = delete-rows t q back in
        let same_rows : t' ≡ t2 = ground arith in
        let same_flag : b ≡ ltb 0 n = ground arith in
        (same_rows ∙ rows, same_flag ∙ ap (ltb 0) count ∙ length_pos-any (takes q) t)
  ]

  -- A successful delete by id removes the rows that have the id and are visible, keeps every other
  -- row, and says whether there was such a row.
  pub delete_by_id-visible :
      (t t' : List Row) (ctx : SecurityCtx) (entity : ScopableEntity Col) (c : Col) (id : Uuid)
      (b : Bool)
      → entity.resource_col ≡ some c
      → delete_by_id db t ctx entity id ≡ some (ok (t', b))
      → (t' ≡ filter (λ r. not (has_id c id r && visible db ctx.scope entity r)) t)
        × (b ≡ any (λ r. has_id c id r && visible db ctx.scope entity r) t)
  delete_by_id-visible t t' ctx entity c id b col done =
      let (q, e, h) =
        scope_with-takes (restrict find (add all (eq c (uuid id)))) ctx.scope entity in
      let run = delete_by_id_run t ctx entity c id q col e in
      let (rows, flag) = deleted t t' q b (ground arith) in
      let meant = fun_ext (by_id_takes ctx.scope entity c id q h) in
      (rows ∙ ap (λ p. filter (λ r. not (p r)) t) meant, flag ∙ ap (λ p. any p t) meant)

  update_with_ctx_run :
      (t : List Row) (ctx : SecurityCtx) (entity : ScopableEntity Col) (c : Col) (id : Uuid)
      (apply : List Row → Option (List Row × Row)) (q : Select)
      → entity.resource_col ≡ some c
      → conn_find db ctx entity ≡ some q
      → fetch t (restrict q (add all (eq c (uuid id))))
        ≡ some (filter (takes (restrict q (add all (eq c (uuid id))))) t)
      → update_with_ctx db t ctx entity id apply
        ≡ some (
            if any (takes (restrict q (add all (eq c (uuid id))))) t
            then db_result (apply t)
            else err denied)
  unfolding update_with_ctx conn_find_by_id and_id select_all
  update_with_ctx_run t ctx entity c id apply q col e fetched =
      ground (arith, is_empty-filter (takes (restrict q (add all (eq c (uuid id))))) t)

  -- Where the select succeeds, `update_with_ctx` denies if no visible row has the id, and otherwise
  -- gives what the statement gives: which rows the statement changes is not looked at.
  pub update_with_ctx_lem :
      (t : List Row) (ctx : SecurityCtx) (entity : ScopableEntity Col) (c : Col) (id : Uuid)
      (apply : List Row → Option (List Row × Row))
      → entity.resource_col ≡ some c
      → ((s : Select) → fetch t s ≡ some (filter (takes s) t))
      → update_with_ctx db t ctx entity id apply
        ≡ some (
            if any (λ r. visible db ctx.scope entity r && has_id c id r) t
            then db_result (apply t)
            else err denied)
  update_with_ctx_lem t ctx entity c id apply col works =
      let (q, e, h) = conn_find-takes ctx entity in
      update_with_ctx_run t ctx entity c id apply q col e (works _)
      ∙ ap (λ p. some (if any p t then db_result (apply t) else err denied))
          (fun_ext (λ r.
            takes-restrict q (add all (eq c (uuid id))) r ∙ ap₂ ◌&&◌ (h r) (by_id-accepts c id r)))
