-- ===== src/Filter/Nodes.antt =====
-- What a typed filter says of a row, and that filter_node_to_condition of sea_orm_filter.rs answers
-- with a condition that says it, for filters of any shape.
use hyperspot.Common.{
  ◌≡◌, refl, sym, ap₂, subst, ◌∙◌, ◌⊎◌, inl, inr, Bool, true, false, ◌&&◌, none, some, List, [],
  ◌∷◌, map, foldl,
}
use hyperspot.Common.Results.{Result, ok, err}
use hyperspot.Sql.{Sql, Truth, and3, or3, not3, all3, any3}
use hyperspot.Odata.Ast.{Literals}
use hyperspot.Filter.Coerce.{FilterSql}
use hyperspot.Filter.Connectives.{Means, Means-not}
use hyperspot.Filter.Typed.{
  FilterOp, FilterNode, FilterNodes, binary, composite, not_node, no_nodes, nodes,
}
use hyperspot.Filter.Columns.{ConditionError, filter_node_to_condition, add_children}
use hyperspot.Filter.Conditions.{binary_supported, binary_test, build_binary_condition-Means}

module _ (db : Sql) (l : Literals) (fs : FilterSql db l) (F : Type 0) (map_field : F → db.Col) where
  open db use {Cond, Row, all, any, add, eval}

  unfoldable mutual
    -- A composite of operands combines them all, an empty AND is true and an empty OR false.
    pub node_holds : FilterNode F l → Row → Truth
    node_holds (binary f op v) r = binary_test db l fs op v (db.get r (map_field f))
    node_holds (composite FilterOp.and children) r = all_hold children r
    node_holds (composite FilterOp.or children) r = any_holds children r
    node_holds (composite op children) r = none
    node_holds (not_node n) r = not3 (node_holds n r)

    pub all_hold : FilterNodes F l → Row → Truth
    all_hold no_nodes r = some true
    all_hold (nodes n ns) r = and3 (node_holds n r) (all_hold ns r)

    pub any_holds : FilterNodes F l → Row → Truth
    any_holds no_nodes r = some false
    any_holds (nodes n ns) r = or3 (node_holds n r) (any_holds ns r)

  unfoldable mutual
    pub node_supported : FilterNode F l → Bool
    node_supported (binary f op v) = binary_supported db l fs op v
    node_supported (composite FilterOp.and children) = all_supported children
    node_supported (composite FilterOp.or children) = all_supported children
    node_supported (composite op children) = false
    node_supported (not_node n) = node_supported n

    pub all_supported : FilterNodes F l → Bool
    all_supported no_nodes = true
    all_supported (nodes n ns) = node_supported n && all_supported ns

  abbrev condition : FilterNode F l → Result (ConditionError l) Cond
  condition n = filter_node_to_condition db l fs F map_field n

  abbrev fold_children : Cond → FilterNodes F l → Result (ConditionError l) Cond
  fold_children acc ns = add_children db l fs F map_field acc ns

  -- The conditions that the loop adds, or an error whatever it started from.
  abbrev Children : FilterNodes F l → Type 0
  Children ns =
      ((all_supported ns ≡ true)
        × (ds : List Cond) × ((acc : Cond) → fold_children acc ns ≡ ok (foldl add acc ds))
        × ((r : Row)
            → (all3 (map (eval r) ds) ≡ all_hold ns r) × (any3 (map (eval r) ds) ≡ any_holds ns r)))
      ⊎ ((all_supported ns ≡ false)
          × ((acc : Cond) → (e : ConditionError l) × (fold_children acc ns ≡ err e)))

  Children-nodes :
      (n : FilterNode F l) (ns : FilterNodes F l) (x : Result (ConditionError l) Cond)
      → condition n ≡ x
      → Means db (node_supported n) (node_holds n) x
      → Children ns
      → Children (nodes n ns)
  unfolding node_holds node_supported filter_node_to_condition
  Children-nodes n ns (ok c) e (g, h) (inl (g', ds, adds, says)) = inl (
    rw (g, g') refl,
    c ∷ ds,
    λ acc. rw e (adds (add acc c)),
    λ r. (ap₂ and3 (h r) (says r).0, ap₂ or3 (h r) (says r).1),
  )
  Children-nodes n ns (ok c) e (g, h) (inr (g', bad)) =
      inr (rw (g, g') refl, λ acc. let (x, e') = bad (add acc c) in (x, rw e e'))
  Children-nodes n ns (err x) e g rest = inr (rw g refl, λ acc. (x, rw e refl))

  Children-and :
      (ns : FilterNodes F l)
      → Children ns
      → Means db (all_supported ns) (all_hold ns) (fold_children all ns)
  Children-and ns (inl (g, ds, adds, says)) =
      subst (λ x. Means db (all_supported ns) (all_hold ns) x) (sym (adds all))
        (g, λ r. db.eval-all r ds ∙ (says r).0)
  Children-and ns (inr (g, bad)) =
      let (x, e) = bad all in subst (λ y. Means db (all_supported ns) (all_hold ns) y) (sym e) g

  Children-or :
      (ns : FilterNodes F l)
      → Children ns
      → Means db (all_supported ns) (any_holds ns) (fold_children any ns)
  Children-or ns (inl (g, ds, adds, says)) =
      subst (λ x. Means db (all_supported ns) (any_holds ns) x) (sym (adds any))
        (g, λ r. db.eval-any r ds ∙ (says r).1)
  Children-or ns (inr (g, bad)) =
      let (x, e) = bad any in subst (λ y. Means db (all_supported ns) (any_holds ns) y) (sym e) g

  mutual
    unfolding node_holds node_supported filter_node_to_condition

    node-Means : (n : FilterNode F l) → Means db (node_supported n) (node_holds n) (condition n)
    node-Means (binary f op v) = build_binary_condition-Means db l fs (map_field f) op v
    node-Means (composite FilterOp.and children) = Children-and children (nodes-Means children)
    node-Means (composite FilterOp.or children) = Children-or children (nodes-Means children)
    node-Means (composite op children) = refl
    node-Means (not_node n) =
        Means-not db (node_supported n) (node_holds n) (condition n) (node-Means n)

    nodes-Means : (ns : FilterNodes F l) → Children ns
    nodes-Means no_nodes = inl (refl, [], λ acc. refl, λ r. (refl, refl))
    nodes-Means (nodes n ns) =
        Children-nodes n ns (condition n) refl (node-Means n) (nodes-Means ns)

  -- A typed filter of any shape becomes a condition that says of every row what the filter says, where
  -- every operation in it has an operand that it takes; and an error otherwise.
  pub filter_node_to_condition-Means :
      (n : FilterNode F l)
      → Means db (node_supported n) (node_holds n) (filter_node_to_condition db l fs F map_field n)
  filter_node_to_condition-Means n = node-Means n
