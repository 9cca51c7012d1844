-- ===== src/Orders/Service/Plans.antt =====
-- What the build of an order from one approved plan writes.
use mathlib.Core.Path.{◌≡◌, refl, sym, ap, ◌∙◌, subst}
use mathlib.Core.List.{append-nil}
use forecast_e_zoo.Common.{
  ℕ, suc, true, false, List, [], ◌∷◌, ◌++◌, inl, inr, ◌⊎◌, arith, if◌then◌else◌, List-cases, ◌==◌,
  map,
}
use forecast_e_zoo.Common.Text.{Text, text_eq}
use forecast_e_zoo.Common.Time.{Time}
use forecast_e_zoo.Common.Float.{Float64}
use forecast_e_zoo.Common.Dict.{Dict, insert}
use forecast_e_zoo.Common.Session.{Result, Session, failed, statement, bind-keeps, bind-ends, ◌>>=◌}
use forecast_e_zoo.Orders.Models.{
  ApprovedPlan, PlanLine, ProductMaster, SupplierMaster, plan_approved, plan_converted,
}
use forecast_e_zoo.Orders.Tables.{
  PlanRow, OrderTables, OrderAction, new_order, any_approved, convert_plans, get_product_master,
  get_supplier_master, next_sequence_tx, insert_purchase_order_tx, insert_po_lines_bulk_tx,
  insert_po_status_history_tx, mark_plan_converted_tx,
}
use forecast_e_zoo.Orders.Service.{
  Printing, no_master, inputs, unique_product_ids, load_products, write_order, build_from_lines,
}
use forecast_e_zoo.Orders.Builder.{Inputs, Outputs, build}

converted_not_approved : text_eq plan_converted plan_approved ≡ false
unfolding text_eq
converted_not_approved = refl

any_approved-convert_plans :
    {V : Type 0} (id j : ℕ) (rs : List (PlanRow V))
    → any_approved id (convert_plans j rs) ≡ (if j == id then false else any_approved id rs)
unfolding any_approved convert_plans
any_approved-convert_plans id j [] = ground arith
any_approved-convert_plans id j (r ∷ rs) =
    ground (arith, converted_not_approved, any_approved-convert_plans id j rs)

mark_plan_converted_tx-cases :
    {V : Type 0} (id : ℕ) (db : Session (OrderTables V))
    → let (res, db') = mark_plan_converted_tx id db in
      ((db'.tables ≡ db.tables) × (failed res ≡ true))
      ⊎ (any_approved id db.tables.plans ≡ true)
        × (db'.tables ≡ record db.tables { plans = convert_plans id db.tables.plans })
unfolding mark_plan_converted_tx statement
mark_plan_converted_tx-cases id db = ground arith

-- Marking a plan as converted is refused, with no table changed, unless the plan is approved; and
-- when it succeeds that plan is no longer approved, so that a second marking is refused, and which
-- other plans are approved stays the same.
pub mark_plan_converted_tx-once :
    {V : Type 0} (id : ℕ) (db : Session (OrderTables V))
    → let (res, db') = mark_plan_converted_tx id db in
      ((db'.tables ≡ db.tables) × (failed res ≡ true))
      ⊎ (any_approved id db.tables.plans ≡ true)
        × ((j : ℕ)
            → any_approved j db'.tables.plans
              ≡ (if id == j then false else any_approved j db.tables.plans))
mark_plan_converted_tx-once id db = elim (mark_plan_converted_tx-cases id db) [
  | inl same ↦ inl same
  | inr (h, t) ↦ inr (h, λ j. rw t (any_approved-convert_plans j id db.tables.plans))
]

module _ (f : Float64) (print : Printing) where
  open f use {Val}

  get_product_master-same :
      (id : Text) (db : Session (OrderTables Val)) → (get_product_master id db).1.tables ≡ db.tables
  unfolding get_product_master statement
  get_product_master-same id db = ground arith

  load_products-same :
      (ids : List Text) (products : Dict (ProductMaster Val)) (db : Session (OrderTables Val))
      → (load_products f print ids products db).1.tables ≡ db.tables
  unfolding load_products
  load_products-same [] products db = refl
  load_products-same (id ∷ ids) products db =
      bind-keeps (λ t. t ≡ db.tables) (get_product_master id)
        (λ pm. load_products f print ids (insert id pm products)) db (get_product_master-same id db)
        (λ pm.
          load_products-same ids (insert id pm products) (get_product_master id db).1
          ∙ get_product_master-same id db)

  -- What a build that succeeded has written: the order, of the next id, its lines and its record.
  abbrev pub Written : ℕ → Outputs f → OrderTables Val → OrderTables Val → Type 0
  Written plan_id out t t' =
      (any_approved plan_id t.plans ≡ true)
      × (t'.plans ≡ convert_plans plan_id t.plans)
      × (t'.next_id ≡ suc t.next_id)
      × (t'.orders ≡ t.orders ++ new_order t.next_id out.order ∷ [])
      × (t'.lines ≡ t.lines ++ map (λ b. record { po_id = t.next_id; line = b }) out.lines)

  write_order-Written :
      (plan_id : ℕ) (out : Outputs f) (db : Session (OrderTables Val))
      → let (res, db') = write_order f print plan_id out db in
        (failed res ≡ true) ⊎ Written plan_id out db.tables db'.tables
  unfolding write_order insert_purchase_order_tx insert_po_lines_bulk_tx insert_po_status_history_tx
      mark_plan_converted_tx statement
  write_order-Written plan_id out db = elim (List-cases out.lines) [
    | inl e ↦ ground (arith, e, append-nil db.tables.lines)
    | inr (l, ls, e) ↦ ground (arith, e)
  ]

  -- The inputs that a build assembles, as far as they say where the order comes from.
  abbrev pub From : ApprovedPlan Val → List (PlanLine Val) → Inputs f → Type 0
  From p lines i = (i.plan ≡ p) × (i.lines ≡ lines)

  get_supplier_master-same :
      (absent : Text → SupplierMaster Val) (id : Text) (db : Session (OrderTables Val))
      → (get_supplier_master absent id db).1.tables ≡ db.tables
  unfolding get_supplier_master statement
  get_supplier_master-same absent id db = ground arith

  -- The tables that a build writes are the same, whatever the sequence.
  abbrev pub SameButSequence : OrderTables Val → OrderTables Val → Type 0
  SameButSequence t t' =
      (t'.plans ≡ t.plans)
      × (t'.next_id ≡ t.next_id)
      × (t'.orders ≡ t.orders)
      × (t'.lines ≡ t.lines)

  next_sequence_tx-moves :
      (db : Session (OrderTables Val)) → SameButSequence db.tables (next_sequence_tx db).1.tables
  unfolding next_sequence_tx statement
  next_sequence_tx-moves db = ground arith

  -- Building an order from the lines of a plan, whichever statements the database refuses, either
  -- fails, or the plan was approved and is no longer, and one order is added, of the next id, with
  -- its lines: those that `Build` assembles from this plan, these lines and some masters.
  pub build_from_lines-Written :
      (p : ApprovedPlan Val) (now : Time) (lines : List (PlanLine Val))
      (db : Session (OrderTables Val))
      → let (res, db') = build_from_lines f print p now lines db in
        (failed res ≡ true)
        ⊎ ((i : Inputs f) × From p lines i
            × Written p.id (build f print.quoted now i) db.tables db'.tables)
  unfolding build_from_lines
  build_from_lines-Written p now lines db =
      bind-ends Q (get_supplier_master (no_master f print) p.supplier_id) load db (λ e s. inl refl)
        (λ supplier.
          bind-ends Q (load_products f print (unique_product_ids lines) []) (number supplier) db1
            (λ e s. inl refl)
            (λ products.
              bind-ends Q next_sequence_tx (write supplier products) db2 (λ e s. inl refl)
                (λ sequence.
                  wrote (inputs f print p now lines supplier products sequence) (refl, refl))))
    where
      Q : Result (Unit {0}) × Session (OrderTables Val) → Type 0
      Q out =
          (failed out.0 ≡ true)
          ⊎ ((i : Inputs f) × From p lines i
              × Written p.id (build f print.quoted now i) db.tables out.1.tables)

      write : SupplierMaster Val → Dict (ProductMaster Val) → ℕ → OrderAction Val (Unit {0})
      write supplier products sequence =
          write_order f print p.id
            (build f print.quoted now (inputs f print p now lines supplier products sequence))

      number : SupplierMaster Val → Dict (ProductMaster Val) → OrderAction Val (Unit {0})
      number supplier products = next_sequence_tx >>= write supplier products

      load : SupplierMaster Val → OrderAction Val (Unit {0})
      load supplier = load_products f print (unique_product_ids lines) [] >>= number supplier

      db1 : Session (OrderTables Val)
      db1 = (get_supplier_master (no_master f print) p.supplier_id db).1

      db2 : Session (OrderTables Val)
      db2 = (load_products f print (unique_product_ids lines) [] db1).1

      same : db2.tables ≡ db.tables
      same =
          load_products-same (unique_product_ids lines) [] db1
          ∙ get_supplier_master-same (no_master f print) p.supplier_id db

      moved : SameButSequence db.tables (next_sequence_tx db2).1.tables
      moved =
          subst (λ t. SameButSequence t (next_sequence_tx db2).1.tables) same
            (next_sequence_tx-moves db2)

      wrote :
          (i : Inputs f)
          → From p lines i
          → Q (write_order f print p.id (build f print.quoted now i) (next_sequence_tx db2).1)
      wrote i from =
          elim (write_order-Written p.id (build f print.quoted now i) (next_sequence_tx db2).1) [
            | inl e ↦ inl e
            | inr (a, b, c, d, e) ↦
                let (ps, n, os, ls) = moved in
                inr (
                  i,
                  from,
                  (
                    sym (ap (any_approved p.id) ps) ∙ a,
                    b ∙ ap (convert_plans p.id) ps,
                    c ∙ ap suc n,
                    d ∙ rw (os, n) refl,
                    e ∙ rw (ls, n) refl,
                  ),
                )
          ]
