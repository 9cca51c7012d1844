-- ===== src/Orders/Models.antt =====
-- internal/features/orders: models/models.go, the inputs of repository/build.go, and
-- constants/constants.go.
use forecast_e_zoo.Common.{ℕ, Bool, Option, ◌||◌}
use forecast_e_zoo.Common.Text.{Text, codes, text_eq}
use forecast_e_zoo.Common.Time.{Time}
use forecast_e_zoo.Common.Int.{ℤ}

abbrev pub po_draft : Text
po_draft = codes "draft"

abbrev pub po_ready_to_send : Text
po_ready_to_send = codes "ready_to_send"

abbrev pub po_sent : Text
po_sent = codes "sent"

abbrev pub po_confirmed_by_erp : Text
po_confirmed_by_erp = codes "confirmed_by_erp"

abbrev pub po_cancelled : Text
po_cancelled = codes "cancelled"

abbrev pub plan_approved : Text
plan_approved = codes "approved"

abbrev pub plan_converted : Text
plan_converted = codes "converted"

abbrev pub source_product : Text
source_product = codes "product"

abbrev pub source_supplier_default : Text
source_supplier_default = codes "supplier_default"

abbrev pub source_missing : Text
source_missing = codes "missing"

unfoldable pub is_cancellable_status : Text → Bool
is_cancellable_status s =
    text_eq s po_draft
    || (text_eq s po_ready_to_send || (text_eq s po_sent || text_eq s po_confirmed_by_erp))

unfoldable pub is_regeneratable_status : Text → Bool
is_regeneratable_status s = text_eq s po_draft || text_eq s po_ready_to_send

-- A row of forecast.replenishment_plans.
pub record ApprovedPlan (V : Type 0) : Type 0 where
  pub id : ℕ
  pub run_id : ℕ
  pub supplier_id : Text
  pub location_id : Text
  pub plan_date : Time
  pub total_qty : V
  pub lines_count : ℤ

pub record PlanLine (V : Type 0) : Type 0 where
  pub product_id : Text
  pub location_id : Text
  pub supplier_id : Option Text
  pub reorder_qty : V

pub record SupplierMaster (V : Type 0) : Type 0 where
  pub supplier_id : Text
  pub currency : Text
  pub lead_time_days : ℤ
  pub default_unit_price : Option V
  pub has_mart_row : Bool

pub record ProductMaster (V : Type 0) : Type 0 where
  pub product_id : Text
  pub unit_price : Option V
  pub has_mart_row : Bool

-- A date stands for its midnight.
pub record InsertPoInput (V : Type 0) : Type 0 where
  pub po_number : Text
  pub plan_id : ℕ
  pub supplier_id : Text
  pub location_id : Text
  pub total_qty : V
  pub total_amount : Option V
  pub currency : Text
  pub delivery_date : Option Time
  pub notes : Option Text

pub record BulkLine (V : Type 0) : Type 0 where
  pub product_id : Text
  pub qty : V
  pub unit_price : Option V
  pub line_amount : Option V
  pub pricing_source : Text

-- A row of orders.purchase_orders.
pub record PurchaseOrder (V : Type 0) : Type 0 where
  pub id : ℕ
  pub order : InsertPoInput V
  pub status : Text
  pub sent_at : Option Time
  pub cancel_reason : Option Text

-- A row of orders.po_lines.
pub record PoLine (V : Type 0) : Type 0 where
  pub po_id : ℕ
  pub line : BulkLine V

-- A row of orders.po_status_history.
pub record PoStatusHistory : Type 0 where
  pub po_id : ℕ
  pub from_status : Option Text
  pub to_status : Text
  pub reason : Option Text
  pub changed_by : Option Text

pub record BuildResult : Type 0 where
  pub run_id : ℕ
  pub plans_processed : ℕ
  pub pos_created : ℕ
  pub skipped : ℕ
  pub errors : ℕ

pub record CancelInput : Type 0 where
  pub po_id : ℕ
  pub reason : Text
  pub changed_by : Text
