-- ===== src/Schema/Types.antt =====
-- The status columns of migrations/versions as enumerations, and the JSON of an input schema.
use digital_services_platfor.Base.{ℕ, Bool, List, ℕ_discrete}
use digital_services_platfor.Int.{ℤ, ℤ-discrete}
use digital_services_platfor.Text.{Text, Text-discrete}

-- The values of UUID and BIGINT identity columns, which the program only compares.
abbrev pub RowId : Type 0
RowId = ℕ

pub data TransactionType : Type 0 where
  top_up bonus reserve capture release refund admin_adjustment : TransactionType

pub data OrderStatus : Type 0 where
  draft awaiting_payment reserved queued processing completed waiting_customer : OrderStatus
  awaiting_fulfillment fulfilling failed cancelled refunded : OrderStatus

pub data Currency : Type 0 where
  sar xtr other_currency : Currency

pub data JobStatus : Type 0 where
  pending queued processing completed failed : JobStatus

pub data AttemptStatus : Type 0 where
  processing failed completed : AttemptStatus

pub data FileStatus : Type 0 where
  uploading ready failed expired : FileStatus

pub data FileType : Type 0 where
  input output : FileType

pub data DeliveryStatus : Type 0 where
  pending sending sent failed : DeliveryStatus

pub data WorkflowStatus : Type 0 where
  collecting confirming submitted cancelled : WorkflowStatus

pub data ChargeStatus : Type 0 where
  paid delivered refund_pending refunded : ChargeStatus

pub data StarEventType : Type 0 where
  paid delivered refund_requested refunded : StarEventType

pub data PaymentStatus : Type 0 where
  pending paid failed : PaymentStatus

pub data ProcessorType : Type 0 where
  ai tool template manual hybrid : ProcessorType

pub data RequestStatus : Type 0 where
  collecting new in_review declined cancelled : RequestStatus

pub data InboxStatus : Type 0 where
  pending done rejected : InboxStatus

pub data ReceiptKind : Type 0 where
  paid refunded : ReceiptKind

unfoldable pub RequestStatus-discrete : Discrete RequestStatus
RequestStatus-discrete = hlevel

unfoldable pub InboxStatus-discrete : Discrete InboxStatus
InboxStatus-discrete = hlevel

unfoldable pub TransactionType-discrete : Discrete TransactionType
TransactionType-discrete = hlevel

unfoldable pub OrderStatus-discrete : Discrete OrderStatus
OrderStatus-discrete = hlevel

unfoldable pub Currency-discrete : Discrete Currency
Currency-discrete = hlevel

unfoldable pub JobStatus-discrete : Discrete JobStatus
JobStatus-discrete = hlevel

unfoldable pub AttemptStatus-discrete : Discrete AttemptStatus
AttemptStatus-discrete = hlevel

unfoldable pub FileStatus-discrete : Discrete FileStatus
FileStatus-discrete = hlevel

unfoldable pub FileType-discrete : Discrete FileType
FileType-discrete = hlevel

unfoldable pub DeliveryStatus-discrete : Discrete DeliveryStatus
DeliveryStatus-discrete = hlevel

unfoldable pub WorkflowStatus-discrete : Discrete WorkflowStatus
WorkflowStatus-discrete = hlevel

unfoldable pub ChargeStatus-discrete : Discrete ChargeStatus
ChargeStatus-discrete = hlevel

unfoldable pub StarEventType-discrete : Discrete StarEventType
StarEventType-discrete = hlevel

unfoldable pub PaymentStatus-discrete : Discrete PaymentStatus
PaymentStatus-discrete = hlevel

unfoldable pub ProcessorType-discrete : Discrete ProcessorType
ProcessorType-discrete = hlevel

-- A JSON value under a key of `input_schema`; `nested` stands for an array, an object or a float,
-- which no code looks into, by its text.
pub data Scalar : Type 0 where
  null : Scalar
  boolean : Bool → Scalar
  integer : ℤ → Scalar
  string : Text → Scalar
  nested : Text → Scalar

-- `input_schema` after `json.loads`. JSONB keeps the keys of an object sorted and without repeats,
-- so equal objects are equal lists.
pub data InputSchema : Type 0 where
  object : List (Text × Scalar) → InputSchema
  not_object : Text → InputSchema

unfoldable pub InputSchema-discrete : Discrete InputSchema
unfolding Text-discrete ℤ-discrete ℕ_discrete
InputSchema-discrete = hlevel ℕ_discrete

unfoldable pub RowIds-discrete : Discrete (List RowId)
unfolding ℕ_discrete
RowIds-discrete = hlevel ℕ_discrete
