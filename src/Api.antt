-- ===== src/Api.antt =====
-- The data that the client and the server exchange, and the failures of a request:
-- web/tstlan-web/lib/api.ts. Text is a list of UTF-16 code units; a number that the source only
-- compares for equality or as a count is a natural number.
use tstlan_web.Base.{ℕ, Bool, false, List, Option, ◌==◌}
use tstlan_web.Base.Text.{Str}
use tstlan_web.Base.Number.{Num}

pub data Role : Type 0 where
  admin dev user : Role

pub record Identity : Type 0 where
  pub login : Str
  pub role : Role
  pub csrf_token : Str

-- What a failed request throws: an `ApiError` with its status and detail, or another error, such as
-- that of a broken connection.
pub data Cause : Type 0 where
  api_error : (status : ℕ) (detail : Option Str) → Cause
  other : Cause

pub record UserSummary : Type 0 where
  pub login : Str
  pub role : Role

pub data DeviceStatus : Type 0 where
  ok offline error : DeviceStatus

pub data NetVarCType : Type 0 where
  bit u8 i8 u16 i16 u32 i32 u64 i64 f32 f64 : NetVarCType

pub data NetVarMode : Type 0 where
  r w rw : NetVarMode

pub record VariableInfo : Type 0 where
  pub name : Str
  pub ctype : NetVarCType
  pub mode : NetVarMode

pub record DeviceDetail : Type 0 where
  pub id : Str
  pub name : Str
  pub type : Str
  pub enabled : Bool
  pub status : DeviceStatus
  pub variables : List VariableInfo

pub data ConfigVisibility : Type 0 where
  private shared public : ConfigVisibility

pub data SharePermission : Type 0 where
  read write : SharePermission

pub data ConfigAccess : Type 0 where
  owner write read : ConfigAccess

pub data Transport : Type 0 where
  ethernet gpib com_port modbus_tcp modbus_udp : Transport

pub record ModbusMap : Type 0 where
  pub discrete_inputs_bytes : Num
  pub coils_bytes : Num
  pub holding_registers : Num
  pub input_registers : Num

pub record ConnectionSettings : Type 0 where
  pub transport : Transport
  pub ip : Option Str
  pub port : Option Num
  pub gpib_addr : Option Num
  pub com_name : Option Str
  pub ip_request : Option Str
  pub poll_period_ms : Num
  pub modbus : Option ModbusMap
  pub params : List (Str × Str)

pub record ConfigVar : Type 0 where
  pub name : Str
  pub ctype : NetVarCType
  pub graph : Bool
  pub category : Str

pub record ConfigPayload : Type 0 where
  pub connection : ConnectionSettings
  pub variables : List ConfigVar

pub record ShareInfo : Type 0 where
  pub login : Str
  pub permission : SharePermission

pub record ConfigSummary : Type 0 where
  pub id : ℕ
  pub name : Str
  pub device_type : Str
  pub visibility : ConfigVisibility
  pub owner_login : Str
  pub access : ConfigAccess
  pub created_at : Str
  pub updated_at : Str

-- The fields of a summary, and two more.
pub record ConfigDetail : Type 0 where
  pub summary : ConfigSummary
  pub open summary use *
  pub payload : ConfigPayload
  pub shares : List ShareInfo

pub record ConfigCreate : Type 0 where
  pub name : Str
  pub device_type : Str
  pub payload : ConfigPayload
  pub visibility : ConfigVisibility

-- An absent field is `none`.
pub record ConfigUpdate : Type 0 where
  pub name : Option Str
  pub payload : Option ConfigPayload
  pub visibility : Option ConfigVisibility

-- `status === n` of a cause that is an `ApiError`
unfoldable pub has_status : ℕ → Cause → Bool
has_status n (api_error status detail) = status == n
has_status n other = false

-- How a request ends: with its answer, or with what it throws.
pub data Result (A : Type 0) : Type 0 where
  success : A → Result A
  failure : Cause → Result A
