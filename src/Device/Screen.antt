-- ===== src/Device/Screen.antt =====
-- What the page of a device shows: the notices of `DeviceMonitor`, its search, `DeviceHeader`,
-- `ConnectionBadge` and `VariableTable` of web/tstlan-web/components/device-monitor.tsx, and the labels
-- of web/tstlan-web/lib/devices.ts. `toLowerCase` is a parameter.
use tstlan_web.Base.{ℕ, Bool, ◌||◌, List, [], ◌∷◌, map, Option, none, some, length, keep}
use tstlan_web.Base.Text.{Str, codes, trim}
use tstlan_web.Api.{DeviceStatus, NetVarMode, VariableInfo, DeviceDetail}
use tstlan_web.Device.Panel.{starts_with}
use tstlan_web.Device.Monitor.{LoadState, Connection, Monitor}
use tstlan_web.Device.Write.{Row, row_of}
use tstlan_web.Device.Charts.{Prints, format_value, Panel, PanelView, panel_view}

-- `STATUS_META[status].label`
unfoldable pub status_label : DeviceStatus → Str
status_label DeviceStatus.ok = codes "В сети"
status_label DeviceStatus.offline = codes "Не в сети"
status_label DeviceStatus.error = codes "Ошибка"

-- `CONNECTION_META[connection].label`
unfoldable pub connection_label : Connection → Str
connection_label Connection.connecting = codes "подключение"
connection_label Connection.live = codes "поток"
connection_label Connection.lost = codes "нет связи"

-- `MODE_META[mode].label`
unfoldable pub mode_label : NetVarMode → Str
mode_label NetVarMode.r = codes "RO"
mode_label NetVarMode.w = codes "WO"
mode_label NetVarMode.rw = codes "RW"

-- `s.includes(part)`
unfoldable pub includes : Str → Str → Bool
unfolding starts_with
includes part [] = starts_with part []
includes part (c ∷ s) = let rest = includes part s in starts_with part (c ∷ s) || rest

-- The variables whose names have the query in them.
unfoldable pub found_variables : (Str → Str) → Str → List VariableInfo → List VariableInfo
unfolding includes
found_variables to_lower_case query variables =
    keep (λ v. includes (to_lower_case (trim query)) (to_lower_case v.name)) variables

pub record TableRow : Type 0 where
  pub name : Str
  pub mode : Str
  pub row : Row

pub record Header : Type 0 where
  pub name : Str
  pub id : Str
  pub type : Str
  pub status : Str
  pub connection : Str

-- A notice, or the page: its header, the counts beside the search, the panel of charts, and the table
-- with a notice in its place if nothing is found.
pub data Screen (V : Type 0) : Type 0 where
  notice : Str → Screen V
  page :
      (header : Header) (counts : ℕ × ℕ) (panel : Option (PanelView V))
      (table : Option (List TableRow))
      → Screen V

unfoldable pub device_header : DeviceDetail → Connection → Header
unfolding status_label connection_label
device_header device connection = record {
  name = device.name;
  id = device.id;
  type = device.type;
  status = status_label device.status;
  connection = connection_label connection;
}

module _ {V : Type 0} (prints : Prints V) (to_lower_case : Str → Str) where
  unfoldable pub variable_table :
      List (Str × V) → List Str → List VariableInfo → Option (List TableRow)
  unfolding mode_label row_of
  variable_table values selected [] = none
  variable_table values selected (v ∷ vs) = some (
      map
        (λ w. record {
          name = w.name;
          mode = mode_label w.mode;
          row = row_of (format_value prints) w values selected;
        })
        (v ∷ vs))

  abbrev pub ready_screen : DeviceDetail → Monitor V → Panel → Screen V
  ready_screen device m p =
      let variables = found_variables to_lower_case m.query device.variables in
      page (device_header device m.connection) (length variables, length device.variables)
        (panel_view prints device.variables m.selected m.grouping m.history m.values p)
        (variable_table m.values m.selected variables)

  unfoldable pub screen : Monitor V → Panel → Screen V
  unfolding found_variables device_header panel_view variable_table
  screen m p = elim m.load [
    | LoadState.loading ↦ notice (codes "загрузка...")
    | LoadState.notfound ↦ notice (codes "устройство не найдено")
    | LoadState.error ↦ notice (codes "не удалось загрузить устройство")
    | LoadState.ready device ↦ ready_screen device m p
  ]
