-- ===== src/Tests.antt =====
-- The data on which the theorems are tried.
mod Configs
mod Devices
mod Charts
mod Panels
mod Requests
mod Saving
use tstlan_web.Base.{◌≡◌, refl, true, false, List, [], ◌∷◌, none, some, arith}
use tstlan_web.Base.Text.{Str, codes}
use tstlan_web.Base.Number.{ℤ, int}
use tstlan_web.Api.{
  NetVarCType, ConfigVisibility, ConfigAccess, Transport, ConfigPayload, ConfigSummary,
  ConfigDetail,
}
use Prim.Native.Nat.{Ordering, compare}
use tstlan_web.Config.{VariableDraft, ConfigFormDraft, empty_draft}
use tstlan_web.Device.Graph.{Comparison, then_by, is_lt}

abbrev pub weight : VariableDraft
weight = record {
  name = codes "weight";
  ctype = NetVarCType.f32;
  graph = true;
  category = codes "";
}

abbrev pub alarm : VariableDraft
alarm = record {
  name = codes " alarm";
  ctype = NetVarCType.bit;
  graph = false;
  category = codes "io";
}

abbrev pub three_variables : List VariableDraft
three_variables = alarm ∷ record alarm { name = codes "door" } ∷ weight ∷ []

-- A draft of a balance on the network.
abbrev pub balance_draft : ConfigFormDraft
balance_draft = record empty_draft {
  name = codes " Balance ";
  device_type = codes "balance";
  transport = Transport.modbus_tcp;
  ip = codes "10.0.0.7";
  port = codes "502";
  poll_period_ms = codes "250";
  coils_bytes = codes "";
  variables = three_variables;
}

abbrev pub balance_payload : ConfigPayload
balance_payload = record {
  connection = record {
    transport = Transport.modbus_tcp;
    ip = some (codes "10.0.0.7");
    port = some (int 502);
    gpib_addr = none;
    com_name = none;
    ip_request = none;
    poll_period_ms = int 250;
    modbus = some (record {
      discrete_inputs_bytes = int 0;
      coils_bytes = int 2;
      holding_registers = int 0;
      input_registers = int 0;
    });
    params = [];
  };
  variables =
      record { name = codes "weight"; ctype = NetVarCType.f32; graph = true; category = [] } ∷ [];
}

abbrev pub balance_summary : ConfigSummary
balance_summary = record {
  id = 7;
  name = codes "Balance";
  device_type = codes "balance";
  visibility = ConfigVisibility.private;
  owner_login = codes "ann";
  access = ConfigAccess.owner;
  created_at = codes "2024-01-01";
  updated_at = codes "2024-02-01";
}

abbrev pub shared_summary : ConfigSummary
shared_summary = record balance_summary {
  id = 8;
  owner_login = codes "bob";
  access = ConfigAccess.read;
  updated_at = codes "2024-03-01";
}

abbrev pub balance_config : ConfigDetail
balance_config = record { summary = balance_summary; payload = balance_payload; shares = [] }

-- A print of large numbers, here of none.
abbrev pub no_large : ℤ → Str
no_large _ = codes "large"

-- The order of texts by their code units.
unfoldable pub by_units : Str → Str → Ordering
by_units [] [] = Ordering.eq
by_units [] (_ ∷ _) = Ordering.lt
by_units (_ ∷ _) [] = Ordering.gt
by_units (c ∷ s) (d ∷ t) = then_by (compare c d) (by_units s t)

pub by_units_asymmetric : (a b : Str) → is_lt (by_units a b) ≡ true → is_lt (by_units b a) ≡ false
unfolding by_units
by_units_asymmetric [] [] h = refl
by_units_asymmetric [] (d ∷ t) h = refl
by_units_asymmetric (c ∷ s) [] h = absurd (cc)
by_units_asymmetric (c ∷ s) (d ∷ t) h = ground (arith, by_units_asymmetric s t)

pub by_units_transitive :
    (a b c : Str)
    → is_lt (by_units b a) ≡ false
    → is_lt (by_units c b) ≡ false
    → is_lt (by_units c a) ≡ false
unfolding by_units
by_units_transitive [] b [] h k = refl
by_units_transitive (x ∷ a) [] [] h k = absurd (cc)
by_units_transitive (x ∷ a) (y ∷ b) [] h k = absurd (cc)
by_units_transitive [] b (z ∷ c) h k = refl
by_units_transitive (x ∷ a) [] (z ∷ c) h k = absurd (cc)
by_units_transitive (x ∷ a) (y ∷ b) (z ∷ c) h k = ground (arith, by_units_transitive a b c)

abbrev pub comparison_by_units : Comparison
comparison_by_units = record {
  compare = by_units;
  asymmetric = by_units_asymmetric;
  transitive = by_units_transitive;
}
