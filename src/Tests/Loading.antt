-- ===== src/Tests/Loading.antt =====
-- The loading of a small system: a target that wants a service, and the socket of that service.
use rustysd.Activation.Subgraph.{
  needs, unknown, gather, collect, collect_unit_start_subgraph, needs, unknown, gather, collect,
  collect_unit_start_subgraph, needs, unknown, gather, collect, collect_unit_start_subgraph,
}
use rustysd.Prelude.{◌≡◌, refl, false, [], ◌∷◌, none, contains, IsNodup}
use rustysd.Prelude.Map.{get, keys}
use rustysd.Units.Id.{id_le, id_le, UnitId, UnitIdKind, id_eq, unit_id_eq}
use rustysd.Units.Dependencies.{
  start_concurrently_with_this, start_before_this, start_concurrently_with_this, start_before_this,
  start_concurrently_with_this, start_before_this, Dependencies,
}
use rustysd.Units.Status.{never_started}
use rustysd.Units.Unit.{UnitEntry, socket, target}
use rustysd.Units.Runtime.{UnitTable, Result, ok, err, panic}
use rustysd.Shutdown.Ends.{HasOwnKeys}
use rustysd.Loading.Resolve.{fill_dependencies, resolve}
use rustysd.Loading.Resolve.Symmetric.{IsResolved, fill_dependencies-IsResolved}
use rustysd.Loading.Prune.{prune_units, pruned, Pruned}
use rustysd.Loading.Prune.Kept.{IsPruned, prune_units-IsPruned}
use rustysd.Tests.Samples.{conf, unit, web}

abbrev boot : UnitId
boot = record { kind = UnitIdKind.target; name = "boot.target" }

abbrev web_socket : UnitId
web_socket = record { kind = UnitIdKind.socket; name = "web.socket" }

abbrev none_yet : Dependencies
none_yet = record {
  wants = [];
  wanted_by = [];
  requires = [];
  required_by = [];
  before = [];
  after = [];
}

abbrev boot_unit : UnitEntry
boot_unit = record (unit boot (record none_yet { wants = web ∷ [] }) [] never_started) {
  specific = target (record { up_since = none; restart_count = 0 });
}

abbrev socket_unit : UnitEntry
socket_unit = record (unit web_socket none_yet [] never_started) {
  specific = socket (record {
    conf = record {
      sockets = [];
      filedesc_name = "unknown";
      services = [];
      exec_config = conf.exec_config;
    };
    state = record {
      common = record { up_since = none; restart_count = 0 };
      sock = record { activated = false };
    };
  });
}

abbrev parsed : UnitTable
parsed =
    (boot, boot_unit) ∷ (web, unit web none_yet [] never_started) ∷ (web_socket, socket_unit) ∷ []

parsed-HasOwnKeys : HasOwnKeys parsed
parsed-HasOwnKeys = (refl, (refl, (refl, tt)))

parsed-IsNodup : IsNodup (keys parsed)
unfolding keys contains id_eq
parsed-IsNodup = (refl, (refl, (refl, tt)))

-- The table of a result, where there is one.
abbrev table_of : {E : Type 0} → Result E UnitTable → UnitTable
table_of (ok table) = table
table_of (err e) = []
table_of panic = []

filled : fill_dependencies parsed ≡ ok (table_of (fill_dependencies parsed))
unfolding fill_dependencies id_eq contains
filled = refl

fill_dependencies-IsResolved_example : IsResolved parsed (table_of (fill_dependencies parsed))
fill_dependencies-IsResolved_example =
    fill_dependencies-IsResolved parsed (table_of (fill_dependencies parsed)) parsed-HasOwnKeys
      parsed-IsNodup filled

loaded : resolve "boot.target" parsed ≡ ok (table_of (resolve "boot.target" parsed))
unfolding resolve id_eq contains collect_unit_start_subgraph collect gather unknown needs
    start_before_this start_concurrently_with_this id_le
loaded = refl

-- The socket was matched with its service, and is left.
loaded_keys : keys (table_of (resolve "boot.target" parsed)) ≡ boot ∷ web ∷ web_socket ∷ []
unfolding keys resolve id_eq contains collect_unit_start_subgraph collect gather unknown needs
    start_before_this start_concurrently_with_this id_le
loaded_keys = refl

abbrev table_left : Pruned → UnitTable
table_left (pruned table) = table
table_left _ = []

left : prune_units "boot.target" parsed ≡ pruned (table_left (prune_units "boot.target" parsed))
unfolding prune_units collect_unit_start_subgraph collect gather get id_eq unknown needs
    start_before_this start_concurrently_with_this contains
left = refl

prune_units-IsPruned_example :
    (start : UnitId) × (start.name ≡ "boot.target")
    × IsPruned parsed (table_left (prune_units "boot.target" parsed)) start
prune_units-IsPruned_example =
    prune_units-IsPruned "boot.target" parsed (table_left (prune_units "boot.target" parsed)) left
