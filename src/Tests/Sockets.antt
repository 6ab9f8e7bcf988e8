-- ===== src/Tests/Sockets.antt =====
-- The theorem on opening and closing, applied to a unit with one fifo.
use rustysd.Prelude.{some, ℕ, ◌≡◌, ◌≢◌, refl, true, false, [], ◌∷◌, none, arith, string_eq}
use rustysd.Prelude.Map.{insert, contains_key, get}
use rustysd.Units.Id.{UnitId, UnitIdKind}
use rustysd.Units.Config.{SocketKind, SpecializedSocketConfig, SocketConfig}
use rustysd.Units.Unit.{Socket}
use rustysd.Units.Runtime.{Shared, ok, panic}
use rustysd.FdStore.{GlobalEntry}
use rustysd.Sockets.{OsSockets, open_all, close_all}
use rustysd.Sockets.RoundTrip.{AreOpened, AreClosed, close_all-open_all}

-- The descriptor is the number of the call.
abbrev counting : OsSockets
counting = record {
  open_socket = λ conf clock. ok clock;
  set_cloexec = λ fd clock. true;
  close_socket = λ conf fd clock. ok tt;
}

abbrev log : UnitId
log = record { kind = UnitIdKind.socket; name = "log.socket" }

abbrev conf : SocketConfig
conf = record {
  sockets =
      record {
        kind = SocketKind.fifo "/run/log";
        specialized = SpecializedSocketConfig.fifo "/run/log";
      }
      ∷ [];
  filedesc_name = "log";
  services = [];
  exec_config = record {
    user = 0;
    group = 0;
    supplementary_groups = [];
    stdout_path = none;
    stderr_path = none;
    environment = none;
  };
}

abbrev sock : Socket
sock = record { activated = false }

abbrev before : Shared
before = record { pid_table = []; global = []; clock = 3; notified = 0 }

abbrev after : Shared
after = record {
  pid_table = [];
  global = ("log.socket", (log, "log", 3) ∷ []) ∷ [];
  clock = 5;
  notified = 0;
}

calm : (c : SpecializedSocketConfig) (fd n : ℕ) → counting.close_socket c fd n ≢ panic
calm c fd n = ground arith

free : get log.name before.global ≡ none
unfolding get
free = refl

opens : open_all counting conf log sock before ≡ (ok tt, sock, after)
unfolding open_all contains_key insert
opens = refl

close_all-open_all_example :
    (fds : GlobalEntry) × (get log.name after.global ≡ some fds)
    × AreOpened counting log conf.filedesc_name conf.sockets before.clock fds
    × AreClosed counting conf.sockets after.clock fds (
      (close_all counting conf log sock after).0,
      (close_all counting conf log sock after).2.clock,
    )
    × (get log.name (close_all counting conf log sock after).2.global ≡ none)
close_all-open_all_example =
    close_all-open_all counting conf log sock sock before after calm free opens
