-- ===== src/Parser/Config.antt =====
-- What the parser makes of a unit file: the types of src/units/unit_parsing/mod.rs, and its errors.
use Prim.Native.String.{String}
use rustysd.Prelude.{◌≡◌, refl, Bool, List, Option}
use rustysd.Units.Config.{
  ServiceType, NotifyKind, ServiceRestart, Timeout, StdIoOption, Commandline, EnvVars, SocketKind,
  SpecializedSocketConfig,
}
use rustysd.Units.Runtime.{Result, ok, err, panic}

pub data ParsingErrorReason : Type 0 where
  unknown_setting : String → String → ParsingErrorReason
  unused_setting unsupported_setting missing_setting : String → ParsingErrorReason
  setting_too_many_values : String → List String → ParsingErrorReason
  section_too_often section_not_found unknown_section unknown_socket_addr :
      String → ParsingErrorReason
  generic : String → ParsingErrorReason

pub record ParsedUnitSection : Type 0 where
  pub description : String
  pub wants : List String
  pub requires : List String
  pub before : List String
  pub after : List String

pub record ParsedInstallSection : Type 0 where
  pub wanted_by : List String
  pub required_by : List String

pub record ParsedExecSection : Type 0 where
  pub user : Option String
  pub group : Option String
  pub stdout_path : Option StdIoOption
  pub stderr_path : Option StdIoOption
  pub supplementary_groups : List String
  pub environment : Option EnvVars

pub record ParsedCommonConfig : Type 0 where
  pub unit : ParsedUnitSection
  pub install : ParsedInstallSection
  pub name : String

pub record ParsedSingleSocketConfig : Type 0 where
  pub kind : SocketKind
  pub specialized : SpecializedSocketConfig

pub record ParsedSocketSection : Type 0 where
  pub sockets : List ParsedSingleSocketConfig
  pub filedesc_name : Option String
  pub services : List String
  pub exec_section : ParsedExecSection

pub record ParsedServiceSection : Type 0 where
  pub restart : ServiceRestart
  pub accept : Bool
  pub notifyaccess : NotifyKind
  pub exec : Commandline
  pub stop : List Commandline
  pub stoppost : List Commandline
  pub startpre : List Commandline
  pub startpost : List Commandline
  pub srcv_type : ServiceType
  pub starttimeout : Option Timeout
  pub stoptimeout : Option Timeout
  pub generaltimeout : Option Timeout
  pub dbus_name : Option String
  pub sockets : List String
  pub exec_section : ParsedExecSection

pub record ParsedServiceConfig : Type 0 where
  pub common : ParsedCommonConfig
  pub srvc : ParsedServiceSection

pub record ParsedSocketConfig : Type 0 where
  pub common : ParsedCommonConfig
  pub sock : ParsedSocketSection

pub record ParsedTargetConfig : Type 0 where
  pub common : ParsedCommonConfig

-- The `?` on a result.
infixl 5 ◌>>=◌
abbrev pub ◌>>=◌ : {E A B : Type 0} → Result E A → (A → Result E B) → Result E B
ok a >>= f = f a
err e >>= f = err e
panic >>= f = panic

pub >>=-eq-ok :
    {E A B : Type 0} (r : Result E A) (next : A → Result E B) {last : B}
    → (r >>= next) ≡ ok last
    → (first : A) × (r ≡ ok first) × (next first ≡ ok last)
>>=-eq-ok panic next went = absurd (cc)
>>=-eq-ok (err e) next went = absurd (cc)
>>=-eq-ok (ok first) next went = (first, refl, went)
