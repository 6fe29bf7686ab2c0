-- ===== src/Process/Setup.antt =====
-- What `run` of cmd/policy-manager/main.go calls to set the program up: internal/config/config.go,
-- internal/logging/logging.go and internal/store/db.go. The reading of the environment
-- (envconfig.Process), the opening and migration of a database by gorm and strings.ToLower are
-- parameters.
use dcm_policy_manager.Prelude.{
  String, Bool, true, false, Option, [], ◌∷◌, ◌==◌, Result, ok, err, ◌>>=◌, concat, if◌then◌else◌,
  ◌≡◌, arith, ◌≤◌, ℕ, inl, inr, Bool-cases, eq_iff,
}
use dcm_policy_manager.Process.{Opening, not_opened, unprepared, ready, Environment}

pub record ServiceConfig : Type 0 where
  pub bind_address : String
  pub engine_bind_address : String
  pub log_level : String

pub record DbConfig : Type 0 where
  pub type : String
  pub hostname : String
  pub port : String
  pub name : String
  pub user : String
  pub password : String

pub record Config : Type 0 where
  pub service : ServiceConfig
  pub database : DbConfig

-- the levels of log/slog, and of gorm's logger
pub data SlogLevel : Type 0 where
  level_debug level_info level_warn level_error : SlogLevel

pub data GormLogLevel : Type 0 where
  gorm_info gorm_warn gorm_error : GormLogLevel

pub data Dialector : Type 0 where
  -- postgres.Open with its connection string, sqlite.Open with a file name
  postgres sqlite : String → Dialector

-- the switch of Init: the level, and whether it is reported as unrecognized
unfoldable pub init_level : (String → String) → String → SlogLevel × Bool
init_level to_lower level =
    if to_lower level == "debug"
    then (level_debug, false)
    else if to_lower level == "warn"
    then (level_warn, false)
    else if to_lower level == "warning"
    then (level_warn, false)
    else if to_lower level == "error"
    then (level_error, false)
    else (level_info, true)

unfoldable pub gorm_log_level_from_string : (String → String) → String → GormLogLevel × SlogLevel
gorm_log_level_from_string to_lower level =
    if to_lower level == "debug"
    then (gorm_info, level_debug)
    else if to_lower level == "info"
    then (gorm_warn, level_warn)
    else if to_lower level == "warn"
    then (gorm_warn, level_warn)
    else if to_lower level == "warning"
    then (gorm_warn, level_warn)
    else if to_lower level == "error"
    then (gorm_error, level_error)
    else (gorm_warn, level_warn)

unfoldable pub dialector : DbConfig → Dialector
dialector database =
    if database.type == "pgsql"
    then postgres (
        concat (
          "host=" ∷ database.hostname ∷ " user=" ∷ database.user ∷ " password=" ∷ database.password
          ∷ " port=" ∷ database.port ∷ " dbname=" ∷ database.name ∷ []))
    else sqlite database.name

-- What the libraries answer; `G` is gorm's handle of a database.
pub record Host (G : Type 0) : Type 0 where
  pub to_lower : String → String
  -- envconfig.Process, for each of the two
  pub service_config : Result String ServiceConfig
  pub db_config : Result String DbConfig
  -- gorm.Open, DB and AutoMigrate
  pub open_db : Dialector → GormLogLevel × SlogLevel → Result String G
  pub underlying : G → Result String (Unit {0})
  pub auto_migrate : G → Result String G
  -- net.Listen, and runServers
  pub listen : String → Option String
  pub serve : Option String

module _ {G : Type 0} (host : Host G) where
  unfoldable pub load : Result String Config
  load = do
    service ← host.service_config
    database ← host.db_config
    ok (record { service = service; database = database })

  abbrev failing : String → String → String
  failing what e = concat (what ∷ e ∷ [])

  unfoldable pub init_db : Config → Opening G
  unfolding dialector gorm_log_level_from_string
  init_db cfg =
      elim (host.open_db (dialector cfg.database)
        (gorm_log_level_from_string host.to_lower cfg.service.log_level)) [
          | err e ↦ not_opened (failing "failed to connect to database: " e)
          | ok db ↦ elim (host.underlying db) [
            | err e ↦ unprepared (failing "failed to get underlying db: " e)
            | ok _ ↦ elim (host.auto_migrate db) [
              | err e ↦ unprepared (failing "failed to migrate database: " e)
              | ok migrated ↦ ready migrated
            ]
          ]
        ]

  -- what `run` finds
  abbrev pub environment : Environment Config G
  environment = record {
    load = load;
    init_db = init_db;
    listen_public = λ cfg. host.listen cfg.service.bind_address;
    listen_engine = λ cfg. host.listen cfg.service.engine_bind_address;
    serve = host.serve;
  }

-- the order of the levels
abbrev severity : SlogLevel → ℕ
severity level_debug = 0
severity level_info = 1
severity level_warn = 2
severity level_error = 3

-- What gorm logs is never below the level that is shown.
gorm_log_level_shown :
    (to_lower : String → String) (level : String)
    → severity (init_level to_lower level).0
      ≤ severity (gorm_log_level_from_string to_lower level).1
unfolding init_level gorm_log_level_from_string
gorm_log_level_shown to_lower level = elim (Bool-cases (to_lower level == "info")) [
  | inl info ↦
      let same : to_lower level ≡ "info" = (eq_iff (to_lower level) "info").0 info in
      rw same (omega arith)
  | inr other ↦ ground (arith, other)
]
