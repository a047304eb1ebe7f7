-- ===== src/State/Files.antt =====
-- internal/state/state.go: `Load` and `Save`. The disk and encoding/json are arguments.
pub mod RoundTrip
use chain_registry_sentinel.Base.{String, Bool, Option, none, some, List, [], ◌∷◌, if◌then◌else◌}
use chain_registry_sentinel.Base.Int.{ℤ, pos, ltb_ℤ}
use chain_registry_sentinel.Base.Text.{◌+s◌}
use chain_registry_sentinel.Base.Time.{Time}
use chain_registry_sentinel.Checks.Error.{GoError, errorf, wrap}
use chain_registry_sentinel.Github.Outcome.{Outcome, ok, err, wrap_outcome, ◌>>=◌}
use chain_registry_sentinel.State.{ChainState, zero_chain}

-- What `os.ReadFile` answers: `os.ErrNotExist`, another error, or the bytes.
pub data Read (Bytes : Type 0) : Type 0 where
  missing : Read Bytes
  failed : GoError → Read Bytes
  found : Bytes → Read Bytes

-- The disk, with `os.MkdirAll` of a file's directory, `os.WriteFile` and `os.Rename`, and
-- `json.Unmarshal` and `json.MarshalIndent` of a chain's state.
pub record Storage : Type 1 where
  pub Disk : Type 0
  pub Bytes : Type 0
  pub read_file : Disk → String → Read Bytes
  pub make_directory : Disk → String → Outcome Disk
  pub write_file : Disk → String → Bytes → Outcome Disk
  pub rename : Disk → String → String → Outcome Disk
  pub unmarshal : Bytes → Outcome ChainState
  pub marshal : ChainState → Outcome Bytes
  -- `%d`.
  pub decimal : ℤ → String

abbrev pub current_schema_version : ℤ
current_schema_version = pos 1

module _ (S : Storage) where
  abbrev pub in_file : String → String → String
  in_file doing path = doing +s " state " +s path +s ": "

  abbrev pub check_version : String → ChainState → Outcome ChainState
  check_version path cs =
      if ltb_ℤ cs.version (pos 1)
      then err (errorf (in_file "load" path +s "missing or invalid schema version"))
      else if ltb_ℤ current_schema_version cs.version
      then err (
          errorf (
            in_file "load" path
            +s "written by a newer sentinel (schema v"
            +s S.decimal cs.version
            +s ", this build understands v"
            +s S.decimal current_schema_version
            +s ")"))
      else ok cs

  -- A file that is not there is the state of a first run.
  abbrev pub load_read : String → Read S.Bytes → Outcome ChainState
  load_read path missing = ok zero_chain
  load_read path (failed e) = err (wrap (in_file "load" path) e)
  load_read path (found data_) =
      wrap_outcome (in_file "load" path) (S.unmarshal data_) >>= check_version path

  -- `Load`.
  unfoldable pub load : S.Disk → String → Outcome ChainState
  load disk path = load_read path (S.read_file disk path)

  abbrev pub stamped : ChainState → Time → ChainState
  stamped cs now = record cs { version = current_schema_version; updated_at = now }

  abbrev pub place_file : String → S.Bytes → S.Disk → Outcome S.Disk
  place_file path data_ disk = S.make_directory disk path >>= λ made.
      S.write_file made (path +s ".tmp") data_ >>= λ written. S.rename written (path +s ".tmp") path

  -- `Save`: what is on the disk behind it.
  unfoldable pub save : S.Disk → String → ChainState → Time → Outcome S.Disk
  save disk path cs now =
      wrap_outcome (in_file "save" path)
        (S.marshal (stamped cs now) >>= λ data_. place_file path data_ disk)
