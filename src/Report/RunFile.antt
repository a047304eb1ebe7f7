-- ===== src/Report/RunFile.antt =====
-- internal/report/jsonl.go: `WriteRun` and `LoadFile`. Files and encoding/json are arguments.
pub mod RoundTrip
use Prim.Native.Char.{Char, code}
use Prim.Native.String
use chain_registry_sentinel.Base.{
  ℕ, suc, String, Bool, true, false, ◌&&◌, ◌||◌, Option, none, some, List, [], ◌∷◌, length, str_eq,
  ◌==◌, leb, ltb, if◌then◌else◌,
}
use chain_registry_sentinel.Base.Map.{Dict, lookup, insert}
use chain_registry_sentinel.Base.Sort.{sort_strings}
use chain_registry_sentinel.Base.Text.{◌+s◌}
use chain_registry_sentinel.Base.Time.{Time}
use chain_registry_sentinel.Checks.Error.{GoError, errorf, wrap}
use chain_registry_sentinel.Github.Outcome.{Outcome, ok, err, wrap_outcome, ◌>>=◌}
use chain_registry_sentinel.Report.Record.{Record}

-- `scanBufSize`, the bound on the bytes of a line.
abbrev pub scan_buf_size : ℕ
scan_buf_size = 1048576

-- A file that cannot be opened, or the lines that the scanner returned and the error that ended it.
pub data Scan : Type 0 where
  not_opened : GoError → Scan
  scanned : List String → Option GoError → Scan

pub record RunFiles : Type 1 where
  pub Disk : Type 0
  -- `os.MkdirAll`, and a temporary file with these lines that is then renamed.
  pub make_directory : Disk → String → Outcome Disk
  pub put_lines : Disk → String → List String → Outcome Disk
  -- `os.Open`, and the lines of a `bufio.Scanner` whose buffer has at most this size.
  pub scan : ℕ → Disk → String → Scan
  -- The bytes of a line, its newline not counted.
  pub line_size : String → ℕ
  pub encode : Record → Outcome String
  pub decode : String → Outcome Record
  -- Whether `bytes.TrimSpace` leaves nothing.
  pub is_blank : String → Bool
  -- `filepath.Join`.
  pub join_path : String → String → String
  -- `Format("20060102T150405Z")`, `Format(time.RFC3339)`, and `%d`.
  pub compact_time : Time → String
  pub rfc3339 : Time → String
  pub decimal : ℕ → String

abbrev is_within : ℕ → ℕ → ℕ → Bool
is_within c low high = leb low c && leb c high

abbrev is_safe : ℕ → Bool
is_safe c =
    is_within c b'a' b'z'
    || is_within c b'A' b'Z'
    || is_within c b'0' b'9'
    || c == b'-'
    || c == b'_'

safe_text : String → String
safe_text String.[] = ""
safe_text (String.◌∷◌ c s) = String.◌∷◌ (if is_safe (code c) then c else "-") (safe_text s)

-- `sanitizeVantage`.
unfoldable pub sanitize_vantage : String → String
unfolding safe_text
sanitize_vantage v = if str_eq v "" then "run" else safe_text v

module _ (R : RunFiles) where
  unfoldable pub encode_all : List Record → Outcome (List String)
  encode_all [] = ok []
  encode_all (r ∷ rs) = R.encode r >>= λ l. encode_all rs >>= λ ls. ok (l ∷ ls)

  unfoldable pub run_path : String → Record → String
  run_path dir r =
      R.join_path dir (R.compact_time r.run_ts +s "-" +s sanitize_vantage r.vantage +s ".jsonl")

  -- `WriteRun`: the disk behind it, and the path.
  unfoldable pub write_run : R.Disk → String → List Record → Outcome (R.Disk × String)
  unfolding encode_all
  write_run disk dir [] = err (errorf "write report: no records")
  write_run disk dir (r ∷ rs) = wrap_outcome "write report: " (
      R.make_directory disk dir >>= λ made. encode_all (r ∷ rs) >>= λ ls.
      R.put_lines made (run_path dir r) ls >>= λ put. ok (put, run_path dir r))

  abbrev at_line : String → ℕ → String
  at_line path line = "load report: " +s path +s ":" +s R.decimal line +s ": "

  -- The loop of the scan; blank lines count and are skipped.
  unfoldable pub decode_lines : String → ℕ → List String → Outcome (List Record)
  decode_lines path line [] = ok []
  decode_lines path line (l ∷ ls) =
      if R.is_blank l
      then decode_lines path (suc line) ls
      else wrap_outcome (at_line path (suc line)) (R.decode l) >>= λ r.
          decode_lines path (suc line) ls >>= λ rs. ok (r ∷ rs)

  abbrev pub run_key : Record → String
  run_key r = R.rfc3339 r.run_ts +s "|" +s r.vantage

  unfoldable pub runs_of : List Record → Dict (Unit {0}) → Dict (Unit {0})
  runs_of [] m = m
  runs_of (r ∷ rs) m = runs_of rs (insert (run_key r) tt m)

  -- The keys in their order, joined by ", ".
  abbrev names : Dict (Unit {0}) → List String
  names [] = []
  names ((k, _) ∷ m) = k ∷ names m

  abbrev joined : List String → String
  joined [] = ""
  joined (k ∷ []) = k
  joined (k ∷ l ∷ ks) = k +s ", " +s joined (l ∷ ks)

  abbrev pub one_run : String → List Record → Dict (Unit {0}) → Outcome (List Record)
  one_run path records runs =
      if ltb 1 (length runs)
      then err (
          errorf (
            "load report: "
            +s path
            +s " contains "
            +s R.decimal (length runs)
            +s " distinct runs ("
            +s joined (sort_strings (names runs))
            +s "); a report renders exactly one run"))
      else ok records

  abbrev pub checked : String → Option GoError → List Record → Outcome (List Record)
  checked path (some e) records = err (wrap ("load report: " +s path +s ": ") e)
  checked path none [] = err (errorf ("load report: " +s path +s ": no records"))
  checked path none (r ∷ rs) = one_run path (r ∷ rs) (runs_of (r ∷ rs) [])

  abbrev pub load_scan : String → Scan → Outcome (List Record)
  load_scan path (not_opened e) = err (wrap "load report: " e)
  load_scan path (scanned ls scan_err) = decode_lines path 0 ls >>= checked path scan_err

  -- `LoadFile`.
  unfoldable pub load_file : R.Disk → String → Outcome (List Record)
  unfolding decode_lines runs_of
  load_file disk path = load_scan path (R.scan scan_buf_size disk path)
