-- ===== src/Examples/Saved.antt =====
-- The records of a run, written to a file in memory and loaded from it.
use Prim.Native.String
use chain_registry_sentinel.Base.{
  ◌≡◌, refl, ap, ◌∙◌, subst, String, ℕ, ◌+◌, ltb, All, if◌then◌else◌, true, false, Option, none,
  some, List, [], ◌∷◌, eq_refl,
}
use chain_registry_sentinel.Base.Int.{pos}
use chain_registry_sentinel.Base.Map.{Dict, lookup, insert, lookup-insert}
use chain_registry_sentinel.Base.Text.{◌+s◌}
use chain_registry_sentinel.Checks.FailureClass.{class_none}
use chain_registry_sentinel.Checks.Error.{GoError, errorf}
use chain_registry_sentinel.Github.Outcome.{ok}
use chain_registry_sentinel.Report.Record.{Record}
use chain_registry_sentinel.Report.RunFile.{
  RunFiles, Scan, not_opened, scanned, run_path, write_run, load_file,
}
use chain_registry_sentinel.Report.RunFile.RoundTrip.{IsLawful, is_one_line, load_file-write_run}
use chain_registry_sentinel.Examples.Data.{now}

-- A record of the run, by its endpoint.
abbrev of_endpoint : String → Record
of_endpoint address = record {
  run_ts = now;
  vantage = "home";
  registry_commit = "";
  concurrency = pos 8;
  timeout_ms = pos 10000;
  chain = "osmosis";
  chain_id = "osmosis-1";
  chain_type = "cosmos";
  check = "rpc_liveness";
  endpoint = address;
  host = address;
  domain = address;
  provider = "";
  order = 1;
  passed = false;
  skipped = false;
  failure_class = class_none;
  http_status = 0;
  latency_ms = pos 0;
  evidence = "";
  catching_up = false;
  tx_index = "";
  latest_block_time = "";
  method_restricted = false;
  streak = pos 0;
}

-- The lines up to the first one that does not fit, and the error there.
abbrev scan_lines : ℕ → List String → List String × Option GoError
scan_lines size [] = ([], none)
scan_lines size (l ∷ ls) =
    let (before, e) = scan_lines size ls in
    if ltb (String.len l + 1) size
    then (l ∷ before, e)
    else ([], some (errorf "bufio.Scanner: token too long"))

abbrev scan_of : ℕ → Option (List String) → Scan
scan_of size none = not_opened (errorf "no such file")
scan_of size (some ls) = let (lines, e) = scan_lines size ls in scanned lines e

short_lines :
    (size : ℕ) (ls : List String)
    → All (λ l. (is_one_line l ≡ true) × (ltb (String.len l + 1) size ≡ true)) ls
    → scan_lines size ls ≡ (ls, none)
short_lines size [] h = refl
short_lines size (l ∷ ls) (here, h) = rw (here.1, short_lines size ls h) refl

abbrev run_files : RunFiles
run_files = record {
  Disk = Dict (List String);
  make_directory = λ disk dir. ok disk;
  put_lines = λ disk path ls. ok (insert path ls disk);
  scan = λ size disk path. scan_of size (lookup path disk);
  line_size = String.len;
  encode = λ r. ok r.endpoint;
  decode = λ l. ok (of_endpoint l);
  is_blank = λ _. false;
  join_path = λ dir name. dir +s "/" +s name;
  compact_time = λ _. "20260728T000000Z";
  rfc3339 = λ _. "2026-07-28T00:00:00Z";
  decimal = λ _. "1";
}

put_there :
    (size : ℕ) (disk : Dict (List String)) (path : String) (ls : List String)
    → All (λ l. (is_one_line l ≡ true) × (ltb (String.len l + 1) size ≡ true)) ls
    → scan_of size (lookup path (insert path ls disk)) ≡ scanned ls none
put_there size disk path ls short =
    let there : lookup path (insert path ls disk) ≡ some ls =
      lookup-insert path path ls disk ∙ rw (eq_refl path) refl in
    ap (scan_of size) there ∙ rw (short_lines size ls short) refl

run_files-IsLawful : IsLawful run_files
run_files-IsLawful = record {
  put_lines-scan = λ size disk put path ls wrote short.
      subst (λ d. scan_of size (lookup path d) ≡ scanned ls none) (cc wrote)
        (put_there size disk path ls short);
}

load_file-write_run_example :
    (write_run run_files [] "runs" (of_endpoint "a" ∷ of_endpoint "b" ∷ [])
      ≡ ok (
        insert (run_path run_files "runs" (of_endpoint "a")) ("a" ∷ "b" ∷ []) [],
        run_path run_files "runs" (of_endpoint "a"),
      ))
    × (load_file run_files
          (insert (run_path run_files "runs" (of_endpoint "a")) ("a" ∷ "b" ∷ []) [])
          (run_path run_files "runs" (of_endpoint "a"))
        ≡ ok (of_endpoint "a" ∷ of_endpoint "b" ∷ []))
load_file-write_run_example =
    load_file-write_run run_files run_files-IsLawful [] []
      (insert (run_path run_files "runs" (of_endpoint "a")) ("a" ∷ "b" ∷ []) []) "runs"
      (of_endpoint "a") (of_endpoint "b" ∷ []) ("a" ∷ "b" ∷ [])
      ((refl, refl, refl), ((refl, refl, refl), tt)) ((refl, refl), ((refl, refl), tt)) (refl, tt)
      refl refl
