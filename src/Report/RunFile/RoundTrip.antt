-- ===== src/Report/RunFile/RoundTrip.antt =====
-- `WriteRun` and then `LoadFile` (internal/report/jsonl.go).
use Prim.Native.Char.{code}
use chain_registry_sentinel.Base.{
  ℕ, suc, ◌≡◌, refl, String, Bool, true, false, not, ◌&&◌, ◌||◌, ◌==◌, ltb, ◌+◌, none, List, [],
  ◌∷◌, All, eq_refl,
}
use chain_registry_sentinel.Base.Map.{insert}
use chain_registry_sentinel.Github.Outcome.{ok}
use chain_registry_sentinel.Report.Record.{Record}
use chain_registry_sentinel.Report.RunFile.{
  RunFiles, scanned, scan_buf_size, encode_all, run_path, write_run, decode_lines, run_key, runs_of,
  load_file,
}

-- No line feed and no carriage return.
abbrev pub is_one_line : String → Bool
is_one_line String.[] = true
is_one_line (String.◌∷◌ c s) = not (code c == 10 || code c == 13) && is_one_line s

-- The text is one line, which fits the buffer with its newline.
abbrev pub Fits : RunFiles → ℕ → String → Type 0
Fits R size l = (is_one_line l ≡ true) × (ltb (R.line_size l + 1) size ≡ true)

-- A file that was put holds its lines. A scanner returns them, and ends with no error, where each
-- fits its buffer.
pub record IsLawful (R : RunFiles) : Type 0 where
  pub put_lines-scan :
      (size : ℕ) (disk put : R.Disk) (path : String) (ls : List String)
      → R.put_lines disk path ls ≡ ok put
      → All (Fits R size) ls
      → R.scan size put path ≡ scanned ls none

module _ (R : RunFiles) (L : IsLawful R) where
  -- Each record has its line, which is not blank and is decoded as the record.
  abbrev pub IsEncoded : List Record → List String → Type 0
  IsEncoded [] [] = Unit
  IsEncoded [] (l ∷ ls) = ⊥
  IsEncoded (r ∷ rs) [] = ⊥
  IsEncoded (r ∷ rs) (l ∷ ls) =
      ((R.encode r ≡ ok l) × (R.is_blank l ≡ false) × (R.decode l ≡ ok r)) × IsEncoded rs ls

  encode_all-ok : (rs : List Record) (ls : List String) → IsEncoded rs ls → encode_all R rs ≡ ok ls
  unfolding encode_all
  encode_all-ok [] [] h = refl
  encode_all-ok [] (l ∷ ls) h = elim h [ ]
  encode_all-ok (r ∷ rs) [] h = elim h [ ]
  encode_all-ok (r ∷ rs) (l ∷ ls) (here, h) = rw (here.0, encode_all-ok rs ls h) refl

  decode_lines-ok :
      (path : String) (line : ℕ) (rs : List Record) (ls : List String)
      → IsEncoded rs ls
      → decode_lines R path line ls ≡ ok rs
  unfolding decode_lines
  decode_lines-ok path line [] [] h = refl
  decode_lines-ok path line [] (l ∷ ls) h = elim h [ ]
  decode_lines-ok path line (r ∷ rs) [] h = elim h [ ]
  decode_lines-ok path line (r ∷ rs) (l ∷ ls) (here, h) =
      let (encoded, full, back) = here in
      rw (full, back, decode_lines-ok path (suc line) rs ls h) refl

  runs_of-one :
      (k : String) (rs : List Record)
      → All (λ r. run_key R r ≡ k) rs
      → runs_of R rs ((k, tt) ∷ []) ≡ (k, tt) ∷ []
  unfolding runs_of insert
  runs_of-one k [] h = refl
  runs_of-one k (r ∷ rs) (here, h) = rw (here, eq_refl k) (runs_of-one k rs h)

  -- Where the records are of one run and each has its line, which is not blank and is decoded as the
  -- record, where no line has a line feed or a carriage return and each with its newline has less than
  -- the 1 MiB of the scanner's buffer, and where the two operations on the disk succeed, `write_run`
  -- succeeds as well, and `load_file` then reads the records at the path that it returns.
  pub load_file-write_run :
      (disk made put : R.Disk) (dir : String) (r : Record) (rs : List Record) (ls : List String)
      → IsEncoded (r ∷ rs) ls
      → All (Fits R scan_buf_size) ls
      → All (λ t. run_key R t ≡ run_key R r) rs
      → R.make_directory disk dir ≡ ok made
      → R.put_lines made (run_path R dir r) ls ≡ ok put
      → (write_run R disk dir (r ∷ rs) ≡ ok (put, run_path R dir r))
        × (load_file R put (run_path R dir r) ≡ ok (r ∷ rs))
  unfolding write_run load_file
  load_file-write_run disk made put dir r rs ls encoded short same directory wrote = (
    rw (directory, encode_all-ok (r ∷ rs) ls encoded, wrote) refl,
    rw
        (
          L.put_lines-scan scan_buf_size made put (run_path R dir r) ls wrote short,
          decode_lines-ok (run_path R dir r) 0 (r ∷ rs) ls encoded,
        )
        (unfold insert in rw (runs_of-one (run_key R r) rs same) refl),
  )
