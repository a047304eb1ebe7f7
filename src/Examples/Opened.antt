-- ===== src/Examples/Opened.antt =====
-- The opening of pull requests, at a network in memory that grants every request.
use Prim.Native.Char.{code}
use mathlib.Core.Option.{some-injective}
use chain_registry_sentinel.Base.{
  ℕ, zero, suc, ◌≡◌, refl, ap, subst, String, Option, none, some, List, [], ◌∷◌, All, ◌==◌, arith,
  if◌then◌else◌,
}
use chain_registry_sentinel.Base.Int.{ℤ, pos, negsuc, ◌<ℤ◌, max_int}
use chain_registry_sentinel.Base.Text.{◌+s◌, trim_prefix}
use chain_registry_sentinel.Checks.GrpcTarget.{Addresses}
use chain_registry_sentinel.Checks.Error.{errorf}
use chain_registry_sentinel.Github.Outcome.{ok, err}
use chain_registry_sentinel.Github.Call.{
  Method, post, Payload, label_list, answered, Network, Formats, Session, wrapped, ◌>>=◌,
}
use chain_registry_sentinel.Github.Client.{branch_prefix, next_branch_n}
use chain_registry_sentinel.Github.Body.{StatusPrEvidence}
use chain_registry_sentinel.Github.Open.{
  Place, open_pull, url_of, chain_plan, status_plan, open_chain_pr, open_status_pr,
}
use chain_registry_sentinel.Github.Open.Freshness.{branch_ref, next_branch_n-fresh}
use chain_registry_sentinel.Github.Open.Results.{
  Concluded, open_chain_pr-Concluded, open_status_pr-Concluded,
}
use chain_registry_sentinel.Examples.Data.{osmosis}
use chain_registry_sentinel.Examples.Files.{files, dead_rpc}

abbrev granted : Payload → Method → ℕ
granted (label_list _) m = 200
granted p post = 201
granted p _ = 200

abbrev github : Network
github = record {
  State = Unit {0};
  Body = Unit {0};
  send = λ w r. (answered (granted r.body r.method) tt, w);
  read_default_branch = λ _. ok "main";
  read_object_sha = λ _. ok "abc";
  read_refs = λ _. ok ("refs/heads/sentinel/osmosis-++" ∷ "refs/heads/sentinel/osmosis-test" ∷ []);
  read_total_count = λ _. ok (pos 0);
  read_item_numbers = λ _. ok (pos 3 ∷ []);
  read_content = λ _. ok ("", "def");
  read_pull = λ _. ok (pos 7, "https://pull/7");
}

-- Numbers in tally marks, behind their sign.
tally : ℕ → String
tally zero = ""
tally (suc n) = String.◌∷◌ "+" (tally n)

marks : String → ℕ
marks String.[] = 0
marks (String.◌∷◌ c s) = suc (marks s)

abbrev print : ℤ → String
print (pos n) = String.◌∷◌ "+" (tally n)
print (negsuc n) = String.◌∷◌ "-" (tally n)

abbrev parse : String → Option ℤ
parse String.[] = none
parse (String.◌∷◌ c s) =
    if code c == b'+'
    then some (pos (marks s))
    else if code c == b'-'
    then some (negsuc (marks s))
    else none

marks-tally : (n : ℕ) → marks (tally n) ≡ n
unfolding marks tally
marks-tally zero = refl
marks-tally (suc n) = ap suc (marks-tally n)

parse-print : (n : ℤ) → parse (print n) ≡ some n
parse-print (pos n) = ap (λ k. some (pos k)) (marks-tally n)
parse-print (negsuc n) = ap (λ k. some (negsuc k)) (marks-tally n)

abbrev formats : Formats
formats = record {
  decimal = print;
  quote = λ s. s;
  atoi = parse;
  query_escape = λ s. s;
  base64_encode = λ s. s;
  base64_decode = λ s. ok s;
  date = λ _. "2026-07-28";
  rfc3339 = λ _. "2026-07-28T00:00:00Z";
}

abbrev addresses : Addresses
addresses = record {
  parse = λ _. err (errorf "no URL");
  split_host_port = λ _. err (errorf "missing port in address");
  join_host_port = λ host port. host +s ":" +s port;
  quoted = λ s. s;
}

abbrev place : Place
place = record { owner = "cosmos"; repo = "chain-registry"; base_branch = "" }

abbrev session : Session github
session = record { network = tt; sent = [] }

abbrev evidence : StatusPrEvidence
evidence = record {
  streak = pos 14;
  first_seen = pos 1;
  endpoints_probed = pos 2;
  class_lines = [];
  withdrawn = [];
  newest_block_time = pos 0;
  sample_host = "a";
}

open_chain_pr-Concluded_example :
    Concluded github formats files place
      (chain_plan github formats files place addresses osmosis dead_rpc)
      session
      (open_chain_pr github formats files place addresses osmosis dead_rpc session)
open_chain_pr-Concluded_example =
    open_chain_pr-Concluded github formats files place addresses osmosis dead_rpc session

open_status_pr-Concluded_example :
    Concluded github formats files place
      (status_plan github formats files place "osmosis" evidence)
      session
      (open_status_pr github formats files place "osmosis" evidence session)
    × ((open_status_pr github formats files place "osmosis" evidence session).0
        ≡ ((wrapped github "OpenStatusPR: " (
                open_pull github formats files place
                  (status_plan github formats files place "osmosis" evidence))
              >>= url_of github formats files place)
            session).0)
open_status_pr-Concluded_example =
    open_status_pr-Concluded github formats files place "osmosis" evidence session

abbrev listed : List String
listed = "refs/heads/sentinel/osmosis-++" ∷ "refs/heads/sentinel/osmosis-test" ∷ []

-- The suffixes stand for 1 and for no number.
below_max :
    All
      (λ r.
        (k : ℤ)
        → parse (trim_prefix r (branch_prefix github formats "osmosis")) ≡ some k
        → k <ℤ pos max_int)
      listed
unfolding trim_prefix branch_prefix marks
below_max = (
  λ k e. subst (λ t. t <ℤ pos max_int) (some-injective (pos 1) k e) (omega arith),
  (λ k e. cc e, tt),
)

next_branch_n-fresh_example :
    (n : ℤ) × ((next_branch_n github formats "cosmos" "chain-registry" "osmosis" session).0 ≡ ok n)
    × All (λ r. ¬ (r ≡ branch_ref github formats "osmosis" n)) listed
next_branch_n-fresh_example =
    next_branch_n-fresh github formats "cosmos" "chain-registry" "osmosis" session tt listed refl
      refl parse-print below_max
