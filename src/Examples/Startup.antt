-- ===== src/Examples/Startup.antt =====
-- State files on a disk in memory, and the start and the evidence of a run.
use chain_registry_sentinel.Base.{
  ℕ, ◌≡◌, refl, sym, ap, ◌∙◌, String, true, false, Option, none, some, [], ◌∷◌, All, length, subst,
  eq_refl, str_eq, if◌then◌else◌,
}
use chain_registry_sentinel.Base.Map.{Dict, lookup, insert, lookup-insert}
use chain_registry_sentinel.Registry.{Chain}
use chain_registry_sentinel.Checks.Error.{errorf}
use chain_registry_sentinel.Github.Outcome.{Outcome, ok, err}
use chain_registry_sentinel.Github.Body.{StatusPrEvidence}
use chain_registry_sentinel.State.{ChainState}
use chain_registry_sentinel.State.Files.{Read, missing, found, Storage, stamped, save, load}
use chain_registry_sentinel.State.Files.RoundTrip.{IsLawful, load-save}
use chain_registry_sentinel.Sentinel.ChainDeath.{ChainDeathFacts, empty_facts}
use chain_registry_sentinel.Sentinel.ChainDeath.Signatures.{live_somewhere}
use chain_registry_sentinel.Sentinel.Evidence.{build_status_evidence}
use chain_registry_sentinel.Sentinel.Evidence.Operators.{
  IsOperator, build_status_evidence-IsOperator,
}
use chain_registry_sentinel.Sentinel.Startup.{load_state_map}
use chain_registry_sentinel.Sentinel.Startup.Loaded.{
  is_ok, start_of, load_state_map-is_ok, load_state_map-start_of,
}
use chain_registry_sentinel.Examples.Data.{now, osmosis, failing_chain}

abbrev read_of : Option ChainState → Read ChainState
read_of none = missing
read_of (some cs) = found cs

abbrev moved : Option ChainState → String → Dict ChainState → Outcome (Dict ChainState)
moved none to disk = err (errorf "file does not exist")
moved (some cs) to disk = ok (insert to cs disk)

abbrev storage : Storage
storage = record {
  Disk = Dict ChainState;
  Bytes = ChainState;
  read_file = λ disk path. read_of (lookup path disk);
  make_directory = λ disk path. ok disk;
  write_file = λ disk path data_. ok (insert path data_ disk);
  rename = λ disk from to. moved (lookup from disk) to disk;
  unmarshal = λ cs. ok cs;
  marshal = λ cs. ok cs;
  decimal = λ _. "1";
}

moved-insert :
    (disk renamed : Dict ChainState) (from to : String) (cs : ChainState)
    → moved (lookup from (insert from cs disk)) to (insert from cs disk) ≡ ok renamed
    → read_of (lookup to renamed) ≡ found cs
moved-insert disk renamed from to cs e =
    let here : lookup from (insert from cs disk) ≡ some cs =
      lookup-insert from from cs disk ∙ rw (eq_refl from) refl in
    let placed : insert to cs (insert from cs disk) ≡ renamed = cc (rw here at e) in
    let found_there : lookup to (insert to cs (insert from cs disk)) ≡ some cs =
      lookup-insert to to cs (insert from cs disk) ∙ rw (eq_refl to) refl in
    subst (λ d. read_of (lookup to d) ≡ found cs) placed (ap read_of found_there)

storage-IsLawful : IsLawful storage
storage-IsLawful = record {
  rename-read_file = λ disk written renamed from to cs wrote e.
      moved-insert disk renamed from to cs
        (subst (λ d. moved (lookup from d) to d ≡ ok renamed) (cc wrote) e);
  unmarshal-marshal = λ cs data_ e. sym e;
}

load-save_example :
    (save storage [] "osmosis.json" failing_chain now
      ≡ ok (
          insert "osmosis.json"
            (stamped storage failing_chain now)
            (insert "osmosis.json.tmp" (stamped storage failing_chain now) [])))
    × (load storage
          (insert "osmosis.json"
            (stamped storage failing_chain now)
            (insert "osmosis.json.tmp" (stamped storage failing_chain now) []))
          "osmosis.json"
        ≡ ok (stamped storage failing_chain now))
unfolding lookup insert
load-save_example =
    load-save storage storage-IsLawful [] []
      (insert "osmosis.json.tmp" (stamped storage failing_chain now) [])
      (insert "osmosis.json" (stamped storage failing_chain now)
        (insert "osmosis.json.tmp" (stamped storage failing_chain now) []))
      "osmosis.json" failing_chain now (stamped storage failing_chain now) refl refl refl refl

-- The file of one chain of two cannot be read.
abbrev broken : String → Outcome ChainState
broken name =
    if str_eq name "juno" then err (errorf "unexpected end of JSON input") else ok failing_chain

abbrev digits : ℕ → String
digits _ = "1"

abbrev juno : Chain
juno = record osmosis { name = "juno"; chain_id = "juno-1" }

load_state_map-is_ok_example :
    is_ok (load_state_map broken digits (osmosis ∷ juno ∷ []) false) ≡ false
load_state_map-is_ok_example = load_state_map-is_ok broken digits (osmosis ∷ juno ∷ []) false

load_state_map-start_of_example :
    (m : Dict ChainState) × (load_state_map broken digits (osmosis ∷ juno ∷ []) true ≡ ok m)
    × All (λ ch. lookup ch.name m ≡ some (start_of broken digits ch)) (osmosis ∷ juno ∷ [])
load_state_map-start_of_example =
    load_state_map-start_of broken digits (osmosis ∷ juno ∷ []) true (refl, (refl, tt)) refl

abbrev facts : ChainDeathFacts
facts = record empty_facts { dead_domains = ("a.zone", 2) ∷ ("b.zone", 1) ∷ [] }

abbrev live : Dict ℕ
live = ("b.zone", 4) ∷ []

build_status_evidence-IsOperator_example :
    (length (StatusPrEvidence.withdrawn (build_status_evidence (λ _. "1") facts live failing_chain))
      ≡ live_somewhere live facts.dead_domains)
    × All
        (IsOperator live facts.dead_domains)
        (StatusPrEvidence.withdrawn (build_status_evidence (λ _. "1") facts live failing_chain))
build_status_evidence-IsOperator_example =
    build_status_evidence-IsOperator live (λ _. "1") facts failing_chain
