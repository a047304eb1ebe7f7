-- ===== src/Examples/Files.antt =====
-- Registry files in memory: an instance of what internal/github/pr.go needs of files, and two files.
use chain_registry_sentinel.Base.{refl, String, List, [], ◌∷◌}
use chain_registry_sentinel.Base.Int.{pos}
use chain_registry_sentinel.Base.Map.{Dict, lookup, insert, or_zero, lookup-insert}
use chain_registry_sentinel.Sentinel.Flows.Endpoint.{FlaggedEndpoint}
use chain_registry_sentinel.Github.Outcome.{ok}
use chain_registry_sentinel.Github.Documents.{
  Documents, IsLawful, AssetEntry, remove_at, change_at, with_base, with_unit,
}

pub record File : Type 0 where
  pub categories : Dict (List String)
  pub state : String
  pub entries : List AssetEntry

abbrev pub osmosis_file : File
osmosis_file = record {
  categories = ("rpc", "https://a" ∷ "https://b" ∷ []) ∷ ("rest", "https://a" ∷ []) ∷ [];
  state = "live";
  entries =
      record {
        asset = record {
          name = "Atom";
          base = "ibc/WRONG";
          trace_paths = "transfer/channel-0/uatom" ∷ [];
        };
        units = "ibc/WRONG" ∷ "atom" ∷ [];
      }
      ∷ record {
        asset = record { name = "Osmo"; base = "uosmo"; trace_paths = [] };
        units = "uosmo" ∷ [];
      }
      ∷ [];
}

abbrev pub files : Documents
files = record {
  Doc = File;
  read_chain = λ _. ok osmosis_file;
  read_assets = λ _. ok osmosis_file;
  apis = λ d. d.categories;
  delete_api = λ d category i. ok (record d {
    categories =
        insert category (remove_at i (or_zero [] (lookup category d.categories))) d.categories;
  });
  status = λ d. d.state;
  set_status = λ d v. ok (record d { state = v });
  assets = λ d. d.entries;
  set_base = λ d i v. ok (record d { entries = change_at (with_base v) i d.entries });
  set_unit = λ d i u v. ok (record d { entries = change_at (with_unit u v) i d.entries });
  bytes = λ d. d.state;
}

pub files-IsLawful : IsLawful files
files-IsLawful = record {
  delete_api-apis = λ d category i eps plain found _. (
    record d {
      categories =
          insert category (remove_at i (or_zero [] (lookup category d.categories))) d.categories;
    },
    refl,
    λ c. rw found (lookup-insert category c (remove_at i eps) d.categories),
  );
  set_base-assets =
      λ d i v _. (record d { entries = change_at (with_base v) i d.entries }, refl, refl);
  set_unit-assets =
      λ d i u v a _ _. (record d { entries = change_at (with_unit u v) i d.entries }, refl, refl);
  set_status-status = λ d v. (record d { state = v }, refl, refl, refl);
}

abbrev pub dead_rpc : List FlaggedEndpoint
dead_rpc =
    record {
      check = "rpc_liveness";
      address = "https://a";
      consecutive_failures = pos 5;
      first_failure_time = pos 0;
      first_evidence = "timeout";
      last_evidence = "timeout";
    }
    ∷ []
