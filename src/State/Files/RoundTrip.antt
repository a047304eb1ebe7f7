-- ===== src/State/Files/RoundTrip.antt =====
-- `Save` and then `Load` (internal/state/state.go).
use chain_registry_sentinel.Base.{◌≡◌, refl, String}
use chain_registry_sentinel.Base.Text.{◌+s◌}
use chain_registry_sentinel.Base.Time.{Time}
use chain_registry_sentinel.Github.Outcome.{ok}
use chain_registry_sentinel.State.{ChainState}
use chain_registry_sentinel.State.Files.{found, Storage, stamped, load, save}

-- A file that was written can be renamed, and is then read at its new path; what was encoded is
-- decoded as itself.
pub record IsLawful (S : Storage) : Type 0 where
  pub rename-read_file :
      (disk written renamed : S.Disk) (from to : String) (data_ : S.Bytes)
      → S.write_file disk from data_ ≡ ok written
      → S.rename written from to ≡ ok renamed
      → S.read_file renamed to ≡ found data_
  pub unmarshal-marshal :
      (cs : ChainState) (data_ : S.Bytes) → S.marshal cs ≡ ok data_ → S.unmarshal data_ ≡ ok cs

module _ (S : Storage) (L : IsLawful S) where
  -- Where the encoding and the three operations on the disk succeed, so does `save`, and `load` then
  -- reads the state that was saved, with the current version and the time of the saving.
  pub load-save :
      (disk made written renamed : S.Disk) (path : String) (cs : ChainState) (now : Time)
      (data_ : S.Bytes)
      → S.marshal (stamped S cs now) ≡ ok data_
      → S.make_directory disk path ≡ ok made
      → S.write_file made (path +s ".tmp") data_ ≡ ok written
      → S.rename written (path +s ".tmp") path ≡ ok renamed
      → (save S disk path cs now ≡ ok renamed) × (load S renamed path ≡ ok (stamped S cs now))
  unfolding save load
  load-save disk made written renamed path cs now data_ encoded directory wrote moved = (
    rw (encoded, directory, wrote, moved) refl,
    rw
        (
          L.rename-read_file made written renamed (path +s ".tmp") path data_ wrote moved,
          L.unmarshal-marshal (stamped S cs now) data_ encoded,
        )
        refl,
  )
