-- ===== src/Config/FirstRun.antt =====
-- What the loading of the configuration does without a file, and what it does at the next start.
use database_router.Shared.{String, ◌≡◌, true, false, arith}
use database_router.Shared.Action.{State, ok}
use database_router.Text.{Text, codes}
use database_router.Driver.Calls.{Call}
use database_router.Config.{override_from_env}
use database_router.Config.Load.{Files, load, default_config}

-- The documented behaviour of files and of encoding/json: what was written is there and is read, reading
-- a file changes none, and the default configuration, whose texts are ASCII, is what its JSON says.
pub record IsLawfulFiles {W : Type 0} (fs : Files W) : Type 0 where
  pub read-write :
      (name text : Text) (w : W)
      → (fs.write_file name text w).0 ≡ ok tt
      → (fs.read_file name (fs.write_file name text w).1).0 ≡ ok text
  pub is_there-write :
      (name text : Text) (w : W)
      → (fs.write_file name text w).0 ≡ ok tt
      → fs.is_missing name (fs.write_file name text w).1 ≡ false
  pub read-read :
      (name : Text) (w : W)
      → (fs.read_file name (fs.read_file name w).1).0 ≡ (fs.read_file name w).0
  pub is_missing-read :
      (name : Text) (w : W) → fs.is_missing name (fs.read_file name w).1 ≡ fs.is_missing name w
  pub unmarshal-marshal :
      (text : Text) → fs.marshal default_config ≡ ok text → fs.unmarshal text ≡ ok default_config

module _ {W : Type 0} (fs : Files W) (getenv : String → Text) (s : State W Call) where
  -- Without a config.json, where the default configuration can be marshalled and written: behind Load
  -- the file is there and holds the JSON of the defaults. Load returns the defaults, overridden from
  -- the environment, and a second Load behind it, in any environment, reads the same defaults.
  pub load-first_run :
      (text : Text)
      → IsLawfulFiles fs
      → fs.is_missing (codes "config.json") s.world ≡ true
      → fs.marshal default_config ≡ ok text
      → (fs.write_file (codes "config.json") text s.world).0 ≡ ok tt
      → ((load fs getenv s).0 ≡ ok (override_from_env getenv default_config))
        × (fs.is_missing (codes "config.json") (load fs getenv s).1.world ≡ false)
        × ((fs.read_file (codes "config.json") (load fs getenv s).1.world).0 ≡ ok text)
        × ((env : String → Text)
            → (load fs env (load fs getenv s).1).0 ≡ ok (override_from_env env default_config))
  unfolding load
  load-first_run text laws missing marshalled written =
      let file : Text = codes "config.json" in
      let w : W = (fs.write_file file text s.world).1 in
      let back = laws.read-write file text s.world written in
      let there = laws.is_there-write file text s.world written in
      let parsed = laws.unmarshal-marshal text marshalled in
      let again = laws.read-read file w in
      let still = laws.is_missing-read file w in
      (ground arith, ground arith, ground arith, λ env. ground arith)
