-- ===== src/Database/Startup.antt =====
-- What the database does when it is opened: `initializeTopology` and `removeMigratedLegacySource`.
-- The files are the topology of an earlier version and its backup; `parse` is `JSON.parse`, which
-- may throw.
pub mod Files
use essentials_calls.Base.{
  String, Bool, true, false, Option, none, some, List, [], ◌==◌, if◌then◌else◌,
}
use essentials_calls.Model.{PbxNode, Topology}
use essentials_calls.Security.Cipher.{SecretCipher}
use essentials_calls.Database.Store.{PbxDatabase, Result, ok, err}
use essentials_calls.Database.Initial.{empty_tables, insert_initial_topology}
use essentials_calls.Database.Seed.{seed_topology}
use essentials_calls.Base.{ℕ}

pub record LegacyFiles : Type 0 where
  pub legacy : Option String
  pub backup : Option String

-- The tables, where a revision exists, whether `legacy_topology_migrated` is recorded in them, and
-- the files.
pub record Installation : Type 0 where
  pub tables : Option PbxDatabase
  pub migrated : Bool
  pub files : LegacyFiles

pub data Problem : Type 0 where
  backup_differs : Problem
  backup_missing : Problem
  legacy_changed : Problem
  not_json : Problem
  refused : Problem

-- What a step threw, if it did, and what it left.
abbrev pub Left : Type 0 → Type 0
Left A = Option Problem × A

unfoldable pub remove_compared : String → Option String → LegacyFiles → Left LegacyFiles
remove_compared content none files = (some backup_missing, files)
remove_compared content (some saved) files =
    if content == saved
    then (none, record files { legacy = none })
    else (some legacy_changed, files)

unfoldable pub remove_found : Option String → LegacyFiles → Left LegacyFiles
unfolding remove_compared
remove_found none files = (none, files)
remove_found (some content) files = remove_compared content files.backup files

unfoldable pub remove_migrated_legacy_source : LegacyFiles → Left LegacyFiles
unfolding remove_found
remove_migrated_legacy_source files = remove_found files.legacy files

-- The backup is compared with the file, or made.
unfoldable pub backed_up : String → Option String → LegacyFiles → Left LegacyFiles
backed_up content none files = (none, record files { backup = some content })
backed_up content (some saved) files =
    if content == saved then (none, files) else (some backup_differs, files)

unfoldable pub with_files : Installation → Left LegacyFiles → Left Installation
with_files s (problem, files) = (problem, record s { files = files })

module _ (parse : String → Option Topology) (same : PbxNode → PbxNode → Bool)
    (random_iv : String → String) (now : String) (cipher : SecretCipher) (limit : ℕ) where
  unfoldable pub first_revision : Topology → String → Result PbxDatabase
  first_revision t source =
      insert_initial_topology same random_iv now t source (empty_tables cipher limit)

  unfoldable pub seeded : Installation → Result PbxDatabase → Left Installation
  seeded s (err e) = (some refused, s)
  seeded s (ok d) = (none, record s { tables = some d })

  -- The migration is recorded with the revision; then the file is removed.
  unfoldable pub imported : Installation → Result PbxDatabase → Left Installation
  unfolding with_files remove_migrated_legacy_source
  imported s (err e) = (some refused, s)
  imported s (ok d) =
      with_files (record s { tables = some d; migrated = true })
        (remove_migrated_legacy_source s.files)

  unfoldable pub import_parsed : Installation → Option Topology → Left Installation
  unfolding imported first_revision
  import_parsed s none = (some not_json, s)
  import_parsed s (some t) = imported s (first_revision t "legacy-migration")

  unfoldable pub import_backed_up : String → Installation → Left LegacyFiles → Left Installation
  unfolding import_parsed
  import_backed_up content s (some problem, files) = (some problem, record s { files = files })
  import_backed_up content s (none, files) =
      import_parsed (record s { files = files }) (parse content)

  unfoldable pub start_empty : Installation → Option String → Left Installation
  unfolding seeded first_revision import_backed_up backed_up
  start_empty s none = seeded s (first_revision seed_topology "seed")
  start_empty s (some content) =
      import_backed_up content s (backed_up content s.files.backup s.files)

  unfoldable pub start : Installation → Option PbxDatabase → Left Installation
  unfolding start_empty with_files remove_migrated_legacy_source
  start s none = start_empty s s.files.legacy
  start s (some d) =
      let removed = with_files s (remove_migrated_legacy_source s.files) in
      if s.migrated then removed else (none, s)

  unfoldable pub initialize_topology : Installation → Left Installation
  unfolding start
  initialize_topology s = start s s.tables
