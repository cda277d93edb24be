-- ===== src/Database/Startup/Files.antt =====
-- The files of an earlier version, over `initializeTopology`.
use essentials_calls.Base.{
  ℕ, String, ◌≡◌, refl, sym, ap, ◌∙◌, Bool, ◌⊎◌, inl, inr, Option, none, some, ◌==◌, ==_iff,
  if_split, if_either,
}
use essentials_calls.Model.{PbxNode, Topology}
use essentials_calls.Security.Cipher.{SecretCipher}
use essentials_calls.Database.Store.{PbxDatabase, Result, ok, err}
use essentials_calls.Database.Startup.{
  LegacyFiles, Installation, Left, remove_compared, remove_found, remove_migrated_legacy_source,
  backed_up, with_files, seeded, imported, import_parsed, import_backed_up, start_empty, start,
  initialize_topology, first_revision,
}

-- The text stands in the file or in its backup.
abbrev pub Holds : String → LegacyFiles → Type 0
Holds content files = (files.legacy ≡ some content) ⊎ (files.backup ≡ some content)

remove_compared-Holds :
    (c content : String) (saved : Option String) (files : LegacyFiles)
    → files.legacy ≡ some content
    → files.backup ≡ saved
    → Holds c files
    → Holds c (remove_compared content saved files).1
unfolding remove_compared
remove_compared-Holds c content none files e b h = h
remove_compared-Holds c content (some saved) files e b h =
    if_split (λ (l : Left LegacyFiles). Holds c l.1) (content == saved) _ _
      (λ same. inr (held h (b ∙ ap some (sym ((==_iff content saved).0 same))))) (λ _. h)
  where
    held : Holds c files → files.backup ≡ some content → files.backup ≡ some c
    held (inl l) k = k ∙ sym e ∙ l
    held (inr r) k = r

remove_found-Holds :
    (c : String) (legacy : Option String) (files : LegacyFiles)
    → files.legacy ≡ legacy
    → Holds c files
    → Holds c (remove_found legacy files).1
unfolding remove_found
remove_found-Holds c none files e h = h
remove_found-Holds c (some content) files e h =
    remove_compared-Holds c content files.backup files e refl h

remove-Holds :
    (c : String) (files : LegacyFiles)
    → Holds c files
    → Holds c (remove_migrated_legacy_source files).1
unfolding remove_migrated_legacy_source
remove-Holds c files h = remove_found-Holds c files.legacy files refl h

backed_up-Holds :
    (c content : String) (saved : Option String) (files : LegacyFiles)
    → files.legacy ≡ some content
    → Holds c files
    → files.backup ≡ saved
    → Holds c (backed_up content saved files).1
unfolding backed_up
backed_up-Holds c content none files e (inl l) b = inl l
backed_up-Holds c content none files e (inr r) b = cc (b, r)
backed_up-Holds c content (some saved) files e h b =
    if_either (λ (l : Left LegacyFiles). Holds c l.1) (content == saved) _ _ h h

module _ (parse : String → Option Topology) (same : PbxNode → PbxNode → Bool) (iv : String → String)
    (now : String) (cipher : SecretCipher) (limit : ℕ) where
  imported-Holds :
      (c : String) (s : Installation) (r : Result PbxDatabase)
      → Holds c s.files
      → Holds c (imported parse same iv now cipher limit s r).1.files
  unfolding imported with_files
  imported-Holds c s (err e) h = h
  imported-Holds c s (ok d) h = remove-Holds c s.files h

  import_parsed-Holds :
      (c : String) (s : Installation) (t : Option Topology)
      → Holds c s.files
      → Holds c (import_parsed parse same iv now cipher limit s t).1.files
  unfolding import_parsed
  import_parsed-Holds c s none h = h
  import_parsed-Holds c s (some t) h =
      imported-Holds c s (first_revision parse same iv now cipher limit t "legacy-migration") h

  import_backed_up-Holds :
      (c content : String) (s : Installation) (l : Left LegacyFiles)
      → Holds c l.1
      → Holds c (import_backed_up parse same iv now cipher limit content s l).1.files
  unfolding import_backed_up
  import_backed_up-Holds c content s (some problem, files) h = h
  import_backed_up-Holds c content s (none, files) h =
      import_parsed-Holds c (record s { files = files }) (parse content) h

  seeded-Holds :
      (c : String) (s : Installation) (r : Result PbxDatabase)
      → Holds c s.files
      → Holds c (seeded parse same iv now cipher limit s r).1.files
  unfolding seeded
  seeded-Holds c s (err e) h = h
  seeded-Holds c s (ok d) h = h

  start_empty-Holds :
      (c : String) (s : Installation) (legacy : Option String)
      → s.files.legacy ≡ legacy
      → Holds c s.files
      → Holds c (start_empty parse same iv now cipher limit s legacy).1.files
  unfolding start_empty
  start_empty-Holds c s none e h = seeded-Holds c s _ h
  start_empty-Holds c s (some content) e h =
      import_backed_up-Holds c content s (backed_up content s.files.backup s.files)
        (backed_up-Holds c content s.files.backup s.files e h refl)

  start-Holds :
      (c : String) (s : Installation) (tables : Option PbxDatabase)
      → Holds c s.files
      → Holds c (start parse same iv now cipher limit s tables).1.files
  unfolding start with_files
  start-Holds c s none h = start_empty-Holds c s s.files.legacy refl h
  start-Holds c s (some d) h =
      if_either (λ (l : Left Installation). Holds c l.1.files) s.migrated _ _
        (remove-Holds c s.files h) h

  -- However the start of the database ends, with an error or without one: what stood in the
  -- topology file of an earlier version, or in its backup, stands in one of the two afterwards.
  pub initialize_topology-Holds :
      (content : String) (s : Installation)
      → Holds content s.files
      → Holds content (initialize_topology parse same iv now cipher limit s).1.files
  unfolding initialize_topology
  initialize_topology-Holds content s h = start-Holds content s s.tables h
