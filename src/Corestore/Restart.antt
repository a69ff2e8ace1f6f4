-- ===== src/Corestore/Restart.antt =====
-- A feed that was opened by name, when a later corestore on the disk is asked for its key.
use hyperspace_rs.FeedMap
use hyperspace_rs.FeedMap.{FeedMap}
use hyperspace_rs.Corestore.{FilePath, Env, World}
use hyperspace_rs.Corestore.NameFile.{NameLaws, name_path}

module _ {V : Env} (laws : NameLaws V) where
  -- Where the name of a feed is kept.
  abbrev pub name_path_of : World V → V.api.Feed → FilePath
  name_path_of w f = name_path V w.store.storage_path (V.public_key f)
