-- ===== src/Daemon/StartTests.antt =====
-- Start-up on a configuration that is complete, and on paths of the roots.
use bb_action_router.Base.{
  Text, codes, same, split_slash, add_byte, ◌≡◌, refl, true, false, none, List, [], ◌∷◌,
}
use bb_action_router.Status.{Result, ok}
use bb_action_router.Fetcher.RegistryAuth.{RegistryAuth}
use bb_action_router.Fetcher.Server.{Server}
use bb_action_router.Layers.Paths.{clean_part, clean_parts}
use bb_action_router.Daemon.Start.{ApplicationConfiguration, without_segment}

abbrev config : ApplicationConfiguration
config = record {
  roots_directory_path = codes "/roots";
  fetch_parallelism = 4;
  fetch_open_directory_limit = 100;
  maximum_materialized_roots = 8;
  maximum_concurrent_fetches = 2;
  acquire_timeout = none;
  root_use_boost = none;
  maximum_root_use_boost = none;
  prefetch_images = codes "a" ∷ [];
  build_user = none;
}

abbrev registries : Result (List (Text × RegistryAuth))
registries = ok []

refuses_the_root : without_segment (codes "/../") ≡ true
unfolding clean_parts clean_part split_slash add_byte same
refuses_the_root = refl

accepts_the_parent : without_segment (codes "..") ≡ false
unfolding clean_parts clean_part split_slash add_byte same
accepts_the_parent = refl
