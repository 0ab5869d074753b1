-- ===== src/Images/Tests.antt =====
-- The upload of an image of one layer, and of one that is too large.
use bb_action_router.Base.{codes, lookup, ℕ, ◌≡◌, refl, none, List, [], ◌∷◌}
use bb_action_router.Status.{ok, err, status, wrap, invalid_argument, ◌>>=◌}
use bb_action_router.Reapi.{Digest}
use bb_action_router.Registry.Puller.{
  Registry, get_auth_for_registry, authenticator, total_size, validate_image_size,
  get_image_from_ref, get_image_from_ref_impl,
}
use bb_action_router.Registry.Archive.{type_reg, type_link, Next, header}
use bb_action_router.Images.Uploader.{ImageUploader, flush_after, upload_image_impl}

abbrev blob : Digest
blob = record { hash = codes "blob"; size_bytes = 1 }

-- A reference is its own descriptor, and an image is a list of the sizes of its layers.
abbrev registry : Registry (Unit {0}) (List ℕ)
registry = record {
  parse_reference = λ ref. ok (record { registry = codes "gcr.io" });
  get = λ ref auth ctx. ok tt;
  image = λ desc. ok (10 ∷ 20 ∷ []);
  manifest = λ sizes. ok sizes;
}

abbrev layer : List Next
layer =
    header none (record {
      type_flag = type_reg;
      name = codes "etc/passwd";
      link_name = [];
      mode = 0o644;
      content = codes "root:x:0:0::/root:/bin/sh\n";
    })
    ∷ header none (record {
      type_flag = type_link;
      name = codes "etc/passwd-";
      link_name = codes "etc/passwd";
      mode = 0;
      content = [];
    })
    ∷ []

abbrev uploader : ℕ → ImageUploader (Unit {0}) (List ℕ)
uploader limit = record {
  registry = registry;
  puller = record { auth_config = []; maximum_image_size_bytes = limit; pull_timeout = 60 };
  build_user = record { uid = 1000; gid = 1000; name = codes "build" };
  layers = λ sizes. ok (ok layer ∷ []);
  scan_failure = λ path. none;
  uploader = record { create_temp = ok tt; copy = λ data_. ok tt; upload_blob = λ data_. ok blob };
  put_proto = λ d. ok blob;
  flush = ok tt;
}

refuses_a_large_image :
    (upload_image_impl (uploader 29) (codes "gcr.io/a")).0
    ≡ err (
        wrap "Failed to pull image"
          (status invalid_argument "Image size %.2f MB exceeds maximum allowed size %.2f MB"))
unfolding upload_image_impl flush_after get_image_from_ref get_image_from_ref_impl
    validate_image_size total_size get_auth_for_registry authenticator lookup ◌>>=◌
refuses_a_large_image = refl
